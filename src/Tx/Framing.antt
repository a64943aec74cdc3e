-- ===== src/Tx/Framing.antt =====
-- An independent reader of the PDU arrays that the serializers of
-- aerial_bridge/src/msg_translator.cpp write: it follows the `pdu_size` fields.
use ocudu_aerial_fapi_connec.Common.{
  ℕ, zero, suc, ◌+◌, ◌-◌, ◌*◌, ◌%◌, ◌≤◌, ◌<◌, ◌≡◌, refl, ap, ◌∙◌, leb, le→leb, ◌&&◌, if◌then◌else◌,
  List, [], ◌∷◌, ◌++◌, append_assoc, append-nil, All, Option, none, some, ◌>>=◌, length, take, drop,
  length-append, drop-append, take-append, get_elem?-append_left, arith,
}
use ocudu_aerial_fapi_connec.Tx.Frame.{
  SfnSlot, concat, message, write_headers, slot_to_sfn_slot, pdu,
}
use ocudu_aerial_fapi_connec.Wire.{load8, load16, load32, le8}

-- The first `n` PDUs and the bytes behind them.
pub split_pdus : ℕ → List ℕ → Option (List (List ℕ) × List ℕ)
split_pdus zero bytes = some ([], bytes)
split_pdus (suc n) bytes = do
  size ← load16 bytes 2
  if leb 4 size && leb size (length bytes)
      then (do (pdus, rest) ← split_pdus n (drop size bytes); some (take size bytes ∷ pdus, rest))
      else none

-- Few enough bytes for a `uint16_t` size field.
abbrev pub IsShort : List ℕ → Type 0
IsShort b = length b < 65536

-- Bytes whose `pdu_size` field is their number.
abbrev pub IsPdu : List ℕ → Type 0
IsPdu b = (4 ≤ length b) × (length b < 65536) × (load16 b 2 ≡ some (length b))

-- A PDU whose bytes are few enough for its `uint16_t` size field states its size.
pub pdu-IsPdu : (t : ℕ) (config : List ℕ) → length (pdu t config) < 65536 → IsPdu (pdu t config)
unfolding pdu load16
pdu-IsPdu t config h =
    let n : length (config ++ []) ≡ length config = ap length (append-nil config) in
    (omega arith, h, ap some (omega arith))

load16-append : (b rest : List ℕ) (p : ℕ) → p + 2 ≤ length b → load16 (b ++ rest) p ≡ load16 b p
unfolding load16
load16-append b rest p h = rw (
  get_elem?-append_left b rest p (omega arith),
  get_elem?-append_left b rest (p + 1) (omega arith),
)

split_pdus_step :
    (n : ℕ) (b rest : List ℕ)
    → IsPdu b
    → split_pdus (suc n) (b ++ rest)
      ≡ (split_pdus n rest >>= λ (r : List (List ℕ) × List ℕ). some (b ∷ r.0, r.1))
unfolding split_pdus
split_pdus_step n b rest (lo, hi, size) = rw (
  load16-append b rest 2 (omega arith),
  size,
  le→leb 4 (length b) lo,
  le→leb (length b) (length (b ++ rest)) (omega (arith, length-append b rest)),
  drop-append b rest,
  take-append b rest,
)

split_pdus-concat :
    (pdus : List (List ℕ)) (rest : List ℕ)
    → All IsPdu pdus
    → split_pdus (length pdus) (concat pdus ++ rest) ≡ some (pdus, rest)
unfolding split_pdus
split_pdus-concat [] rest h = refl
split_pdus-concat (b ∷ pdus) rest (h, hs) =
    rw (append_assoc b (concat pdus) rest) (
      split_pdus_step (length pdus) b (concat pdus ++ rest) h ∙ rw (split_pdus-concat pdus rest hs))

length-concat : (pdus : List (List ℕ)) → All IsPdu pdus → length (concat pdus) ≤ 65536 * length pdus
length-concat [] h = omega arith
length-concat (b ∷ pdus) (h, hs) =
    omega (arith, length-append b (concat pdus), length-concat pdus hs)

-- A message of a given type for a cell and a slot, whose PDU array begins at offset `first` and
-- holds the given PDUs and nothing else.
pub record IsFramed (type_id cell_id : ℕ) (sp : SfnSlot) (first : ℕ) (pdus : List (List ℕ))
    (bytes : List ℕ) : Type 0 where
  pub message_count : load8 bytes 0 ≡ some 1
  pub handle_id : load8 bytes 1 ≡ some cell_id
  pub message_id : load16 bytes 2 ≡ some type_id
  pub body_length : load32 bytes 4 ≡ some (length bytes - 8)
  pub sfn : load16 bytes 8 ≡ some sp.sfn
  pub slot : load16 bytes 10 ≡ some sp.slot_index
  pub num_pdus : load8 bytes 12 ≡ some (length pdus)
  pub chain : split_pdus (length pdus) (drop first bytes) ≡ some (pdus, [])

-- The ranges of the fields of an envelope.
pub record InRange (type_id cell_id : ℕ) (sp : SfnSlot) : Type 0 where
  pub type_range : type_id < 65536
  pub cell_range : cell_id < 256
  pub sfn_range : sp.sfn < 65536
  pub slot_range : sp.slot_index < 65536

module _ (type_id cell_id : ℕ) (sp : SfnSlot) (flags : List ℕ) (pdus : List (List ℕ)) (n : ℕ) where
  abbrev body : List ℕ
  body = slot_to_sfn_slot sp ++ (le8 n ++ (flags ++ concat pdus))

  pub message-IsFramed :
      InRange type_id cell_id sp
      → n % 256 ≡ length pdus
      → length flags < 256
      → All IsPdu pdus
      → IsFramed type_id cell_id sp (13 + length flags) pdus (message cell_id type_id body)
  unfolding message slot_to_sfn_slot write_headers load8 load16 load32
  message-IsFramed r e small all =
      let total = length-append flags (concat pdus) in
      let bound = length-concat pdus all in
      record {
        message_count = refl;
        handle_id = ap some (omega arith);
        message_id = ap some (omega arith);
        body_length = ap some (omega arith);
        sfn = ap some (omega arith);
        slot = ap some (omega arith);
        num_pdus = ap some (omega arith);
        chain = ap (split_pdus (length pdus)) behind ∙ whole;
      }
    where
      front : List ℕ
      front =
          concat
            (write_headers cell_id type_id (length body) ∷ slot_to_sfn_slot sp ∷ le8 n ∷ flags ∷ [])

      front_length : 13 + length flags ≡ length front
      front_length = omega (arith, ap length (append-nil flags))

      joined : message cell_id type_id body ≡ front ++ concat pdus
      joined = rw append-nil

      behind : drop (13 + length flags) (message cell_id type_id body) ≡ concat pdus
      behind = rw (joined, front_length) (drop-append front (concat pdus))

      whole : split_pdus (length pdus) (concat pdus) ≡ some (pdus, [])
      whole = rw (append-nil (concat pdus)) at (split_pdus-concat pdus [] all)
