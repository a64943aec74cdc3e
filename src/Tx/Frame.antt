-- ===== src/Tx/Frame.antt =====
-- Message envelopes and PDU headers: `write_headers` and `scf_generic_pdu_info` of
-- aerial_bridge/src/msg_translator.cpp and include/aerial_bridge/msg_translator.h.
use ocudu_aerial_fapi_connec.Common.{ℕ, ◌+◌, Bool, if◌then◌else◌, List, [], ◌∷◌, ◌++◌, length}
use ocudu_aerial_fapi_connec.Wire.{le8, le16, le32}

-- Fields one after the other.
abbrev pub concat : List (List ℕ) → List ℕ
concat [] = []
concat (field ∷ fields) = field ++ concat fields

-- `start()` and `length()` of OCUDU's intervals.
pub record Interval : Type 0 where
  pub start : ℕ
  pub size : ℕ

-- What `slot_point` answers to `sfn()` and `slot_index()`.
pub record SfnSlot : Type 0 where
  pub sfn : ℕ
  pub slot_index : ℕ

-- `scf_header` and `scf_body_header`, which stand in front of the body that is written first.
unfoldable pub write_headers : ℕ → ℕ → ℕ → List ℕ
write_headers cell_id type_id body_len =
    concat (le8 1 ∷ le8 cell_id ∷ le16 type_id ∷ le32 body_len ∷ [])

-- `slot_to_sfn_slot`, stored in the first two fields of a body.
unfoldable pub slot_to_sfn_slot : SfnSlot → List ℕ
slot_to_sfn_slot sp = concat (le16 sp.sfn ∷ le16 sp.slot_index ∷ [])

-- A whole message: the body's length is only known at the end.
unfoldable pub message : ℕ → ℕ → List ℕ → List ℕ
unfolding write_headers
message cell_id type_id body = write_headers cell_id type_id (length body) ++ body

-- `scf_generic_pdu_info` and the configuration behind it. `pdu_size` is a `uint16_t`.
unfoldable pub pdu : ℕ → List ℕ → List ℕ
pdu pdu_type config = concat (le16 pdu_type ∷ le16 (4 + length config) ∷ config ∷ [])

-- `scf_bwp`; `cp_normal` is `cp == cyclic_prefix::NORMAL`.
unfoldable pub bwp_bytes : Interval → ℕ → Bool → List ℕ
bwp_bytes bwp scs cp_normal =
    concat (le16 bwp.size ∷ le16 bwp.start ∷ le8 scs ∷ le8 (if cp_normal then 0 else 1) ∷ [])

-- The empty `scf_tx_precoding_beamforming` and `scf_rx_beamforming` blocks.
unfoldable pub no_beamforming : List ℕ
no_beamforming = concat (le16 0 ∷ le16 0 ∷ le8 0 ∷ [])
