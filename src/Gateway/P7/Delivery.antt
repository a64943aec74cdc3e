-- ===== src/Gateway/P7/Delivery.antt =====
-- What becomes of the buffers and messages of `aerial_p7_gateway` in
-- aerial_bridge/src/aerial_fapi_adaptor.cpp.
use ocudu_aerial_fapi_connec.Common.{
  ℕ, ◌+◌, ◌≤◌, ◌≡◌, refl, ap, ◌∙◌, Bool, le→leb, List, [], ◌∷◌, ◌++◌, append-nil, append_assoc, All,
  Option, none, Ensures, Ensures-map, Ensures->>=, length, length-append, map, arith,
}
use ocudu_aerial_fapi_connec.Gateway.P7.{
  Allocation, failed, granted, IpcOut, P7, P7Request, dl_tti, ul_tti, ul_dci, tx_data, max_msg_len,
  finish, send_dl_tti_request, send_ul_tti_request, send_ul_dci_request, send_tx_data_request, send,
  send_all,
}
use ocudu_aerial_fapi_connec.Gateway.P7.Sizes.{
  message_bytes, Writes, serialize_dl_tti_request-Writes, serialize_ul_tti_request-Writes,
  serialize_ul_dci_request-Writes, serialize_tx_data_request-Writes,
}
use ocudu_aerial_fapi_connec.ScfMsgId
use ocudu_aerial_fapi_connec.Tx.DlTti.{DlResult, serialize_dl_tti_request}
use ocudu_aerial_fapi_connec.Tx.DlTti.Framed.{HasCodeword}

abbrev pub id_of : P7Request → ℕ
id_of (dl_tti msg) = ScfMsgId.dl_tti_request
id_of (ul_tti msg) = ScfMsgId.ul_tti_request
id_of (ul_dci msg) = ScfMsgId.ul_dci_request
id_of (tx_data msg) = ScfMsgId.tx_data_request

-- The ids of the requests for which the transport grants a buffer.
abbrev pub granted_ids : List (P7Request × Allocation) → List ℕ
granted_ids [] = []
granted_ids ((msg, failed) ∷ rest) = granted_ids rest
granted_ids ((msg, granted dat) ∷ rest) = id_of msg ∷ granted_ids rest

abbrev pub sent_ids : P7 → List ℕ
sent_ids st = map (λ (m : IpcOut). m.msg_id) st.sent

-- Every PDSCH PDU has a codeword, which the debug print reads.
abbrev pub HasCodewords : P7Request → Type 0
HasCodewords (dl_tti msg) = All HasCodeword msg.pdus
HasCodewords (ul_tti msg) = Unit {0}
HasCodewords (ul_dci msg) = Unit {0}
HasCodewords (tx_data msg) = Unit {0}

-- A request whose message fits the buffer that the gateway asks for.
abbrev pub Sendable : Bool → P7Request × Allocation → Type 0
Sendable force_table0 (r, a) = HasCodewords r × (message_bytes force_table0 r ≤ max_msg_len)

-- From `st` on, messages with the given ids are sent in order, one for each buffer taken from the
-- pool, and none is released.
pub record Sends (ids : List ℕ) (st st' : P7) : Type 0 where
  pub sent_is : sent_ids st' ≡ sent_ids st ++ ids
  pub released_is : st'.released ≡ st.released
  pub allocated_is : st'.allocated ≡ st.allocated + length ids

map-snoc :
    (xs : List IpcOut) (m : IpcOut)
    → map (λ (n : IpcOut). n.msg_id) (xs ++ (m ∷ []))
      ≡ map (λ (n : IpcOut). n.msg_id) xs ++ (m.msg_id ∷ [])
map-snoc [] m = refl
map-snoc (x ∷ xs) m = rw (map-snoc xs m)

Sends-refl : (st : P7) → Sends [] st st
Sends-refl st = record { sent_is = rw append-nil; released_is = refl; allocated_is = omega arith }

Sends-trans : (is js : List ℕ) (a b c : P7) → Sends is a b → Sends js b c → Sends (is ++ js) a c
Sends-trans is js a b c f g = record {
  sent_is = g.sent_is ∙ ap (λ (xs : List ℕ). xs ++ js) f.sent_is ∙ append_assoc (sent_ids a) is js;
  released_is = g.released_is ∙ f.released_is;
  allocated_is = omega (arith, f.allocated_is, g.allocated_is, length-append is js);
}

finish-Sends :
    (id n : ℕ) (written dat : Option (List ℕ)) (data_len : ℕ) (st st' : P7)
    → Writes n written
    → n ≤ max_msg_len
    → sent_ids st' ≡ sent_ids st
    → st'.released ≡ st.released
    → st'.allocated ≡ st.allocated
    → Ensures (Sends (id ∷ []) st) (finish id written dat data_len st')
unfolding finish
finish-Sends id n written dat data_len st st' (bytes, e, l) fits es er ea =
    rw (e, le→leb (length bytes) max_msg_len (omega arith))
      (record {
        sent_is = map-snoc st'.sent _ ∙ ap (λ (xs : List ℕ). xs ++ (id ∷ [])) es;
        released_is = er;
        allocated_is = omega (arith, ea);
      })

module _ (force_table0 : Bool) where
  -- The ids that one call sends.
  pub send-Sends :
      (r : P7Request) (a : Allocation) (st : P7)
      → Sendable force_table0 (r, a)
      → Ensures (Sends (granted_ids ((r, a) ∷ [])) st) (send force_table0 r a st)
  unfolding send send_dl_tti_request send_ul_tti_request send_ul_dci_request send_tx_data_request
  send-Sends (dl_tti msg) failed st h = Sends-refl st
  send-Sends (dl_tti msg) (granted dat) st (h, fits) =
      let n = message_bytes force_table0 (dl_tti msg) in
      Ensures->>= (λ (r : DlResult). Writes n r.written) (Sends (ScfMsgId.dl_tti_request ∷ []) st)
        (serialize_dl_tti_request force_table0 msg max_msg_len 0 st.pdsch_dbg_count) _
        (serialize_dl_tti_request-Writes force_table0 msg 0 st.pdsch_dbg_count h)
        (λ r w. finish-Sends ScfMsgId.dl_tti_request n r.written none 0 st _ w fits refl refl refl)
  send-Sends (ul_tti msg) failed st h = Sends-refl st
  send-Sends (ul_tti msg) (granted dat) st (h, fits) =
      finish-Sends ScfMsgId.ul_tti_request _ _ none 0 st _
        (serialize_ul_tti_request-Writes force_table0 msg 0 st.globals) fits refl refl refl
  send-Sends (ul_dci msg) failed st h = Sends-refl st
  send-Sends (ul_dci msg) (granted dat) st (h, fits) =
      finish-Sends ScfMsgId.ul_dci_request _ _ none 0 st _
        (serialize_ul_dci_request-Writes force_table0 msg 0) fits refl refl refl
  send-Sends (tx_data msg) failed st h = record {
    sent_is = rw append-nil;
    released_is = refl;
    allocated_is = omega arith;
  }
  send-Sends (tx_data msg) (granted dat) st (h, fits) =
      finish-Sends ScfMsgId.tx_data_request _ _ _ _ st _
        (serialize_tx_data_request-Writes force_table0 msg dat 0 st.globals.metrics) fits refl refl
        refl

  granted_ids-cons :
      (r : P7Request) (a : Allocation) (rest : List (P7Request × Allocation))
      → granted_ids ((r, a) ∷ []) ++ granted_ids rest ≡ granted_ids ((r, a) ∷ rest)
  granted_ids-cons r failed rest = refl
  granted_ids-cons r (granted dat) rest = refl

  -- Over any sequence of requests in which every PDSCH PDU has a codeword and every message fits the
  -- 15000 bytes that are asked for, and whatever allocations fail, no serializer writes past the end
  -- of its buffer, and the gateway sends exactly one message for each buffer that it takes from the
  -- pool, in the order of the requests and with their ids, and releases no buffer unsent.
  pub send_all-Sends :
      (rs : List (P7Request × Allocation)) (st : P7)
      → All (Sendable force_table0) rs
      → Ensures (Sends (granted_ids rs) st) (send_all force_table0 rs st)
  unfolding send_all
  send_all-Sends [] st h = Sends-refl st
  send_all-Sends ((r, a) ∷ rest) st (h, hs) =
      let one = granted_ids ((r, a) ∷ []) in
      Ensures->>= (Sends one st) (Sends (granted_ids ((r, a) ∷ rest)) st) (send force_table0 r a st)
        _ (send-Sends r a st h)
        (λ mid f.
          Ensures-map (Sends (granted_ids rest) mid) (Sends (granted_ids ((r, a) ∷ rest)) st)
            (send_all force_table0 rest mid)
            (λ st' g.
              rw (granted_ids-cons r a rest) at (Sends-trans one (granted_ids rest) st mid st' f g))
            (send_all-Sends rest mid hs))
