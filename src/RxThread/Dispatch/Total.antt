-- ===== src/RxThread/Dispatch/Total.antt =====
-- `rx_thread::dispatch_message` of aerial_bridge/src/rx_thread.cpp on any message.
use ocudu_aerial_fapi_connec.Common.{
  &&-true, ℕ, ◌≤◌, ◌==◌, ◌&&◌, ◌||◌, ltb, leb, leb→le, le→leb, take, Bool, true, false,
  if◌then◌else◌, Bool-cases, Ensures, Ensures->>=, Ensures->>=_ne_none, inl, inr, List, Option,
  none, some, length, arith, ℤ, pos, negsuc,
}
use ocudu_aerial_fapi_connec.Ocudu.{Ocudu}
use ocudu_aerial_fapi_connec.Rx.Crc.{notify_crc}
use ocudu_aerial_fapi_connec.Rx.Crc.Safety.{dispatch_crc_indication-Ensures}
use ocudu_aerial_fapi_connec.Rx.Indication.{
  CrcPdu, RachPdu, SrsPdu, on_slot_indication, on_param_response, on_config_response,
  on_stop_indication, on_error_indication,
}
use ocudu_aerial_fapi_connec.Rx.Rach.{notify_rach}
use ocudu_aerial_fapi_connec.Rx.Rach.Safety.{dispatch_rach_indication-Ensures}
use ocudu_aerial_fapi_connec.Rx.RxData.{DataBuf, RxDataEntry, notify_rx_data}
use ocudu_aerial_fapi_connec.Rx.RxData.Safety.{dispatch_rx_data_indication-Ensures}
use ocudu_aerial_fapi_connec.Rx.Slot.Safety.{deserialize_slot_indication-ne-none}
use ocudu_aerial_fapi_connec.Rx.Srs.{notify_srs}
use ocudu_aerial_fapi_connec.Rx.Srs.Safety.{dispatch_srs_indication-Ensures}
use ocudu_aerial_fapi_connec.Rx.Uci.Total.{Kept, dispatch_uci_indication-Ensures}
use ocudu_aerial_fapi_connec.Rx.World.{World, LogLine, notify, write_line}
use ocudu_aerial_fapi_connec.RxThread.Dispatch.{
  RxThreadConfig, Notifiers, IpcMsg, view, slot_case, param_response_case, log_invalid_tlvs,
  config_response_case, error_case, MsgKind, slot_kind, crc_kind, rx_data_kind, uci_kind, rach_kind,
  srs_kind, param_response_kind, config_response_kind, stop_kind, error_kind, unknown_kind,
  msg_kind, dispatch_kind, dispatch_buffer, dispatch_message,
}
use ocudu_aerial_fapi_connec.Wire.{load8_inside, load16_inside}

-- What a predicate on the state must survive to hold after every message.
pub record AllKept {Slot Ta : Type 0} (P : World Slot Ta → Type 0) : Type 0 where
  pub crc : (sp : Slot) (pdu : CrcPdu) (w : World Slot Ta) → P w → P (notify_crc sp pdu w)
  pub rx_data :
      (sp : Slot) (d : DataBuf) (off : ℕ) (pdu : RxDataEntry) (w : World Slot Ta)
      → P w
      → P (notify_rx_data sp d off pdu w)
  pub rach : (sp : Slot) (pdu : RachPdu) (w : World Slot Ta) → P w → P (notify_rach sp pdu w)
  pub srs : (sp : Slot) (pdu : SrsPdu Ta) (w : World Slot Ta) → P w → P (notify_srs sp pdu w)
  pub uci : Kept P
  pub slot :
      (sp : Slot) (now : ℕ) (w : World Slot Ta) → P w → P (notify (on_slot_indication sp now) w)
  pub param : (c : ℕ) (w : World Slot Ta) → P w → P (notify (on_param_response c) w)
  pub config : (c : ℕ) (w : World Slot Ta) → P w → P (notify (on_config_response c) w)
  pub stop : (w : World Slot Ta) → P w → P (notify on_stop_indication w)
  pub error :
      (sp : Slot) (m c : ℕ) (w : World Slot Ta) → P w → P (notify (on_error_indication sp m c) w)
  pub line : (l : LogLine) (w : World Slot Ta) → P w → P (write_line l w)

-- A buffer that is null or holds the bytes that the message announces.
abbrev pub HoldsBytes : Option (List ℕ) → ℤ → Type 0
HoldsBytes none len = Unit {0}
HoldsBytes (some allocated) (negsuc k) = Unit {0}
HoldsBytes (some allocated) (pos len) = len ≤ length allocated

-- Both outcomes of a guarded dispatcher.
if-Ensures {ℓ} :
    {A : Type ℓ} (P : A → Type 0) (b : Bool) (m : Option A) (a : A)
    → Ensures P m
    → P a
    → Ensures P (if b then m else some a)
if-Ensures P true m a h k = h
if-Ensures P false m a h k = k

module _ {Slot Ta : Type 0} (o : Ocudu Slot Ta) (P : World Slot Ta → Type 0)
    (keep : AllKept P) where
  module _ (buf : List ℕ) (w : World Slot Ta) (h : P w) where
    slot_case-Ensures : (numerology now : ℕ) → Ensures P (slot_case o numerology buf now w)
    unfolding slot_case
    slot_case-Ensures numerology now = elim (Bool-cases (ltb (length buf) 12)) [
      | inl out ↦ rw out h
      | inr fits ↦ rw fits (
          Ensures->>=_ne_none P _ _ (deserialize_slot_indication-ne-none o _ numerology now)
            (elim [ none ↦ h | some ind ↦ keep.slot _ _ w h ]))
    ]

    param_response_case-Ensures : (p5 : Bool) → Ensures P (param_response_case p5 buf w)
    unfolding param_response_case
    param_response_case-Ensures p5 = elim (Bool-cases (p5 && leb 9 (length buf))) [
      | inl here ↦
          let fits = leb→le _ _ (&&-true p5 _ here) in
          let (c, e) = load8_inside buf 8 (omega arith) in rw (here, e) (keep.param c w h)
      | inr off ↦ rw off h
    ]

    log_invalid_tlvs-Ensures : (c : ℕ) → Ensures P (log_invalid_tlvs buf c w)
    unfolding log_invalid_tlvs
    log_invalid_tlvs-Ensures c = elim (Bool-cases (ltb 0 c && leb 10 (length buf))) [
      | inl here ↦
          let fits = leb→le _ _ (&&-true (ltb 0 c) _ here) in
          let (n, e) = load8_inside buf 9 (omega arith) in rw (here, e) (keep.line _ w h)
      | inr off ↦ rw off h
    ]

    error_case-Ensures : (numerology : ℕ) → Ensures P (error_case o numerology buf w)
    unfolding error_case
    error_case-Ensures numerology = elim (Bool-cases (leb 14 (length buf))) [
      | inl here ↦
          let fits = leb→le _ _ here in
          let (sfn, e0) = load16_inside buf 8 (omega arith) in
          let (slot, e1) = load16_inside buf 10 (omega arith) in
          let (m, e2) = load8_inside buf 12 (omega arith) in
          let (c, e3) = load8_inside buf 13 (omega arith) in
          rw (here, e0, e1, e2, e3) (keep.error _ _ _ w h)
      | inr off ↦ rw off h
    ]

  answered :
      (p5 : Bool) (c : ℕ) (w : World Slot Ta)
      → P w
      → P (if p5 then notify (on_config_response c) w else w)
  answered true c w h = keep.config c w h
  answered false c w h = h

  stopped :
      (p5 : Bool) (w : World Slot Ta) → P w → P (if p5 then notify on_stop_indication w else w)
  stopped true w h = keep.stop w h
  stopped false w h = h

  config_response_case-Ensures :
      (p5 : Bool) (buf : List ℕ) (w : World Slot Ta)
      → P w
      → Ensures P (config_response_case p5 buf w)
  unfolding config_response_case
  config_response_case-Ensures p5 buf w h = elim (Bool-cases (leb 9 (length buf))) [
    | inl here ↦
        let fits = leb→le _ _ here in
        let (c, e) = load8_inside buf 8 (omega arith) in
        rw (here, e)
          (Ensures->>= P P _ _ (log_invalid_tlvs-Ensures buf _ (keep.line _ w h) c) (answered p5 c))
    | inr off ↦ rw off h
  ]

  dispatch_kind-Ensures :
      (cfg : RxThreadConfig) (n : Notifiers) (msg : IpcMsg) (buf : List ℕ) (w : World Slot Ta)
      (k : MsgKind)
      → P w
      → Ensures P (dispatch_kind o cfg n msg buf w k)
  unfolding dispatch_kind
  dispatch_kind-Ensures cfg n msg buf w slot_kind h =
      if-Ensures P n.slot _ w (slot_case-Ensures buf w h cfg.numerology msg.now) h
  dispatch_kind-Ensures cfg n msg buf w crc_kind h =
      if-Ensures P n.ind _ w (dispatch_crc_indication-Ensures P keep.crc o buf _ w h) h
  dispatch_kind-Ensures cfg n msg buf w rx_data_kind h =
      if-Ensures P n.ind _ w (dispatch_rx_data_indication-Ensures P keep.rx_data o buf _ _ w h) h
  dispatch_kind-Ensures cfg n msg buf w uci_kind h =
      if-Ensures P n.ind _ w (dispatch_uci_indication-Ensures o cfg.numerology P keep.uci buf w h) h
  dispatch_kind-Ensures cfg n msg buf w rach_kind h =
      if-Ensures P n.ind _ w (dispatch_rach_indication-Ensures P keep.rach o buf _ w h) h
  dispatch_kind-Ensures cfg n msg buf w srs_kind h =
      if-Ensures P n.ind _ w (dispatch_srs_indication-Ensures o cfg.numerology P keep.srs buf w h) h
  dispatch_kind-Ensures cfg n msg buf w param_response_kind h =
      param_response_case-Ensures buf w h n.p5
  dispatch_kind-Ensures cfg n msg buf w config_response_kind h =
      config_response_case-Ensures n.p5 buf w h
  dispatch_kind-Ensures cfg n msg buf w stop_kind h = stopped n.p5 w h
  dispatch_kind-Ensures cfg n msg buf w error_kind h =
      if-Ensures P n.error _ w (error_case-Ensures buf w h cfg.numerology) h
  dispatch_kind-Ensures cfg n msg buf w unknown_kind h = keep.line _ w h

  dispatch_buffer-Ensures :
      (cfg : RxThreadConfig) (n : Notifiers) (msg : IpcMsg) (w : World Slot Ta)
      (b : Option (List ℕ)) (l : ℤ)
      → HoldsBytes b l
      → P w
      → Ensures P (dispatch_buffer o cfg n msg w b l)
  unfolding dispatch_buffer view
  dispatch_buffer-Ensures cfg n msg w none l holds h = h
  dispatch_buffer-Ensures cfg n msg w (some allocated) (negsuc k) holds h = h
  dispatch_buffer-Ensures cfg n msg w (some allocated) (pos len) holds h =
      elim (Bool-cases (len == 0 || ltb 1000000 len)) [
        | inl bad ↦ rw bad h
        | inr good ↦
            rw (good, le→leb len _ holds)
              (dispatch_kind-Ensures cfg n msg (take len allocated) w (msg_kind msg.msg_id) h)
      ]

  -- Every message whose buffer is null or holds the announced bytes is handled without a read
  -- outside the buffer, and what every notification and log line keeps holds afterwards.
  pub dispatch_message-Ensures :
      (cfg : RxThreadConfig) (n : Notifiers) (msg : IpcMsg) (w : World Slot Ta)
      → HoldsBytes msg.msg_buf msg.msg_len
      → P w
      → Ensures P (dispatch_message o cfg n msg w)
  unfolding dispatch_message
  dispatch_message-Ensures cfg n msg w holds h =
      dispatch_buffer-Ensures cfg n msg w msg.msg_buf msg.msg_len holds h
