-- ===== src/RxThread/Dispatch.antt =====
-- `rx_thread::dispatch_message` of aerial_bridge/src/rx_thread.cpp.
pub mod Total
use ocudu_aerial_fapi_connec.Common.{
  ℕ, ◌+◌, ◌-◌, ◌^◌, Bool, true, false, ◌&&◌, ◌||◌, ltb, leb, ◌==◌, if◌then◌else◌, List, Option,
  none, some, ◌>>=◌, length, take, ℤ, pos, negsuc,
}
use ocudu_aerial_fapi_connec.Ocudu.{Ocudu}
use ocudu_aerial_fapi_connec.Rx.Crc.{dispatch_crc_indication}
use ocudu_aerial_fapi_connec.Rx.Indication.{
  on_slot_indication, on_param_response, on_config_response, on_stop_indication,
  on_error_indication,
}
use ocudu_aerial_fapi_connec.Rx.Rach.{dispatch_rach_indication}
use ocudu_aerial_fapi_connec.Rx.RxData.{DataBuf, dispatch_rx_data_indication}
use ocudu_aerial_fapi_connec.Rx.Slot.{deserialize_slot_indication}
use ocudu_aerial_fapi_connec.Rx.Srs.{dispatch_srs_indication}
use ocudu_aerial_fapi_connec.Rx.Uci.{dispatch_uci_indication}
use ocudu_aerial_fapi_connec.Rx.World.{
  World, notify, write_line, config_response_line, invalid_tlvs_line, unknown_message,
}
use ocudu_aerial_fapi_connec.ScfMsgId
use ocudu_aerial_fapi_connec.Wire.{load8, load16}

pub record RxThreadConfig : Type 0 where
  pub cpu_core : ℤ
  pub priority : ℤ
  pub numerology : ℕ

-- Which of the four notifier pointers are set.
pub record Notifiers : Type 0 where
  pub slot : Bool
  pub ind : Bool
  pub error : Bool
  pub p5 : Bool

-- What `rx_recv` fills in. `msg_buf` is the allocation behind the pointer, and `none` for a null
-- pointer; `now` is the system clock when the message is dispatched. A negative id, which L1 does
-- not send, would take the `default` branch.
pub record IpcMsg : Type 0 where
  pub msg_id : ℕ
  pub msg_buf : Option (List ℕ)
  pub msg_len : ℤ
  pub data_present : Bool
  pub data_len : ℤ
  pub now : ℕ

-- The cases of the `switch` on the message id.
pub data MsgKind : Type 0 where
  slot_kind crc_kind rx_data_kind uci_kind rach_kind srs_kind : MsgKind
  param_response_kind config_response_kind stop_kind error_kind unknown_kind : MsgKind

abbrev pub msg_kind : ℕ → MsgKind
msg_kind id =
    if id == ScfMsgId.slot_indication
    then slot_kind
    else if id == ScfMsgId.crc_indication
    then crc_kind
    else if id == ScfMsgId.rx_data_indication
    then rx_data_kind
    else if id == ScfMsgId.uci_indication
    then uci_kind
    else if id == ScfMsgId.rach_indication
    then rach_kind
    else if id == ScfMsgId.srs_indication
    then srs_kind
    else if id == ScfMsgId.param_response
    then param_response_kind
    else if id == ScfMsgId.config_response
    then config_response_kind
    else if id == ScfMsgId.stop_indication
    then stop_kind
    else if id == ScfMsgId.error_indication
    then error_kind
    else unknown_kind

-- An `int32_t` as a `size_t`.
abbrev pub to_size : ℤ → ℕ
to_size (pos n) = n
to_size (negsuc n) = 2 ^ 64 - 1 - n

-- The first `n` bytes of an allocation, which faults if that is smaller.
pub view : List ℕ → ℕ → Option (List ℕ)
view buf n = if leb n (length buf) then some (take n buf) else none

module _ {Slot Ta : Type 0} where
  -- `case SLOT_INDICATION`: at most 16 bytes are copied before they are parsed.
  pub slot_case : Ocudu Slot Ta → ℕ → List ℕ → ℕ → World Slot Ta → Option (World Slot Ta)
  slot_case o numerology buf now w = if ltb (length buf) 12 then some w else do
    parsed ← deserialize_slot_indication o (take 16 buf) numerology now
    elim parsed [
      | none ↦ some w
      | some ind ↦ some (notify (on_slot_indication ind.slot ind.time_point) w)
    ]

  pub param_response_case : Bool → List ℕ → World Slot Ta → Option (World Slot Ta)
  param_response_case p5 buf w =
      if p5 && leb 9 (length buf)
      then (do error_code ← load8 buf 8; some (notify (on_param_response error_code) w))
      else some w

  -- The second log line of a refused configuration.
  pub log_invalid_tlvs : List ℕ → ℕ → World Slot Ta → Option (World Slot Ta)
  log_invalid_tlvs buf error_code w =
      if ltb 0 error_code && leb 10 (length buf)
      then (do num_invalid ← load8 buf 9; some (write_line (invalid_tlvs_line num_invalid) w))
      else some w

  pub config_response_case : Bool → List ℕ → World Slot Ta → Option (World Slot Ta)
  config_response_case p5 buf w =
      if leb 9 (length buf)
      then (do
        error_code ← load8 buf 8
        logged ← log_invalid_tlvs buf error_code (write_line (config_response_line error_code) w)
        some (if p5 then notify (on_config_response error_code) logged else logged))
      else some w

  pub error_case : Ocudu Slot Ta → ℕ → List ℕ → World Slot Ta → Option (World Slot Ta)
  error_case o numerology buf w =
      if leb 14 (length buf)
      then (do
        sfn ← load16 buf 8
        slot ← load16 buf 10
        message_id ← load8 buf 12
        error_code ← load8 buf 13
        some (
            notify (on_error_indication (o.slot_point numerology sfn slot) message_id error_code)
              w))
      else some w

  -- One case of the `switch`. `buf` is the message's `msg_len` bytes.
  pub dispatch_kind :
      Ocudu Slot Ta
      → RxThreadConfig
      → Notifiers
      → IpcMsg
      → List ℕ
      → World Slot Ta
      → MsgKind
      → Option (World Slot Ta)
  dispatch_kind o cfg n msg buf w slot_kind =
      if n.slot then slot_case o cfg.numerology buf msg.now w else some w
  dispatch_kind o cfg n msg buf w crc_kind =
      if n.ind then dispatch_crc_indication o buf cfg.numerology w else some w
  dispatch_kind o cfg n msg buf w rx_data_kind =
      if n.ind
      then dispatch_rx_data_indication o buf
          (record { present = msg.data_present; data_len = to_size msg.data_len }) cfg.numerology w
      else some w
  dispatch_kind o cfg n msg buf w uci_kind =
      if n.ind then dispatch_uci_indication o buf cfg.numerology w else some w
  dispatch_kind o cfg n msg buf w rach_kind =
      if n.ind then dispatch_rach_indication o buf cfg.numerology w else some w
  dispatch_kind o cfg n msg buf w srs_kind =
      if n.ind then dispatch_srs_indication o buf cfg.numerology w else some w
  dispatch_kind o cfg n msg buf w param_response_kind = param_response_case n.p5 buf w
  dispatch_kind o cfg n msg buf w config_response_kind = config_response_case n.p5 buf w
  dispatch_kind o cfg n msg buf w stop_kind = some (if n.p5 then notify on_stop_indication w else w)
  dispatch_kind o cfg n msg buf w error_kind =
      if n.error then error_case o cfg.numerology buf w else some w
  dispatch_kind o cfg n msg buf w unknown_kind = some (write_line (unknown_message msg.msg_id) w)

  -- Null buffers and lengths outside 1 to 1000000 are passed over.
  pub dispatch_buffer :
      Ocudu Slot Ta
      → RxThreadConfig
      → Notifiers
      → IpcMsg
      → World Slot Ta
      → Option (List ℕ)
      → ℤ
      → Option (World Slot Ta)
  dispatch_buffer o cfg n msg w none len = some w
  dispatch_buffer o cfg n msg w (some allocated) (negsuc k) = some w
  dispatch_buffer o cfg n msg w (some allocated) (pos len) =
      if len == 0 || ltb 1000000 len
      then some w
      else do buf ← view allocated len; dispatch_kind o cfg n msg buf w (msg_kind msg.msg_id)

  pub dispatch_message :
      Ocudu Slot Ta → RxThreadConfig → Notifiers → IpcMsg → World Slot Ta → Option (World Slot Ta)
  unfolding dispatch_buffer
  dispatch_message o cfg n msg w = dispatch_buffer o cfg n msg w msg.msg_buf msg.msg_len
