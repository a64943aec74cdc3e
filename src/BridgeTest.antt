-- ===== src/BridgeTest.antt =====
-- aerial_bridge/src/bridge_test.cpp: the program that configures and starts L1 and then answers every
-- slot with empty requests.
pub mod Handshake
pub mod Requests
pub mod Rounds
use ocudu_aerial_fapi_connec.Common.{
  ℕ, ◌+◌, ◌-◌, ◌%◌, ◌^◌, Bool, true, false, ◌&&◌, ltb, leb, ◌==◌, if◌then◌else◌, List, [], ◌∷◌,
  ◌++◌, Option, none, some, ◌>>=◌, ℤ, pos, negsuc, length, replicate,
}
use ocudu_aerial_fapi_connec.Gateway.P7.{Allocation, failed, granted, IpcOut}
use ocudu_aerial_fapi_connec.Gateway.Tlv.{Tlv, add_tlvs}
use ocudu_aerial_fapi_connec.RxThread.Dispatch.{IpcMsg}
use ocudu_aerial_fapi_connec.ScfMsgId
use ocudu_aerial_fapi_connec.Wire.{le8, le16, le32, load8, load16}

-- The variables of `main`, whose counters have 32 bits, and what was asked of the transport: buffers
-- taken, messages sent, posts of the semaphore, and received messages given back. `past_end` counts the
-- bytes written behind the end of a buffer.
pub record BridgeTest : Type 0 where
  pub slot_count : ℕ
  pub msg_count : ℕ
  pub error_count : ℕ
  pub current_sfn : ℕ
  pub current_slot : ℕ
  pub allocated : ℕ
  pub sent : List IpcOut
  pub posts : ℕ
  pub released : ℕ
  pub past_end : ℕ

pub transmit : ℕ → List ℕ → Allocation → BridgeTest → BridgeTest
transmit msg_id bytes failed st = st
transmit msg_id bytes (granted dat) st = record st {
  allocated = st.allocated + 1;
  sent = st.sent ++ (record { msg_id = msg_id; msg = bytes; data_buf = none; data_len = 0 } ∷ []);
}

-- `tx_sem_post` where a buffer was there to be sent.
pub post_if : Allocation → BridgeTest → BridgeTest
post_if failed st = st
post_if (granted dat) st = record st { posts = st.posts + 1 }

-- The bytes of a slot of `slot_cfg`: special, uplink or downlink by its number.
pub slot_symbols : ℕ → List ℕ
slot_symbols s =
    if s == 3
    then special
    else if s == 8
    then special
    else if s == 4
    then replicate 14 1
    else if s == 9
    then replicate 14 1
    else replicate 14 0
  where
    special : List ℕ
    special = replicate 10 0 ++ (2 ∷ 2 ∷ 1 ∷ 1 ∷ [])

pub slots_symbols : List ℕ → List ℕ
slots_symbols [] = []
slots_symbols (s ∷ ss) = slot_symbols s ++ slots_symbols ss

abbrev grid : List ℕ
grid = le16 0 ++ (le16 273 ++ (le16 0 ++ (le16 0 ++ le16 0)))

pub test_tlvs : List Tlv
test_tlvs =
    record { tag = 0x1001; value = le16 273 }
    ∷ record { tag = 0x1002; value = le32 3600000 }
    ∷ record { tag = 0x1005; value = le16 2 }
    ∷ record { tag = 0x1006; value = le16 273 }
    ∷ record { tag = 0x1007; value = le32 3600000 }
    ∷ record { tag = 0x100A; value = le16 2 }
    ∷ record { tag = 0x1004; value = grid }
    ∷ record { tag = 0x1009; value = grid }
    ∷ record { tag = 0x100C; value = le16 1 }
    ∷ record { tag = 0x100D; value = le8 1 }
    ∷ record { tag = 0x1010; value = le8 1 }
    ∷ record { tag = 0x100E; value = le32 0 }
    ∷ record { tag = 0x101D; value = le16 0 }
    ∷ record { tag = 0x101F; value = le8 2 }
    ∷ record { tag = 0x1020; value = le8 0 }
    ∷ record { tag = 0x1021; value = 0 ∷ 0 ∷ 0 ∷ [] }
    ∷ record { tag = 0x1022; value = le32 1 }
    ∷ record { tag = 0x1022; value = le32 0 }
    ∷ record { tag = 0x1011; value = le8 1 }
    ∷ record { tag = 0x1012; value = le8 1 }
    ∷ record { tag = 0x1013; value = le8 0 }
    ∷ record { tag = 0x1029; value = le8 159 }
    ∷ record { tag = 0x1014; value = le8 1 }
    ∷ record { tag = 0x1015; value = le16 1 }
    ∷ record { tag = 0x1016; value = le8 1 }
    ∷ record { tag = 0x1017; value = le16 0 }
    ∷ record { tag = 0x1018; value = le8 0 }
    ∷ record { tag = 0x101B; value = le8 0 }
    ∷ record { tag = 0x1026; value = le8 6 }
    ∷ record { tag = 0x1027; value = slots_symbols (0 ∷ 1 ∷ 2 ∷ 3 ∷ 4 ∷ 5 ∷ 6 ∷ 7 ∷ 8 ∷ 9 ∷ []) }
    ∷ []

pub test_config : List ℕ
test_config =
    let body = 30 ∷ add_tlvs test_tlvs in
    1 ∷ 0 ∷ (le16 ScfMsgId.config_request ++ (le32 (length body) ++ body))

pub test_start : List ℕ
test_start = 1 ∷ 0 ∷ (le16 ScfMsgId.start_request ++ le32 0)

-- `memset` of `size` bytes on a buffer for which `asked` bytes were asked.
pub clear_buffer : ℕ → ℕ → Allocation → BridgeTest → BridgeTest
clear_buffer size asked failed st = st
clear_buffer size asked (granted dat) st = record st { past_end = st.past_end + (size - asked) }

-- Steps 1 and 2: each message is followed by a post. In the first, 1024 bytes of a buffer of 512
-- are cleared.
pub configure : Allocation → BridgeTest → BridgeTest
configure buffer st =
    post_if buffer
      (transmit ScfMsgId.config_request test_config buffer (clear_buffer 1024 512 buffer st))

unfoldable pub start : Allocation → BridgeTest → BridgeTest
start buffer st = post_if buffer (transmit ScfMsgId.start_request test_start buffer st)

-- `msg_len >= n`.
abbrev pub at_least : ℕ → ℤ → Bool
at_least n (pos len) = leb n len
at_least n (negsuc len) = false

-- A byte at offset `p` of a message, where the message is said to have it; a read outside the
-- buffer is `none`.
abbrev pub peek : ℕ → IpcMsg → Option (Option ℕ)
peek p msg =
    if at_least (p + 1) msg.msg_len
    then (do buf ← msg.msg_buf; b ← load8 buf p; some (some b))
    else some none

-- The wait for CONFIG.response: its error code is read, and every message is given back.
abbrev pub await_config_response : List IpcMsg → BridgeTest → Option BridgeTest
await_config_response [] st = some st
await_config_response (msg ∷ rest) st = do
  error_code ← (if msg.msg_id == ScfMsgId.config_response then peek 8 msg else some none)
  await_config_response rest (record st { released = st.released + 1 })

-- `case SLOT_INDICATION`; a read outside the message is `none`.
pub slot_received : IpcMsg → BridgeTest → Option BridgeTest
slot_received msg st =
    let counted : BridgeTest = record st { slot_count = (st.slot_count + 1) % 2 ^ 32 } in
    if at_least 12 msg.msg_len
    then (do
      buf ← msg.msg_buf
      sfn ← load16 buf 8
      slot ← load16 buf 10
      some (record counted { current_sfn = sfn; current_slot = slot }))
    else some counted

pub received : IpcMsg → BridgeTest → Option BridgeTest
received msg st =
    let counted : BridgeTest = record st { msg_count = (st.msg_count + 1) % 2 ^ 32 } in
    if msg.msg_id == ScfMsgId.slot_indication
    then slot_received msg counted
    else if msg.msg_id == ScfMsgId.error_indication
    then some (record counted { error_count = (counted.error_count + 1) % 2 ^ 32 })
    else some counted

unfoldable pub drain : List IpcMsg → BridgeTest → Option BridgeTest
drain [] st = some st
drain (msg ∷ rest) st = do
  st' ← received msg st
  drain rest (record st' { released = st'.released + 1 })

-- The 14 bytes of `send_empty_request`, whatever the type.
pub empty_request : ℕ → ℕ → ℕ → List ℕ
empty_request type_id sfn slot =
    1 ∷ 0 ∷ (le16 type_id ++ (le32 6 ++ (le16 sfn ++ (le16 slot ++ (0 ∷ 0 ∷ [])))))

pub send_empty_request : ℕ → Allocation → BridgeTest → BridgeTest
send_empty_request type_id buffer st =
    transmit type_id (empty_request type_id st.current_sfn st.current_slot) buffer st

pub respond : Allocation → Allocation → BridgeTest → BridgeTest
respond dl_buffer ul_buffer st =
    if ltb 0 st.slot_count
    then (let dl = send_empty_request ScfMsgId.dl_tti_request dl_buffer st in
        let both = send_empty_request ScfMsgId.ul_tti_request ul_buffer dl in
        record both { posts = both.posts + 1 })
    else st

-- A wake-up: `g_running` behind the wait, the messages, and the transport's answers to the requests.
pub record Round : Type 0 where
  pub running_after : Bool
  pub queue : List IpcMsg
  pub dl_buffer : Allocation
  pub ul_buffer : Allocation

-- The main loop, over the wake-ups of a run, until `g_running` is found cleared.
pub main_loop : List Round → BridgeTest → Option BridgeTest
main_loop [] st = some st
main_loop (round ∷ rest) st =
    if round.running_after
    then (do
      st' ← drain round.queue st
      main_loop rest (respond round.dl_buffer round.ul_buffer st'))
    else some st

-- The whole program behind `connect`.
abbrev pub test_run :
    Allocation → Allocation → List IpcMsg → List Round → BridgeTest → Option BridgeTest
test_run config_buffer start_buffer responses rounds st = do
  st' ← await_config_response responses (configure config_buffer st)
  main_loop rounds (start start_buffer st')
