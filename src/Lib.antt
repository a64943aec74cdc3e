-- ===== src/Lib.antt =====
-- A model of the Aerial bridge, the plugin that connects the OCUDU L2 to the NVIDIA Aerial L1 over
-- nvIPC: the translation of OCUDU FAPI requests into SCF FAPI messages and of the messages of L1
-- into OCUDU notifications, and the thread that receives those messages.
--
-- The program's parts and the files that model them:
--
-- - aerial_bridge/src/msg_translator.cpp, requests to L1. Each serializer is a function from a
--   request to the bytes that it writes. Tx/Frame: the envelope and the PDU header; Tx/Bits: packed
--   bit sets; Tx/Pdcch, Tx/Pdsch (with Tx/Mcs), Tx/Pusch, Tx/Pucch, Tx/Srs (with PRACH): the PDUs;
--   Tx/DlTti, Tx/UlTti, Tx/UlDci, Tx/TxData: the four requests. A buffer that is written from its
--   start is the list of the bytes written; the data buffer of TX_DATA.request is a list that is
--   overwritten in place. The serializers do not bound what they write; their caller Gateway/P7 gives
--   `none` where it is longer than the buffer that it asked for. A size field is stored in the
--   width that the code gives it, with the wrap-around written out; so are the counters of the
--   headers.
-- - aerial_bridge/src/msg_translator.cpp, indications from L1. Rx/Slot, Rx/Crc, Rx/RxData, Rx/Rach,
--   Rx/Uci (with Rx/Uci/Section for the parts of a UCI PDU and Rx/Uci/Pdu for its three types) and
--   Rx/Srs: one dispatcher each, a function on the message's bytes and the state Rx/World, which
--   holds the metrics, the log counters and what the notifiers have been told. A read outside the
--   message's bytes gives `none`; a loop over a received count is recursion on that count, so every
--   dispatcher ends.
-- - The runtime metrics and the log limits of that file: Metrics. Rx/Tally counts notifications.
-- - aerial_bridge/src/rx_thread.cpp: RxThread (members, start, stop, which detaches the thread, the
--   two loops) and RxThread/Dispatch (`dispatch_message`, one function for each case that reads the
--   message). A run of the thread is a list of wake-ups, each with the values of
--   `running_` and the messages that the transport hands out; the model's state counts the messages
--   given back.
-- - aerial_bridge/src/aerial_fapi_adaptor.cpp, the gateways: Gateway/P5 (PARAM, CONFIG, START and
--   STOP requests), Gateway/Tlv (`add_tlv`) and Gateway/P7 (the requests of a slot). What nvIPC
--   answers to an allocation is an argument of each call; the state lists the messages sent and
--   counts the buffers taken.
-- - aerial_bridge/src/nvipc_transport.cpp: Transport, the life of the handle; every use of the handle
--   is `with_ipc`, for which a null handle is `none`.
-- - aerial_bridge/src/aerial_fapi_adaptor.cpp, the adaptor: Adaptor. Its record holds the members and
--   the process's globals, which the gateways' serializers and the dispatchers share. An event is a
--   call on a sector or a round of the receive thread, and `step` gives what becomes of the adaptor,
--   with exceptions and accesses through a null or dangling pointer as outcomes. The constructor
--   starts from new members; the destructor counts the thread that it leaves behind in `orphans`,
--   and `orphan_wakes` is what that thread does next. Events come one after the other:
--   the threads of the program do not interleave within a call.
-- - aerial_bridge/src/aerial_split6_plugin.cpp: Plugin.
-- - aerial_bridge/src/bridge_test.cpp: BridgeTest, with one function for each step of `main`.
-- - aerial_bridge/src/gdr_stub.cpp: GdrStub, over the operating system's mapping calls.
-- - ocudu_patches/slot_point_extender_adaptor.cpp: SlotExtender, over any slot arithmetic that
--   satisfies the laws that OCUDU's has.
-- - Wire: little-endian integers in byte lists, and Wire/Cursor, pieces of a message and reads in
--   them. Rx/Envelope and the RoundTrip modules: messages of L1 as encoders write them. Ocudu: the
--   OCUDU types and limits that the code uses, which are not part of the repository and therefore
--   parameters. ScfMsgId: message ids. Common: shared names, tests and list lemmas. Runs: the
--   theorems at concrete inputs.
--
-- What is not modelled: nvIPC itself, the text of log lines, the operating system calls of the
-- thread, the pauses, the formatting header fmt_compat.h, and the Python patches and scripts.
-- Atomic counters are plain numbers: among the threads only the receive thread counts indications,
-- and the reset when a sector starts is an event of its own. Floating-point code rates are whole tenths.
pub mod Adaptor
pub mod BridgeTest
pub mod Common
pub mod Gateway
pub mod GdrStub
pub mod Metrics
pub mod Ocudu
pub mod Plugin
pub mod Runs
pub mod Rx
pub mod RxThread
pub mod ScfMsgId
pub mod SlotExtender
pub mod Transport
pub mod Tx
pub mod Wire
