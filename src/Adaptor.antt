-- ===== src/Adaptor.antt =====
-- `aerial_fapi_adaptor` and `aerial_sector_adaptor` of aerial_bridge/src/aerial_fapi_adaptor.cpp: the
-- object that owns the transport, the receive thread and the sectors.
pub mod Calls
pub mod Reachable
use ocudu_aerial_fapi_connec.Common.{
  ℕ, ◌+◌, Bool, true, false, ◌||◌, ltb, if◌then◌else◌, List, [], ◌∷◌, ◌++◌, Option, none, some,
  ◌>>=◌,
}
use ocudu_aerial_fapi_connec.Gateway.P5.{
  P5, send_param_request, send_config_request, send_start_request, send_stop_request,
}
use ocudu_aerial_fapi_connec.Gateway.P7.{Allocation, P7, P7Request, send}
use ocudu_aerial_fapi_connec.Metrics.{LogCounters, reset_bridge_runtime_metrics}
use ocudu_aerial_fapi_connec.Ocudu.{Ocudu}
use ocudu_aerial_fapi_connec.Rx.Indication.{Indication}
use ocudu_aerial_fapi_connec.Rx.World.{World}
use ocudu_aerial_fapi_connec.RxThread
use ocudu_aerial_fapi_connec.RxThread.{
  RxThread, RxRun, Tick, new_rx_thread, after_round, run_loop, set_slot_indication_notifier,
  set_indications_notifier, set_error_notifier, set_p5_responses_notifier,
}
use ocudu_aerial_fapi_connec.RxThread.Dispatch.{RxThreadConfig, Notifiers, IpcMsg}
use ocudu_aerial_fapi_connec.Transport.{
  NvIpcAnswers, NvipcTransport, NvipcTransportConfig, new_transport, connect, disconnect, with_ipc,
  tx_sem_post,
}
use ocudu_aerial_fapi_connec.Tx.UlTti.{Globals}

pub data P5Request : Type 0 where
  param config start stop : P5Request

pub send_p5_request : P5Request → Allocation → P5 → P5
send_p5_request param buffer p5 = send_param_request buffer p5
send_p5_request config buffer p5 = send_config_request buffer p5
send_p5_request start buffer p5 = send_start_request buffer p5
send_p5_request stop buffer p5 = send_stop_request buffer p5

pub data NotifierKind : Type 0 where
  slot_notifier indications_notifier error_notifier p5_notifier : NotifierKind

-- Which object each of the receive thread's four notifier pointers points to.
pub record Owners : Type 0 where
  pub slot : Option ℕ
  pub ind : Option ℕ
  pub error : Option ℕ
  pub p5 : Option ℕ

-- The process: the adaptor's members, the globals, and the gateways' traffic. The metrics and the log
-- counters are those of `world`; `world.notified` holds the notifications since the last reset, and
-- `released` counts the received messages given back, and `orphans` the receive threads that
-- destroyed adaptors have left behind.
pub record Adaptor (Slot Ta : Type 0) : Type 0 where
  pub transport : NvipcTransport
  pub rx : RxThread
  pub owners : Owners
  pub sectors : ℕ
  pub world : World Slot Ta
  pub p5 : P5
  pub p7 : P7
  pub released : ℕ
  pub orphans : ℕ

-- What a call ends in: a state, an exception, or an access through a null or dangling pointer.
pub data Outcome (A : Type 0) : Type 0 where
  done : A → Outcome A
  thrown : Outcome A
  bad_pointer : Outcome A

abbrev pub or_null : {A : Type 0} → Option A → Outcome A
or_null none = bad_pointer
or_null (some a) = done a

module _ {Slot Ta : Type 0} where
  -- The constructor, from a process in which no adaptor lives: the members are new.
  unfoldable pub construct :
      NvIpcAnswers
      → NvipcTransportConfig
      → RxThreadConfig
      → ℕ
      → Adaptor Slot Ta
      → Outcome (Adaptor Slot Ta)
  construct answers nvipc_cfg rx_cfg num_cells a =
      let (connected, transport) = connect answers nvipc_cfg new_transport in
      if connected
      then done (record a {
        transport = transport;
        owners = record { slot = none; ind = none; error = none; p5 = none };
        sectors = num_cells;
        rx = RxThread.start rx_cfg new_rx_thread;
      })
      else thrown

  -- The destructor stops the receive thread before it disconnects. The members are gone behind it,
  -- so that a thread that was detached has lost them.
  pub destroy : Adaptor Slot Ta → Adaptor Slot Ta
  destroy a =
      let stopped = RxThread.stop a.rx in
      record a {
        rx = new_rx_thread;
        transport = disconnect a.transport;
        sectors = 0;
        orphans = if stopped.detached then a.orphans + 1 else a.orphans;
      }

  -- `get_sector_adaptor`, and a call on the sector that it gives.
  unfoldable pub in_sector :
      ℕ → Outcome (Adaptor Slot Ta) → Adaptor Slot Ta → Outcome (Adaptor Slot Ta)
  in_sector cell_id call a = if ltb cell_id a.sectors then call else thrown

  abbrev pub reset_metrics : World Slot Ta → World Slot Ta
  reset_metrics w = record w { metrics = reset_bridge_runtime_metrics w.metrics; notified = [] }

  -- `aerial_sector_adaptor::start`: the metrics are reset, and CONFIG and START are sent whatever
  -- became of the first of them.
  pub sector_start : Allocation → Allocation → Adaptor Slot Ta → Outcome (Adaptor Slot Ta)
  sector_start config_buffer start_buffer a = or_null (
      with_ipc a.transport (record a {
        world = reset_metrics a.world;
        p5 = send_start_request start_buffer (send_config_request config_buffer a.p5);
      }))

  unfoldable pub send_p5 : P5Request → Allocation → Adaptor Slot Ta → Outcome (Adaptor Slot Ta)
  send_p5 r buffer a =
      or_null (with_ipc a.transport (record a { p5 = send_p5_request r buffer a.p5 }))

  -- `aerial_sector_adaptor::stop` prints the metrics and sends nothing.
  abbrev pub sector_stop : Adaptor Slot Ta → Outcome (Adaptor Slot Ta)
  sector_stop a = done a

  -- The setters of the P5 and P7 sector adaptors, with the object registered.
  pub register : NotifierKind → ℕ → Adaptor Slot Ta → Adaptor Slot Ta
  register slot_notifier object a = record a {
    rx = set_slot_indication_notifier a.rx;
    owners = record (a.owners) { slot = some object };
  }
  register indications_notifier object a = record a {
    rx = set_indications_notifier a.rx;
    owners = record (a.owners) { ind = some object };
  }
  register error_notifier object a = record a {
    rx = set_error_notifier a.rx;
    owners = record (a.owners) { error = some object };
  }
  register p5_notifier object a = record a {
    rx = set_p5_responses_notifier a.rx;
    owners = record (a.owners) { p5 = some object };
  }

  abbrev pub globals : Adaptor Slot Ta → Globals
  globals a = record { metrics = a.world.metrics; counters = a.world.counters }

  -- The state after a call of the P7 gateway, whose serializers change the process's globals.
  abbrev pub after_p7 : Adaptor Slot Ta → P7 → Adaptor Slot Ta
  after_p7 a p7 = record a {
    p7 = p7;
    world = record (a.world) { metrics = p7.globals.metrics; counters = p7.globals.counters };
  }

  pub send_request : Bool → P7Request → Allocation → Adaptor Slot Ta → Outcome (Adaptor Slot Ta)
  send_request force_table0 request buffer a = or_null (do
    ready ← with_ipc a.transport (record (a.p7) { globals = globals a })
    p7 ← send force_table0 request buffer ready
    some (after_p7 a p7))

  -- `aerial_last_request_notifier::on_last_message`.
  pub on_last_message : Adaptor Slot Ta → Outcome (Adaptor Slot Ta)
  on_last_message a =
      or_null (do transport ← tx_sem_post a.transport; some (record a { transport = transport }))

  -- One round of the receive thread's loop, whether the thread is held or detached: it waits on the
  -- transport.
  pub wake_up : Ocudu Slot Ta → List IpcMsg → Adaptor Slot Ta → Outcome (Adaptor Slot Ta)
  wake_up o queue a =
      if a.rx.joinable || a.rx.detached
      then or_null (do
        ready ← with_ipc a.transport (record { world = a.world; released = a.released })
        r ←
            run_loop o a.rx.cfg a.rx.notifiers
              (record { running_before = a.rx.running; running_after = a.rx.running; queue = queue }
                ∷ [])
              ready
        some (record a { rx = after_round a.rx; world = r.world; released = r.released }))
      else done a

  -- A round of a thread that a destroyed adaptor has left behind: it reads the destroyed members.
  pub orphan_wakes : Adaptor Slot Ta → Outcome (Adaptor Slot Ta)
  orphan_wakes a = if ltb 0 a.orphans then bad_pointer else done a

-- What happens to a living adaptor: calls on the sectors, and the receive thread's rounds.
pub data Event : Type 0 where
  start_sector : ℕ → Allocation → Allocation → Event
  stop_sector : ℕ → Event
  set_notifier : ℕ → NotifierKind → ℕ → Event
  request : ℕ → P7Request → Allocation → Event
  p5_request : ℕ → P5Request → Allocation → Event
  last_message : ℕ → Event
  wake : List IpcMsg → Event

unfoldable pub step :
    {Slot Ta : Type 0} → Ocudu Slot Ta → Bool → Event → Adaptor Slot Ta → Outcome (Adaptor Slot Ta)
step o force_table0 (start_sector cell config_buffer start_buffer) a =
    in_sector cell (sector_start config_buffer start_buffer a) a
step o force_table0 (stop_sector cell) a = in_sector cell (sector_stop a) a
step o force_table0 (set_notifier cell kind object) a =
    in_sector cell (done (register kind object a)) a
step o force_table0 (request cell r buffer) a =
    in_sector cell (send_request force_table0 r buffer a) a
step o force_table0 (p5_request cell r buffer) a = in_sector cell (send_p5 r buffer a) a
step o force_table0 (last_message cell) a = in_sector cell (on_last_message a) a
step o force_table0 (wake queue) a = wake_up o queue a
