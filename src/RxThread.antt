-- ===== src/RxThread.antt =====
-- aerial_bridge/src/rx_thread.cpp and include/aerial_bridge/rx_thread.h: the thread that receives
-- messages from L1 and hands them to the dispatchers.
pub mod Dispatch
pub mod Tallies
use ocudu_aerial_fapi_connec.Common.{
  ℕ, ◌+◌, Bool, true, false, ◌&&◌, ◌||◌, not, ltb, leb, ◌==◌, if◌then◌else◌, List, [], ◌∷◌, Option,
  none, some, ◌>>=◌, pos, negsuc,
}
use ocudu_aerial_fapi_connec.Ocudu.{Ocudu}
use ocudu_aerial_fapi_connec.Rx.World.{World}
use Dispatch.{RxThreadConfig, Notifiers, IpcMsg, dispatch_message}

-- The members of `rx_thread`; the transport is that of `Transport`. `joinable` says whether `thread_`
-- holds a thread, and `detached` whether a thread that it held was let go and has not ended.
pub record RxThread : Type 0 where
  pub cfg : RxThreadConfig
  pub running : Bool
  pub joinable : Bool
  pub detached : Bool
  pub notifiers : Notifiers

-- The members before `start`: no notifier is set, and the configuration is the default one.
abbrev pub new_rx_thread : RxThread
new_rx_thread = record {
  cfg = record { cpu_core = negsuc 0; priority = pos 90; numerology = 1 };
  running = false;
  joinable = false;
  detached = false;
  notifiers = record { slot = false; ind = false; error = false; p5 = false };
}

abbrev pub set_slot_indication_notifier : RxThread → RxThread
set_slot_indication_notifier t = record t { notifiers = record (t.notifiers) { slot = true } }

abbrev pub set_indications_notifier : RxThread → RxThread
set_indications_notifier t = record t { notifiers = record (t.notifiers) { ind = true } }

abbrev pub set_error_notifier : RxThread → RxThread
set_error_notifier t = record t { notifiers = record (t.notifiers) { error = true } }

abbrev pub set_p5_responses_notifier : RxThread → RxThread
set_p5_responses_notifier t = record t { notifiers = record (t.notifiers) { p5 = true } }

unfoldable pub start : RxThreadConfig → RxThread → RxThread
start cfg t = if t.running then t else record t { cfg = cfg; running = true; joinable = true }

unfoldable pub stop : RxThread → RxThread
stop t =
    if t.running
    then record t { running = false; joinable = false; detached = t.joinable || t.detached }
    else t

-- The thread behind a round of the loop: it ends when it finds `running_` cleared.
unfoldable pub after_round : RxThread → RxThread
after_round t = if t.running then t else record t { detached = false }

-- The state of the loop: the world, and how many messages went back to the pool.
pub record RxRun (Slot Ta : Type 0) : Type 0 where
  pub world : World Slot Ta
  pub released : ℕ

-- One wake-up: `running_` before and after the wait on the semaphore, and the messages that
-- `rx_recv` hands out until it fails.
pub record Tick : Type 0 where
  pub running_before : Bool
  pub running_after : Bool
  pub queue : List IpcMsg

module _ {Slot Ta : Type 0} (o : Ocudu Slot Ta) (cfg : RxThreadConfig) (notifiers : Notifiers) where
  -- The inner loop.
  pub drain : List IpcMsg → RxRun Slot Ta → Option (RxRun Slot Ta)
  drain [] r = some r
  drain (msg ∷ rest) r = do
    w ← dispatch_message o cfg notifiers msg r.world
    drain rest (record { world = w; released = r.released + 1 })

  -- The outer loop, over the wake-ups of a run.
  pub run_loop : List Tick → RxRun Slot Ta → Option (RxRun Slot Ta)
  run_loop [] r = some r
  run_loop (tick ∷ rest) r =
      if tick.running_before && tick.running_after
      then (do r' ← drain tick.queue r; run_loop rest r')
      else some r
