-- ===== src/RxThread/Tallies.antt =====
-- The metrics over whole runs of the receive thread of aerial_bridge/src/rx_thread.cpp.
use ocudu_aerial_fapi_connec.Common.{
  ℕ, ◌+◌, ◌≡◌, refl, ◌&&◌, Bool-cases, inl, inr, List, [], ◌∷◌, Ensures, Ensures->>=, if◌then◌else◌,
  length, arith,
}
use ocudu_aerial_fapi_connec.Ocudu.{Ocudu}
use ocudu_aerial_fapi_connec.Rx.Tally.{
  IsTallied, notify_crc-IsTallied, notify_rx_data-IsTallied, notify_rach-IsTallied,
  notify_srs-IsTallied, notify_pusch-IsTallied, notify_pucch01-IsTallied, notify_pucch234-IsTallied,
  note_bounds-IsTallied, note_malformed-IsTallied, note_harq_dropped-IsTallied,
  notify_other-IsTallied,
}
use ocudu_aerial_fapi_connec.Rx.World.{World}
use ocudu_aerial_fapi_connec.RxThread.{RxRun, Tick, drain, run_loop}
use ocudu_aerial_fapi_connec.RxThread.Dispatch.{RxThreadConfig, Notifiers, IpcMsg, dispatch_message}
use ocudu_aerial_fapi_connec.RxThread.Dispatch.Total.{AllKept, HoldsBytes, dispatch_message-Ensures}

IsTallied-kept : {Slot Ta : Type 0} → AllKept {Slot = Slot} {Ta = Ta} IsTallied
IsTallied-kept = record {
  crc = notify_crc-IsTallied;
  rx_data = notify_rx_data-IsTallied;
  rach = notify_rach-IsTallied;
  srs = notify_srs-IsTallied;
  uci = record {
    pusch = notify_pusch-IsTallied;
    pucch01 = notify_pucch01-IsTallied;
    pucch234 = notify_pucch234-IsTallied;
    bounds = note_bounds-IsTallied;
    malformed = note_malformed-IsTallied;
    harq = note_harq_dropped-IsTallied;
  };
  slot = λ sp now w v. notify_other-IsTallied _ w refl v;
  param = λ c w v. notify_other-IsTallied _ w refl v;
  config = λ c w v. notify_other-IsTallied _ w refl v;
  stop = λ w v. notify_other-IsTallied _ w refl v;
  error = λ sp m c w v. notify_other-IsTallied _ w refl v;
  line = λ l w v. ground arith;
}

-- Every message of a queue is null or holds its announced bytes.
abbrev pub AllHold : List IpcMsg → Type 0
AllHold [] = Unit {0}
AllHold (msg ∷ rest) = HoldsBytes msg.msg_buf msg.msg_len × AllHold rest

abbrev pub TicksHold : List Tick → Type 0
TicksHold [] = Unit {0}
TicksHold (tick ∷ rest) = AllHold tick.queue × TicksHold rest

-- How many messages the loop takes before `running_` is found cleared.
unfoldable pub taken : List Tick → ℕ
taken [] = 0
taken (tick ∷ rest) =
    let more = length tick.queue + taken rest in
    if tick.running_before && tick.running_after then more else 0

module _ {Slot Ta : Type 0} (o : Ocudu Slot Ta) (cfg : RxThreadConfig) (notifiers : Notifiers) where
  -- A single message keeps the metrics in step with the notifications.
  pub dispatch_message-IsTallied :
      (msg : IpcMsg) (w : World Slot Ta)
      → HoldsBytes msg.msg_buf msg.msg_len
      → IsTallied w
      → Ensures IsTallied (dispatch_message o cfg notifiers msg w)
  dispatch_message-IsTallied msg w holds v =
      dispatch_message-Ensures o IsTallied IsTallied-kept cfg notifiers msg w holds v

  -- The state after a run that has given back `n` messages.
  abbrev pub After : ℕ → RxRun Slot Ta → Type 0
  After n r = IsTallied r.world × (r.released ≡ n)

  drain-After :
      (queue : List IpcMsg) (n : ℕ) (r : RxRun Slot Ta)
      → AllHold queue
      → After n r
      → Ensures (After (n + length queue)) (drain o cfg notifiers queue r)
  unfolding drain
  drain-After [] n r holds (v, e) = (v, omega arith)
  drain-After (msg ∷ rest) n r (holds, more) (v, e) =
      Ensures->>= IsTallied (After (n + length (msg ∷ rest))) _ _
        (dispatch_message-IsTallied msg r.world holds v)
        λ w v'.
          let shift : n + 1 + length rest ≡ n + length (msg ∷ rest) = omega arith in
          let next : RxRun Slot Ta = record { world = w; released = r.released + 1 } in
          rw shift at (drain-After rest (n + 1) next more (v', omega arith))

  pub run_loop-After_from :
      (ticks : List Tick) (n : ℕ) (r : RxRun Slot Ta)
      → TicksHold ticks
      → After n r
      → Ensures (After (n + taken ticks)) (run_loop o cfg notifiers ticks r)
  unfolding run_loop taken
  run_loop-After_from [] n r holds (v, e) = (v, omega arith)
  run_loop-After_from (tick ∷ rest) n r (holds, more) (v, e) =
      elim (Bool-cases (tick.running_before && tick.running_after)) [
        | inl on ↦ rw on (
            Ensures->>= (After (n + length tick.queue)) _ _ _
              (drain-After tick.queue n r holds (v, e))
              λ r' a.
                let regroup : n + length tick.queue + taken rest
                    ≡ n + (length tick.queue + taken rest) =
                  omega arith in
                rw regroup at (run_loop-After_from rest (n + length tick.queue) r' more a))
        | inr off ↦ rw off (v, omega arith)
      ]

  -- A run of the receive thread over messages that hold their announced bytes, from a state whose
  -- indication counters equal the numbers of notifications made, reads no byte outside the
  -- messages, gives back every message that it takes exactly once, and keeps each of those
  -- counters equal, modulo 2^64, to the number of notifications of its class.
  pub run_loop-After :
      (ticks : List Tick) (w : World Slot Ta)
      → TicksHold ticks
      → IsTallied w
      → Ensures
          (After (taken ticks))
          (run_loop o cfg notifiers ticks (record { world = w; released = 0 }))
  run_loop-After ticks w holds v =
      let none_yet : 0 + taken ticks ≡ taken ticks = omega arith in
      rw none_yet at
        (run_loop-After_from ticks 0 (record { world = w; released = 0 }) holds (v, refl))
