-- ===== src/BridgeTest/Rounds.antt =====
-- Runs of the main loop of aerial_bridge/src/bridge_test.cpp.
use ocudu_aerial_fapi_connec.BridgeTest.{
  BridgeTest, Round, transmit, at_least, slot_received, received, drain, send_empty_request,
  respond, main_loop,
}
use ocudu_aerial_fapi_connec.Common.{
  ℕ, ◌+◌, ◌%◌, ◌^◌, ◌<◌, ◌≤◌, ◌≡◌, refl, ap, Bool, true, false, ltb, ltb→ge, Bool-cases, inl, inr,
  ◌==◌, if◌then◌else◌, if-elim, List, [], ◌∷◌, Option, none, some, Ensures, Ensures->>=,
  Ensures-map, length, length-append, arith,
}
use ocudu_aerial_fapi_connec.Gateway.P7.{Allocation, failed, granted}
use ocudu_aerial_fapi_connec.RxThread.Dispatch.{IpcMsg}
use ocudu_aerial_fapi_connec.ScfMsgId
use ocudu_aerial_fapi_connec.Wire.{load16_inside}

-- A message that claims 12 bytes has them.
abbrev pub Readable : Bool → Option (List ℕ) → Type 0
Readable false buf = Unit {0}
Readable true none = ⊥
Readable true (some bytes) = 12 ≤ length bytes

abbrev pub AllReadable : List IpcMsg → Type 0
AllReadable [] = Unit {0}
AllReadable (msg ∷ rest) = Readable (at_least 12 msg.msg_len) msg.msg_buf × AllReadable rest

abbrev pub RoundsReadable : List Round → Type 0
RoundsReadable [] = Unit {0}
RoundsReadable (round ∷ rest) = AllReadable round.queue × RoundsReadable rest

-- How many messages a run takes, and how many rounds it runs.
unfoldable pub taken : List Round → ℕ
taken [] = 0
taken (round ∷ rest) =
    let more = length round.queue + taken rest in if round.running_after then more else 0

unfoldable pub rounds_run : List Round → ℕ
rounds_run [] = 0
rounds_run (round ∷ rest) =
    let more = 1 + rounds_run rest in if round.running_after then more else 0

-- `n` messages and `k` posts later.
pub record Served (n k : ℕ) (st st' : BridgeTest) : Type 0 where
  pub released_is : st'.released ≡ st.released + n
  pub counted : st'.msg_count % 2 ^ 32 ≡ (st.msg_count + n) % 2 ^ 32
  pub posts_is : st'.posts ≡ st.posts + k
  pub slots_from : st.slot_count ≤ st'.slot_count
  pub slots_to : st'.slot_count ≤ st.slot_count + n
  pub all_sent : st'.allocated + length st.sent ≡ st.allocated + length st'.sent

Served-refl : (st : BridgeTest) → Served 0 0 st st
Served-refl st = record {
  released_is = omega arith;
  counted = omega arith;
  posts_is = omega arith;
  slots_from = omega arith;
  slots_to = omega arith;
  all_sent = refl;
}

Served-trans :
    (m n k l p q : ℕ) (a b c : BridgeTest)
    → m + n ≡ p
    → k + l ≡ q
    → Served m k a b
    → Served n l b c
    → Served p q a c
Served-trans m n k l p q a b c ep eq f g = record {
  released_is = omega (arith, f.released_is, g.released_is);
  counted = omega (arith, f.counted, g.counted);
  posts_is = omega (arith, f.posts_is, g.posts_is);
  slots_from = omega (arith, f.slots_from, g.slots_from);
  slots_to = omega (arith, f.slots_to, g.slots_to);
  all_sent = omega (arith, f.all_sent, g.all_sent);
}

-- What one message changes before it is given back.
record Got (st st' : BridgeTest) : Type 0 where
  same_released : st'.released ≡ st.released
  counted : st'.msg_count ≡ (st.msg_count + 1) % 2 ^ 32
  same_posts : st'.posts ≡ st.posts
  slots_from : st.slot_count ≤ st'.slot_count
  slots_to : st'.slot_count ≤ st.slot_count + 1
  same_allocated : st'.allocated ≡ st.allocated
  same_sent : st'.sent ≡ st.sent

Readable-bytes :
    (b : Bool) (buf : Option (List ℕ))
    → b ≡ true
    → Readable b buf
    → (bytes : List ℕ) × (buf ≡ some bytes) × (12 ≤ length bytes)
Readable-bytes false buf e r = absurd (ground arith)
Readable-bytes true none e r = absurd r
Readable-bytes true (some bytes) e r = (bytes, refl, r)

slot_received-Got :
    (msg : IpcMsg) (st : BridgeTest)
    → st.slot_count + 1 < 2 ^ 32
    → Readable (at_least 12 msg.msg_len) msg.msg_buf
    → Ensures (Got st) (slot_received msg (record st { msg_count = (st.msg_count + 1) % 2 ^ 32 }))
unfolding slot_received
slot_received-Got msg st h r =
    if-elim (Ensures (Got st)) (at_least 12 msg.msg_len) _ _
      (λ long.
        let (bytes, e, fits) = Readable-bytes (at_least 12 msg.msg_len) msg.msg_buf long r in
        let (sfn, es) = load16_inside bytes 8 (omega arith) in
        let (slot, el) = load16_inside bytes 10 (omega arith) in rw (e, es, el) (ground arith))
      (λ short. ground arith)

received-Got :
    (msg : IpcMsg) (st : BridgeTest)
    → st.slot_count + 1 < 2 ^ 32
    → Readable (at_least 12 msg.msg_len) msg.msg_buf
    → Ensures (Got st) (received msg st)
unfolding received
received-Got msg st h r =
    if-elim (Ensures (Got st)) (msg.msg_id == ScfMsgId.slot_indication)
      (slot_received msg (record st { msg_count = (st.msg_count + 1) % 2 ^ 32 })) _
      (λ slot. slot_received-Got msg st h r) (λ no_slot. ground arith)

Got-Served :
    (st st' : BridgeTest) → Got st st' → Served 1 0 st (record st' { released = st'.released + 1 })
Got-Served st st' g = record {
  released_is = omega (arith, g.same_released);
  counted = omega (arith, g.counted);
  posts_is = omega (arith, g.same_posts);
  slots_from = g.slots_from;
  slots_to = g.slots_to;
  all_sent = omega (arith, g.same_allocated, ap length g.same_sent);
}

drain-Served :
    (queue : List IpcMsg) (st : BridgeTest)
    → st.slot_count + length queue < 2 ^ 32
    → AllReadable queue
    → Ensures (Served (length queue) 0 st) (drain queue st)
unfolding drain
drain-Served [] st h r = Served-refl st
drain-Served (msg ∷ rest) st h (r, rs) =
    Ensures->>= (Got st) (Served (length (msg ∷ rest)) 0 st) (received msg st) _
      (received-Got msg st (omega arith) r)
      (λ st' g.
        let given : BridgeTest = record st' { released = st'.released + 1 } in
        let one : Served 1 0 st given = Got-Served st st' g in
        Ensures-map (Served (length rest) 0 given) (Served (length (msg ∷ rest)) 0 st)
          (drain rest given)
          (λ last s.
            Served-trans 1 (length rest) 0 0 (length (msg ∷ rest)) 0 st given last (omega arith)
              refl one s)
          (drain-Served rest given (omega (arith, g.slots_to)) rs))

transmit-Served :
    (id : ℕ) (bytes : List ℕ) (b : Allocation) (st : BridgeTest)
    → Served 0 0 st (transmit id bytes b st)
unfolding transmit
transmit-Served id bytes failed st = Served-refl st
transmit-Served id bytes (granted dat) st = record {
  released_is = omega arith;
  counted = omega arith;
  posts_is = omega arith;
  slots_from = omega arith;
  slots_to = omega arith;
  all_sent = omega (arith, length-append st.sent);
}

respond-Served :
    (b c : Allocation) (st : BridgeTest) → 0 < st.slot_count → Served 0 1 st (respond b c st)
unfolding respond send_empty_request
respond-Served b c st h =
    if-elim (Served 0 1 st) (ltb 0 st.slot_count) _ _
      (λ some_slot.
        let both =
          Served-trans 0 0 0 0 0 0 st _ _ refl refl (transmit-Served _ _ b st)
            (transmit-Served _ _ c _) in
        record {
          released_is = both.released_is;
          counted = both.counted;
          posts_is = omega (arith, both.posts_is);
          slots_from = both.slots_from;
          slots_to = both.slots_to;
          all_sent = both.all_sent;
        })
      (λ no_slot. absurd (omega (arith, ltb→ge 0 st.slot_count no_slot)))

-- Once a slot indication has been counted, and as long as the 32-bit counter of slot indications
-- does not wrap, a run over messages that hold the 12 bytes that they claim reads nothing outside
-- them, gives back each message that it takes and counts it modulo 2^32, sends one message for each
-- buffer that it takes, and posts the semaphore once in every round, whatever allocations fail.
pub main_loop-Served :
    (rounds : List Round) (st : BridgeTest)
    → 0 < st.slot_count
    → st.slot_count + taken rounds < 2 ^ 32
    → RoundsReadable rounds
    → Ensures (Served (taken rounds) (rounds_run rounds) st) (main_loop rounds st)
unfolding main_loop taken rounds_run
main_loop-Served [] st p h r = Served-refl st
main_loop-Served (round ∷ rest) st p h (r, rs) = elim (Bool-cases round.running_after) [
  | inl on ↦ rw on (
      Ensures->>= (Served (length round.queue) 0 st)
        (Served (length round.queue + taken rest) (1 + rounds_run rest) st) (drain round.queue st) _
        (drain-Served round.queue st (omega (arith, rw on at h)) r)
        (λ st' s.
          let next = respond round.dl_buffer round.ul_buffer st' in
          let one =
            Served-trans (length round.queue) 0 0 1 (length round.queue) 1 st st' next (omega arith)
              refl s
              (respond-Served round.dl_buffer round.ul_buffer st' (omega (arith, s.slots_from))) in
          Ensures-map (Served (taken rest) (rounds_run rest) next)
            (Served (length round.queue + taken rest) (1 + rounds_run rest) st)
            (main_loop rest next)
            (λ last t.
              Served-trans (length round.queue) (taken rest) 1 (rounds_run rest) _ _ st next last
                refl refl one t)
            (main_loop-Served rest next (omega (arith, one.slots_from))
              (omega (arith, one.slots_to, rw on at h)) rs)))
  | inr off ↦ rw off (Served-refl st)
]
