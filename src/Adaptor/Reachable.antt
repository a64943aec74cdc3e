-- ===== src/Adaptor/Reachable.antt =====
-- The states that an adaptor of aerial_bridge/src/aerial_fapi_adaptor.cpp goes through between its
-- constructor and its destructor, calls and the receive thread's rounds in any order.
use ocudu_aerial_fapi_connec.Adaptor.{
  Adaptor, Outcome, done, thrown, bad_pointer, Event, start_sector, stop_sector, set_notifier,
  request, p5_request, last_message, wake, construct, orphan_wakes, step,
}
use ocudu_aerial_fapi_connec.Adaptor.Calls.{
  IsBalanced, IsLive, Returns, Admissible, Next, in_sector-Returns, sector_start-Returns,
  send_p5-Returns, register-Next, on_last_message-Returns, send_request-Returns, wake_up-Returns,
}
use ocudu_aerial_fapi_connec.Common.{
  ℕ, ◌+◌, ◌≡◌, refl, Bool, true, false, sym, subst, ◌∙◌, if-elim, arith,
}
use ocudu_aerial_fapi_connec.Ocudu.{Ocudu}
use ocudu_aerial_fapi_connec.Rx.Tally.{IsTallied}
use ocudu_aerial_fapi_connec.RxThread
use ocudu_aerial_fapi_connec.RxThread.Dispatch.{RxThreadConfig}
use ocudu_aerial_fapi_connec.Transport.{NvIpcAnswers, NvipcTransportConfig, new_transport, connect}
use ocudu_aerial_fapi_connec.Transport.Handles.{
  IsSound, new_transport-IsSound, connect-IsSound, connect-has_ipc,
}

-- A process in which no adaptor lives, and no thread of an earlier one.
pub record IsVacant {Slot Ta : Type 0} (a : Adaptor Slot Ta) : Type 0 where
  pub no_orphan : a.orphans ≡ 0
  pub tallied : IsTallied a.world
  pub balanced : IsBalanced a.p5 a.p7

module _ {Slot Ta : Type 0} where
  -- A constructed adaptor, with its sectors.
  abbrev pub Built : ℕ → Adaptor Slot Ta → Type 0
  Built cells a = IsLive a × (a.sectors ≡ cells)

  pub construct-Built :
      (answers : NvIpcAnswers) (nvipc_cfg : NvipcTransportConfig) (rx_cfg : RxThreadConfig)
      (cells : ℕ) (a : Adaptor Slot Ta)
      → IsVacant a
      → (connect answers nvipc_cfg new_transport).0 ≡ true
      → Returns (Built cells) (construct answers nvipc_cfg rx_cfg cells a)
  unfolding construct RxThread.start
  construct-Built answers nvipc_cfg rx_cfg cells a v c =
      if-elim (Returns (Built cells)) (connect answers nvipc_cfg new_transport).0 _ thrown
        (λ on. (
          record {
            has_handle = connect-has_ipc answers nvipc_cfg new_transport new_transport-IsSound on;
            handles = connect-IsSound answers nvipc_cfg new_transport new_transport-IsSound;
            thread_runs = refl;
            thread_joinable = refl;
            tallied = v.tallied;
            balanced = v.balanced;
          },
          refl,
        ))
        (λ off. absurd (ground (arith, c)))

  step-Next :
      (o : Ocudu Slot Ta) (f : Bool) (e : Event) (a : Adaptor Slot Ta)
      → Admissible f a.sectors e
      → IsLive a
      → Returns (Next a) (step o f e a)
  unfolding step
  step-Next o f (start_sector cell b c) a h v =
      in_sector-Returns (Next a) cell _ a h (sector_start-Returns b c a v)
  step-Next o f (stop_sector cell) a h v = in_sector-Returns (Next a) cell _ a h (v, refl)
  step-Next o f (set_notifier cell k i) a h v =
      in_sector-Returns (Next a) cell _ a h (register-Next k i a v)
  step-Next o f (request cell r b) a (h, s) v =
      in_sector-Returns (Next a) cell _ a h (send_request-Returns f r b a s v)
  step-Next o f (p5_request cell r b) a h v =
      in_sector-Returns (Next a) cell _ a h (send_p5-Returns r b a v)
  step-Next o f (last_message cell) a h v =
      in_sector-Returns (Next a) cell _ a h (on_last_message-Returns a v)
  step-Next o f (wake queue) a h v = wake_up-Returns o queue a h v

-- Where the constructor and any admissible events lead, one after the other.
pub data Reach {Slot Ta : Type 0} (o : Ocudu Slot Ta) (force_table0 : Bool) (cells : ℕ)
    (built : Outcome (Adaptor Slot Ta)) : Adaptor Slot Ta → Type 0 where
  at_first : (a : Adaptor Slot Ta) → built ≡ done a → Reach o force_table0 cells built a
  after :
      (e : Event) (a b : Adaptor Slot Ta)
      → Admissible force_table0 cells e
      → step o force_table0 e a ≡ done b
      → Reach o force_table0 cells built a
      → Reach o force_table0 cells built b

Returns-of_eq :
    {A : Type 0} (P : A → Type 0) (c : Outcome A) (a : A) → Returns P c → c ≡ done a → P a
Returns-of_eq P c a r e = subst (Returns P) e r

Returns-done :
    {A : Type 0} (P : A → Type 0) (c : Outcome A)
    → Returns P c
    → Returns (λ a. (c ≡ done a) × P a) c
Returns-done P (done a) r = (refl, r)
Returns-done P thrown r = r
Returns-done P bad_pointer r = r

Returns-map :
    {A : Type 0} (P Q : A → Type 0) (c : Outcome A)
    → ((a : A) → P a → Q a)
    → Returns P c
    → Returns Q c
Returns-map P Q (done a) f r = f a r
Returns-map P Q thrown f r = r
Returns-map P Q bad_pointer f r = r

-- What the destructor makes of `a`.
pub record LeavesThread {Slot Ta : Type 0} (a b : Adaptor Slot Ta) : Type 0 where
  pub no_handle : b.transport.has_ipc ≡ false
  pub handles : IsSound b.transport
  pub tallied : IsTallied b.world
  pub balanced : IsBalanced b.p5 b.p7
  pub thread_left : b.orphans ≡ a.orphans + 1
  pub dangling : orphan_wakes b ≡ bad_pointer
  pub not_vacant : ¬ (IsVacant b)

module _ {Slot Ta : Type 0} (o : Ocudu Slot Ta) (force_table0 : Bool) (answers : NvIpcAnswers)
    (nvipc_cfg : NvipcTransportConfig) (rx_cfg : RxThreadConfig) (cells : ℕ)
    (start : Adaptor Slot Ta) where
  -- A living adaptor, from its constructor on.
  abbrev pub Alive : Adaptor Slot Ta → Type 0
  Alive = Reach o force_table0 cells (construct answers nvipc_cfg rx_cfg cells start)

  Alive-Built :
      (a : Adaptor Slot Ta)
      → IsVacant start
      → (connect answers nvipc_cfg new_transport).0 ≡ true
      → Alive a
      → Built cells a
  Alive-Built a v c (at_first _ e) =
      Returns-of_eq (Built cells) _ a (construct-Built answers nvipc_cfg rx_cfg cells start v c) e
  Alive-Built b v c (after e a _ h s r) =
      let (live, n) = Alive-Built a v c r in
      let (live', n') =
        Returns-of_eq (Next a) _ b
          (step-Next o force_table0 e a (subst (λ (k : ℕ). Admissible force_table0 k e) (sym n) h)
            live)
          s in
      (live', n' ∙ n)

  -- An adaptor that was built where none lived and no thread of an earlier one was left, and whose
  -- transport connected, stays usable: after any calls on sectors that exist, with messages that fit
  -- the 15000 bytes of their buffers and PDSCH PDUs that have a codeword, and any rounds of the
  -- receive thread on messages that hold their bytes, each further one returns. None throws, none
  -- reads outside a received message, writes past a message buffer or uses a null pointer, and each
  -- leaves one live handle, a running thread, counters that agree with the notifications since the
  -- last reset, and no buffer unsent.
  pub Alive-step :
      (a : Adaptor Slot Ta) (e : Event)
      → IsVacant start
      → (connect answers nvipc_cfg new_transport).0 ≡ true
      → Alive a
      → Admissible force_table0 cells e
      → Returns (λ b. Alive b × IsLive b) (step o force_table0 e a)
  Alive-step a e v c r h =
      let (live, n) = Alive-Built a v c r in
      let next =
        step-Next o force_table0 e a (subst (λ (k : ℕ). Admissible force_table0 k e) (sym n) h)
          live in
      Returns-map (λ b. (step o force_table0 e a ≡ done b) × Next a b) (λ b. Alive b × IsLive b)
        (step o force_table0 e a) (λ b m. (after e a b h m.0 r, m.1.0))
        (Returns-done (Next a) _ next)
