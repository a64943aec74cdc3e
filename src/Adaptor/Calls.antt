-- ===== src/Adaptor/Calls.antt =====
-- The single calls on an adaptor of aerial_bridge/src/aerial_fapi_adaptor.cpp, and the rounds of its
-- receive thread.
use ocudu_aerial_fapi_connec.Adaptor.{
  Adaptor, Outcome, done, thrown, bad_pointer, or_null, P5Request, param, config, start, stop,
  send_p5_request, NotifierKind, slot_notifier, indications_notifier, error_notifier, p5_notifier,
  Event, start_sector, stop_sector, set_notifier, request, p5_request, last_message, wake,
  in_sector, sector_start, send_p5, register, globals, send_request, on_last_message, wake_up,
  reset_metrics,
}
use ocudu_aerial_fapi_connec.Common.{
  ℕ, ◌<◌, ◌≡◌, refl, ap, sym, ◌∙◌, Bool, true, ◌||◌, ltb, ltb→ge, if-elim, List, [], ◌∷◌, Option,
  none, some, Ensures, Ensures->>=, Ensures-map, Ensures-×, length, length-append, arith,
}
use ocudu_aerial_fapi_connec.Gateway.P5.{P5}
use ocudu_aerial_fapi_connec.Gateway.P5.Balance.{
  AllSent, send_param_request-AllSent, send_config_request-AllSent, send_start_request-AllSent,
  send_stop_request-AllSent,
}
use ocudu_aerial_fapi_connec.Gateway.P7.{Allocation, P7, P7Request, send}
use ocudu_aerial_fapi_connec.Gateway.P7.Delivery.{
  Sendable, Sends, sent_ids, granted_ids, send-Sends,
}
use ocudu_aerial_fapi_connec.Gateway.P7.Counters.{KeepsRx, send-KeepsRx}
use ocudu_aerial_fapi_connec.Metrics.{Metrics, LogCounters}
use ocudu_aerial_fapi_connec.Metrics.Received.{SameRx, SameRx-refl, SameRx-trans}
use ocudu_aerial_fapi_connec.Ocudu.{Ocudu}
use ocudu_aerial_fapi_connec.Rx.Tally.{IsTallied, tally}
use ocudu_aerial_fapi_connec.Rx.World.{World}
use ocudu_aerial_fapi_connec.RxThread.{RxRun, after_round, run_loop}
use ocudu_aerial_fapi_connec.RxThread.Dispatch.{IpcMsg}
use ocudu_aerial_fapi_connec.RxThread.Tallies.{AllHold, After, run_loop-After_from}
use ocudu_aerial_fapi_connec.Transport.{NvipcTransport, tx_sem_post}
use ocudu_aerial_fapi_connec.Transport.Handles.{IsSound, with_ipc-Ensures}

-- Every buffer that the gateways took from the pool was sent.
pub record IsBalanced (p5 : P5) (p7 : P7) : Type 0 where
  pub p7_released : p7.released ≡ []
  pub p7_sent : p7.allocated ≡ length (sent_ids p7)
  pub p5_sent : p5.allocated ≡ length p5.sent

-- A transport with the one handle that nvIPC gave out, a thread that runs, metrics that agree with
-- the notifications since the last reset, and gateways without a lost buffer.
pub record Life {Slot Ta : Type 0} (t : NvipcTransport) (running joinable : Bool)
    (w : World Slot Ta) (p5 : P5) (p7 : P7) : Type 0 where
  pub has_handle : t.has_ipc ≡ true
  pub handles : IsSound t
  pub thread_runs : running ≡ true
  pub thread_joinable : joinable ≡ true
  pub tallied : IsTallied w
  pub balanced : IsBalanced p5 p7

-- What holds of an adaptor between two events.
abbrev pub IsLive : {Slot Ta : Type 0} → Adaptor Slot Ta → Type 0
IsLive a = Life a.transport a.rx.running a.rx.joinable a.world a.p5 a.p7

-- The call returns, in a state with the property.
abbrev pub Returns : {A : Type 0} → (A → Type 0) → Outcome A → Type 0
Returns P (done a) = P a
Returns P thrown = ⊥
Returns P bad_pointer = ⊥

-- The sectors that exist are named, the messages of requests fit their buffers, PDSCH PDUs have a
-- codeword, and received messages hold their bytes.
abbrev pub Admissible : Bool → ℕ → Event → Type 0
Admissible force_table0 sectors (start_sector cell config_buffer start_buffer) = cell < sectors
Admissible force_table0 sectors (stop_sector cell) = cell < sectors
Admissible force_table0 sectors (set_notifier cell kind object) = cell < sectors
Admissible force_table0 sectors (request cell r buffer) =
    (cell < sectors) × Sendable force_table0 (r, buffer)
Admissible force_table0 sectors (p5_request cell r buffer) = cell < sectors
Admissible force_table0 sectors (last_message cell) = cell < sectors
Admissible force_table0 sectors (wake queue) = AllHold queue

send_p5_request-AllSent :
    (r : P5Request) (b : Allocation) (p : P5) → AllSent p → AllSent (send_p5_request r b p)
unfolding send_p5_request
send_p5_request-AllSent param b p h = send_param_request-AllSent b p h
send_p5_request-AllSent config b p h = send_config_request-AllSent b p h
send_p5_request-AllSent start b p h = send_start_request-AllSent b p h
send_p5_request-AllSent stop b p h = send_stop_request-AllSent b p h

module _ {Slot Ta : Type 0} where
  -- What an event leaves: a live adaptor with the same sectors.
  abbrev pub Next : Adaptor Slot Ta → Adaptor Slot Ta → Type 0
  Next a b = IsLive b × (b.sectors ≡ a.sectors)

  pub in_sector-Returns :
      (P : Adaptor Slot Ta → Type 0) (cell : ℕ) (c : Outcome (Adaptor Slot Ta))
      (a : Adaptor Slot Ta)
      → cell < a.sectors
      → Returns P c
      → Returns P (in_sector cell c a)
  unfolding in_sector
  in_sector-Returns P cell c a h r =
      if-elim (Returns P) (ltb cell a.sectors) c thrown (λ e. r)
        (λ e. absurd (omega (arith, ltb→ge cell a.sectors e)))

  or_null-Returns :
      (P : Adaptor Slot Ta → Type 0) (m : Option (Adaptor Slot Ta))
      → Ensures P m
      → Returns P (or_null m)
  or_null-Returns P none h = h
  or_null-Returns P (some a) h = h

  reset_metrics-IsTallied : (w : World Slot Ta) → IsTallied (reset_metrics w)
  unfolding tally
  reset_metrics-IsTallied w = ground arith

  -- The tallies do not see the other counters.
  IsTallied-SameRx :
      (w : World Slot Ta) (m : Metrics) (c : LogCounters)
      → SameRx w.metrics m
      → IsTallied w
      → IsTallied (record w { metrics = m; counters = c })
  IsTallied-SameRx w m c s v = record {
    crc_ok = v.crc_ok ∙ sym s.crc_ok;
    crc_fail = v.crc_fail ∙ sym s.crc_fail;
    crc_total = v.crc_total ∙ sym s.crc_total;
    rx_data = v.rx_data ∙ sym s.rx_data_pdus;
    rach = v.rach ∙ sym s.rach_total;
    srs = v.srs ∙ sym s.srs_total;
    uci_pusch = v.uci_pusch ∙ sym s.uci_pusch;
    uci_pucch01 = v.uci_pucch01 ∙ sym s.uci_pucch01;
    uci_pucch234 = v.uci_pucch234 ∙ sym s.uci_pucch234;
    uci_total = v.uci_total ∙ sym s.uci_total;
  }

  pub sector_start-Returns :
      (b c : Allocation) (a : Adaptor Slot Ta) → IsLive a → Returns (Next a) (sector_start b c a)
  unfolding sector_start
  sector_start-Returns b c a v = or_null-Returns (Next a) _ (
      with_ipc-Ensures (Next a) a.transport _ v.has_handle (
        record {
          has_handle = v.has_handle;
          handles = v.handles;
          thread_runs = v.thread_runs;
          thread_joinable = v.thread_joinable;
          tallied = reset_metrics-IsTallied a.world;
          balanced = record {
            p7_released = v.balanced.p7_released;
            p7_sent = v.balanced.p7_sent;
            p5_sent =
                send_start_request-AllSent c _
                  (send_config_request-AllSent b a.p5 v.balanced.p5_sent);
          };
        },
        refl,
      ))

  pub send_p5-Returns :
      (r : P5Request) (b : Allocation) (a : Adaptor Slot Ta)
      → IsLive a
      → Returns (Next a) (send_p5 r b a)
  unfolding send_p5
  send_p5-Returns r b a v = or_null-Returns (Next a) _ (
      with_ipc-Ensures (Next a) a.transport _ v.has_handle (
        record {
          has_handle = v.has_handle;
          handles = v.handles;
          thread_runs = v.thread_runs;
          thread_joinable = v.thread_joinable;
          tallied = v.tallied;
          balanced = record {
            p7_released = v.balanced.p7_released;
            p7_sent = v.balanced.p7_sent;
            p5_sent = send_p5_request-AllSent r b a.p5 v.balanced.p5_sent;
          };
        },
        refl,
      ))

  pub register-Next :
      (k : NotifierKind) (i : ℕ) (a : Adaptor Slot Ta) → IsLive a → Next a (register k i a)
  unfolding register
  register-Next slot_notifier i a v = (v, refl)
  register-Next indications_notifier i a v = (v, refl)
  register-Next error_notifier i a v = (v, refl)
  register-Next p5_notifier i a v = (v, refl)

  pub on_last_message-Returns :
      (a : Adaptor Slot Ta) → IsLive a → Returns (Next a) (on_last_message a)
  unfolding on_last_message tx_sem_post
  on_last_message-Returns a v = or_null-Returns (Next a) _ (
      Ensures->>= Posted (Next a) _ _
        (with_ipc-Ensures Posted a.transport _ v.has_handle (record {
          has_handle = v.has_handle;
          handles = record { flag = v.handles.flag; handles = v.handles.handles };
          thread_runs = v.thread_runs;
          thread_joinable = v.thread_joinable;
          tallied = v.tallied;
          balanced = v.balanced;
        }))
        (λ t l. (l, refl)))
    where
      Posted : NvipcTransport → Type 0
      Posted t = Life t a.rx.running a.rx.joinable a.world a.p5 a.p7

  -- A state of the P7 gateway that a call may leave.
  record IsAfter (a : Adaptor Slot Ta) (p7 : P7) : Type 0 where
    balance : IsBalanced a.p5 p7
    same : SameRx a.world.metrics p7.globals.metrics

  Sends-IsAfter :
      (ids : List ℕ) (a : Adaptor Slot Ta) (p q : P7)
      → IsAfter a p
      → Sends ids p q
      → KeepsRx p q
      → IsAfter a q
  Sends-IsAfter ids a p q w s k = record {
    balance = record {
      p7_released = s.released_is ∙ w.balance.p7_released;
      p7_sent = omega (
        arith,
        s.allocated_is,
        w.balance.p7_sent,
        ap length s.sent_is,
        length-append (sent_ids p) ids,
      );
      p5_sent = w.balance.p5_sent;
    };
    same = SameRx-trans _ _ _ w.same k;
  }

  pub send_request-Returns :
      (f : Bool) (r : P7Request) (b : Allocation) (a : Adaptor Slot Ta)
      → Sendable f (r, b)
      → IsLive a
      → Returns (Next a) (send_request f r b a)
  unfolding send_request
  send_request-Returns f r b a h v = or_null-Returns (Next a) _ (
      Ensures->>= (IsAfter a) (Next a) _ _
        (with_ipc-Ensures (IsAfter a) a.transport (record (a.p7) { globals = globals a })
          v.has_handle
          (record {
            balance = record {
              p7_released = v.balanced.p7_released;
              p7_sent = v.balanced.p7_sent;
              p5_sent = v.balanced.p5_sent;
            };
            same = SameRx-refl a.world.metrics;
          }))
        (λ ready w.
          Ensures->>= (IsAfter a) (Next a) (send f r b ready) _
            (Ensures-map (λ st'. Sends (granted_ids ((r, b) ∷ [])) ready st' × KeepsRx ready st')
              (IsAfter a) (send f r b ready) (λ st' m. Sends-IsAfter _ a ready st' w m.0 m.1)
              (Ensures-× _ _ (send f r b ready) (send-Sends f r b ready h)
                (send-KeepsRx f r b ready h)))
            (λ p7 after. (
              record {
                has_handle = v.has_handle;
                handles = v.handles;
                thread_runs = v.thread_runs;
                thread_joinable = v.thread_joinable;
                tallied =
                    IsTallied-SameRx a.world p7.globals.metrics p7.globals.counters after.same
                      v.tallied;
                balanced = after.balance;
              },
              refl,
            ))))

  pub wake_up-Returns :
      (o : Ocudu Slot Ta) (queue : List IpcMsg) (a : Adaptor Slot Ta)
      → AllHold queue
      → IsLive a
      → Returns (Next a) (wake_up o queue a)
  unfolding wake_up after_round
  wake_up-Returns o queue a h v =
      if-elim (Returns (Next a)) (a.rx.joinable || a.rx.detached) _ _
        (λ on. or_null-Returns (Next a) _ (
          Ensures->>= (After o a.rx.cfg a.rx.notifiers a.released) (Next a) _ _
            (with_ipc-Ensures _ a.transport _ v.has_handle (v.tallied, refl))
            (λ ready w.
              Ensures->>= (λ (r : RxRun Slot Ta). IsTallied r.world) (Next a)
                (run_loop o a.rx.cfg a.rx.notifiers _ ready) _
                (Ensures-map _ _ (run_loop o a.rx.cfg a.rx.notifiers _ ready) (λ r t. t.0)
                  (run_loop-After_from o a.rx.cfg a.rx.notifiers _ a.released ready (h, tt) w))
                (λ r t. (
                  record {
                    has_handle = v.has_handle;
                    handles = v.handles;
                    thread_runs = ground (arith, v.thread_runs);
                    thread_joinable = ground (arith, v.thread_runs, v.thread_joinable);
                    tallied = t;
                    balanced = v.balanced;
                  },
                  refl,
                )))))
        (λ off. (v, refl))
