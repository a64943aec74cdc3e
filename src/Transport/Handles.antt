-- ===== src/Transport/Handles.antt =====
-- The handles of aerial_bridge/src/nvipc_transport.cpp over any sequence of calls.
use ocudu_aerial_fapi_connec.Common.{
  ◌+◌, ◌≡◌, refl, Bool, true, false, if◌then◌else◌, List, [], ◌∷◌, length, length-append, none,
  some, Ensures, if-elim, arith,
}
use ocudu_aerial_fapi_connec.Transport.{
  NvipcTransportConfig, NvIpcAnswers, NvIpcConfig, NvipcTransport, new_transport, connect,
  create_interface, is_empty, disconnect, with_ipc,
}

-- A transport is connected exactly while it has a handle, and that handle is the only one that was
-- created and not destroyed.
pub record IsSound (t : NvipcTransport) : Type 0 where
  pub flag : t.connected ≡ t.has_ipc
  pub handles : length t.created ≡ t.destroyed + (if t.has_ipc then 1 else 0)

pub data Call : Type 0 where
  connecting : NvIpcAnswers → NvipcTransportConfig → Call
  disconnecting : Call

pub call : Call → NvipcTransport → NvipcTransport
call (connecting answers cfg) t = (connect answers cfg t).1
call disconnecting t = disconnect t

pub calls : List Call → NvipcTransport → NvipcTransport
calls [] t = t
calls (c ∷ cs) t = calls cs (call c t)

pub create_interface-IsSound :
    (b : Bool) (cfg : NvIpcConfig) (t : NvipcTransport)
    → t.connected ≡ false
    → IsSound t
    → IsSound (create_interface b cfg t).1
unfolding create_interface
create_interface-IsSound b cfg t e s = ground (arith, length-append t.created (cfg ∷ []))

pub connect-IsSound :
    (answers : NvIpcAnswers) (cfg : NvipcTransportConfig) (t : NvipcTransport)
    → IsSound t
    → IsSound (connect answers cfg t).1
unfolding connect
connect-IsSound answers cfg t s =
    if-elim Sound t.connected _ _ (λ on. s)
      (λ off.
        if-elim Sound (is_empty cfg.yaml_path) _ _
          (λ short. create_interface-IsSound answers.creates _ t off s)
          (λ long.
            if-elim Sound answers.yaml_loads _ _
              (λ here. create_interface-IsSound answers.creates _ t off s) (λ missing. s)))
  where
    Sound : Bool × NvipcTransport → Type 0
    Sound r = IsSound r.1

-- A transport that says that it is connected has a handle.
pub connect-has_ipc :
    (answers : NvIpcAnswers) (cfg : NvipcTransportConfig) (t : NvipcTransport)
    → IsSound t
    → (connect answers cfg t).0 ≡ true
    → (connect answers cfg t).1.has_ipc ≡ true
unfolding connect create_interface
connect-has_ipc answers cfg t s h = ground arith

pub disconnect-IsSound : (t : NvipcTransport) → IsSound t → IsSound (disconnect t)
unfolding disconnect
disconnect-IsSound t s = ground arith

calls-IsSound : (cs : List Call) (t : NvipcTransport) → IsSound t → IsSound (calls cs t)
unfolding calls call
calls-IsSound [] t s = s
calls-IsSound (connecting answers cfg ∷ cs) t s =
    calls-IsSound cs (connect answers cfg t).1 (connect-IsSound answers cfg t s)
calls-IsSound (disconnecting ∷ cs) t s = calls-IsSound cs (disconnect t) (disconnect-IsSound t s)

pub new_transport-IsSound : IsSound new_transport
unfolding new_transport
new_transport-IsSound = record { flag = refl; handles = refl }

-- Whatever connects and disconnects a transport goes through, and whatever nvIPC answers, its
-- destructor leaves no handle: every handle created has been destroyed, none of them twice.
pub calls-disconnect :
    (cs : List Call)
    → let t = disconnect (calls cs new_transport) in
      (t.has_ipc ≡ false) × (t.connected ≡ false) × (length t.created ≡ t.destroyed)
unfolding disconnect
calls-disconnect cs = ground (arith, calls-IsSound cs new_transport new_transport-IsSound)

-- Behind a live handle nothing is dereferenced in vain.
pub with_ipc-Ensures {ℓ} :
    {A : Type ℓ} (P : A → Type 0) (t : NvipcTransport) (a : A)
    → t.has_ipc ≡ true
    → P a
    → Ensures P (with_ipc t a)
unfolding with_ipc
with_ipc-Ensures P t a h p =
    if-elim (Ensures P) t.has_ipc (some a) none (λ e. p) (λ e. absurd (ground arith))
