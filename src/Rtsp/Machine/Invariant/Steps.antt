-- ===== src/Rtsp/Machine/Invariant/Steps.antt =====
-- RTSP_state_machine.cpp: what the parts of a request make of sessions that are set up.
use rtsp_server.Base.{ℕ, refl, sym, subst, ◌∙◌, inl, inr, get_elem?, Option-cases}
use rtsp_server.Rtsp.Host.{Host}
use rtsp_server.Rtsp.Connection.{
  SessionState, init_stat, ready_stat, Session, State, Result, ret, stop, fault, M, ◌>>=◌,
  the_buffer, perform, send_err_reply,
}
use rtsp_server.Rtsp.Connection.Steps.{
  Relation, Keeps, Holds, rets, stops, faults, keeps_bind, update_session-some, update_session-none,
}
use rtsp_server.Rtsp.Connection.Yields.{Yields, yields}
use rtsp_server.Rtsp.Frames.Setup.{Setups, setup-Keeps}
use rtsp_server.Rtsp.Setup.{setup}
use rtsp_server.Rtsp.Machine.{set_state}
use rtsp_server.Rtsp.Machine.Complete.{
  IsSetUp, IsComplete, AllOf, At, Anything, KeepsAt, KeepsAll, all-Frame, all-Setups, AllOf-set,
  Update-IsComplete, some_same,
}
use rtsp_server.Rtsp.Machine.Ready.{setup-IsSetUp}

abbrev pub Complete : Relation
Complete = KeepsAll IsComplete

pub complete-Setups : Setups Complete Complete
complete-Setups = all-Setups IsComplete Update-IsComplete (λ c. inl refl)

IsSetUp-state : (x : Session) (c : SessionState) → IsSetUp x → IsSetUp (record x { cur_state = c })
IsSetUp-state x c u = record { control = u.control; cast = u.cast; carried = u.carried }

-- A session that is set up may come into any state, and any session may go back.
set_state-Complete :
    (c : SessionState) (j : ℕ)
    → Keeps
        (λ s t. At IsSetUp j s → AllOf IsComplete s → AllOf IsComplete t)
        Complete
        (set_state c j)
unfolding set_state
set_state-Complete c j = record {
  apply = λ s. elim (Option-cases (get_elem? s.buffer.session_list j)) [
    | inl e ↦ rw (update_session-none s j (λ x. record x { cur_state = c }) e) faults
    | inr (x, e) ↦ rw (update_session-some s j (λ x'. record x' { cur_state = c }) x e) (
        rets (λ a.
          AllOf-set IsComplete s j x (record x { cur_state = c }) e
            (inr (IsSetUp-state x c (subst IsSetUp (some_same (sym a.1 ∙ e)) a.2)))))
  ];
}

pub set_state-init : (j : ℕ) → Keeps Complete Complete (set_state init_stat j)
unfolding set_state
set_state-init j = record {
  apply = λ s. elim (Option-cases (get_elem? s.buffer.session_list j)) [
    | inl e ↦ rw (update_session-none s j (λ x. record x { cur_state = init_stat }) e) faults
    | inr (x, e) ↦
        rw (update_session-some s j (λ x'. record x' { cur_state = init_stat }) x e)
          (rets (AllOf-set IsComplete s j x (record x { cur_state = init_stat }) e (inl refl)))
  ];
}

-- What holds by two arguments.
Holds-both :
    {A : Type 0} {R R' E E' : Relation} (s : State) {r : Result A}
    → Holds R E s r
    → Holds R' E' s r
    → Holds (λ s' t. R s' t × R' s' t) E s r
Holds-both s (rets p) (rets q) = rets (p, q)
Holds-both s (stops e) k = stops e
Holds-both s faults k = faults

-- A step that is seen from the state before.
shift :
    {j : ℕ} {r : Result (Unit {0})} (s t : State)
    → Complete s t
    → At IsSetUp j t
    → Holds (λ s' t'. At IsSetUp j s' → Complete s' t') Complete t r
    → Holds Complete Complete s r
shift s t p u (rets q) = rets (λ all. q u (p all))
shift s t p u (stops e) = stops (λ all. e (p all))
shift s t p u faults = faults

-- SETUP, and the session that it returns made ready.
pub setup_ready :
    (h : Host) (i : ℕ) → Keeps Complete Complete (setup h i >>= λ j. set_state ready_stat j)
unfolding ◌>>=◌
setup_ready h i = record {
  apply = λ s.
      next s ((setup-Keeps (all-Frame IsComplete) complete-Setups h i).apply s)
        (setup-IsSetUp h i s);
}
  where
    next :
        (s : State) {r : Result ℕ}
        → Holds Complete Complete s r
        → Yields (At IsSetUp) r
        → Holds Complete Complete s
            (elim r [ ret j t ↦ set_state ready_stat j t | stop t ↦ stop t | fault ↦ fault ])
    next s (rets {a} {t} p) (yields u) = shift s t p u ((set_state-Complete ready_stat a).apply t)
    next s (stops e) k = stops e
    next s faults k = faults

-- A handler for the session i, which is set up, and its new state.
pub then_state :
    (m : M (Unit {0})) (i : ℕ) (c : SessionState)
    → Keeps Complete Complete m
    → Keeps (KeepsAt IsSetUp i) Anything m
    → Keeps (λ s t. At IsSetUp i s → Complete s t) Complete (m >>= λ _. set_state c i)
then_state m i c k l =
    keeps_bind (λ s t u p q a all. q (p.1 a) (p.0 all)) (λ s t u p q all. q (p.0 all))
      (record { apply = λ s. Holds-both s (k.apply s) (l.apply s) }) (λ _. set_state-Complete c i)

pub send_err_reply-Complete : (err : ℕ) → Keeps Complete Complete (send_err_reply err)
unfolding send_err_reply ◌>>=◌ the_buffer perform
send_err_reply-Complete err = record { apply = λ s. rets (λ all. all) }
