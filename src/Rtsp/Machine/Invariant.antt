-- ===== src/Rtsp/Machine/Invariant.antt =====
-- The invariant of the state machine: every session is as it is made, or it has been set up.
pub mod Steps
use rtsp_server.Base.{
  ℕ, ◌≡◌, ◌≢◌, refl, sym, subst, ◌∙◌, inl, inr, some, arith, get_elem?, Option-cases,
}
use rtsp_server.Rtsp.Host.{Host}
use rtsp_server.Rtsp.Connection.{
  SessionState, init_stat, ready_stat, play_stat, Session, State, Result, ret, stop, fault, M,
  ◌>>=◌, the_buffer, perform, session_at, send_err_reply,
}
use rtsp_server.Rtsp.Connection.Steps.{
  Relation, Keeps, Holds, rets, stops, faults, keeps_bind, keeps_mono, Holds-mono, bind,
  update_session-some, update_session-none, pure-Keeps, the_buffer-Keeps, session_at-Keeps,
  adds-Keeps,
}
use rtsp_server.Rtsp.Connection.Yields.{Yields, yields}
use rtsp_server.Rtsp.Frames.{options-Keeps, describe-Keeps, pause-Keeps, teardown-Keeps, play-Keeps}
use rtsp_server.Rtsp.Frames.Setup.{Setups, setup-Keeps}
use rtsp_server.Rtsp.Setup.{setup}
use rtsp_server.Rtsp.Play.{play}
use rtsp_server.Rtsp.Pause.{pause}
use rtsp_server.Rtsp.Machine.{
  Method, bad_req, describes, announces, get_parameters, asks_options, pauses, plays, records,
  redirects, sets_up, set_parameter, tears_down, set_state, in_init, in_ready, in_play,
  refuse_options, dispatch, state_machine,
}
use rtsp_server.Rtsp.Machine.Moves.{select-Keeps, session_at-some, session_at-none}
use rtsp_server.Rtsp.Machine.Complete.{
  IsSetUp, IsComplete, AllOf, At, Anything, KeepsAt, at-Frame, KeepsAll, all-Frame, all-Setups,
  AllOf-set, Update-IsComplete, some_same,
}
use rtsp_server.Rtsp.Machine.Ready.{setup-IsSetUp}
use rtsp_server.Rtsp.Machine.Invariant.Steps.{
  Complete, complete-Setups, set_state-init, setup_ready, then_state, send_err_reply-Complete,
}

in_init-Complete :
    (h : Host) (i : ℕ) (method : Method) → Keeps Complete Complete (in_init h i method)
unfolding in_init
in_init-Complete h i describes = describe-Keeps (all-Frame IsComplete) h
in_init-Complete h i sets_up = setup_ready h i
in_init-Complete h i tears_down = teardown-Keeps (all-Frame IsComplete) h i
in_init-Complete h i asks_options =
    bind (all-Frame IsComplete) (options-Keeps (all-Frame IsComplete) complete-Setups.silent)
      (λ _. set_state-init i)
in_init-Complete h i plays = send_err_reply-Complete 455
in_init-Complete h i pauses = send_err_reply-Complete 455
in_init-Complete h i bad_req = send_err_reply-Complete 501
in_init-Complete h i announces = send_err_reply-Complete 501
in_init-Complete h i get_parameters = send_err_reply-Complete 501
in_init-Complete h i records = send_err_reply-Complete 501
in_init-Complete h i redirects = send_err_reply-Complete 501
in_init-Complete h i set_parameter = send_err_reply-Complete 501

-- What is kept from a session that is set up.
abbrev FromUp : ℕ → Relation
FromUp i s t = At IsSetUp i s → Complete s t

from_up : {m : M (Unit {0})} (i : ℕ) → Keeps Complete Complete m → Keeps (FromUp i) Complete m
from_up i k = keeps_mono (λ s t p a. p) (λ s t p. p) k

in_ready-Complete :
    (h : Host) (i : ℕ) (method : Method) → Keeps (FromUp i) Complete (in_ready h i method)
unfolding in_ready
in_ready-Complete h i plays =
    then_state (play h i) i play_stat (play-Keeps (all-Frame IsComplete) h i)
      (play-Keeps (at-Frame IsSetUp i) h i)
in_ready-Complete h i sets_up = from_up i (setup_ready h i)
in_ready-Complete h i tears_down = from_up i (teardown-Keeps (all-Frame IsComplete) h i)
in_ready-Complete h i bad_req = from_up i (send_err_reply-Complete 501)
in_ready-Complete h i describes = from_up i (send_err_reply-Complete 501)
in_ready-Complete h i announces = from_up i (send_err_reply-Complete 501)
in_ready-Complete h i get_parameters = from_up i (send_err_reply-Complete 501)
in_ready-Complete h i asks_options = from_up i (send_err_reply-Complete 501)
in_ready-Complete h i pauses = from_up i (send_err_reply-Complete 501)
in_ready-Complete h i records = from_up i (send_err_reply-Complete 501)
in_ready-Complete h i redirects = from_up i (send_err_reply-Complete 501)
in_ready-Complete h i set_parameter = from_up i (send_err_reply-Complete 501)

refuse_options-Complete : Keeps Complete Complete refuse_options
unfolding refuse_options
refuse_options-Complete =
    bind (all-Frame IsComplete) (the_buffer-Keeps (all-Frame IsComplete)) (λ b.
      bind (all-Frame IsComplete) (session_at-Keeps (all-Frame IsComplete) 0)
        (λ x. adds-Keeps (all-Frame IsComplete) _))

in_play-Complete :
    (h : Host) (i : ℕ) (method : Method) → Keeps (FromUp i) Complete (in_play h i method)
unfolding in_play
in_play-Complete h i pauses =
    then_state (pause h i) i ready_stat (pause-Keeps (all-Frame IsComplete) h i)
      (pause-Keeps (at-Frame IsSetUp i) h i)
in_play-Complete h i asks_options = from_up i refuse_options-Complete
in_play-Complete h i tears_down = from_up i (teardown-Keeps (all-Frame IsComplete) h i)
in_play-Complete h i bad_req = from_up i (pure-Keeps (all-Frame IsComplete) tt)
in_play-Complete h i describes = from_up i (pure-Keeps (all-Frame IsComplete) tt)
in_play-Complete h i announces = from_up i (pure-Keeps (all-Frame IsComplete) tt)
in_play-Complete h i get_parameters = from_up i (pure-Keeps (all-Frame IsComplete) tt)
in_play-Complete h i plays = from_up i (pure-Keeps (all-Frame IsComplete) tt)
in_play-Complete h i records = from_up i (pure-Keeps (all-Frame IsComplete) tt)
in_play-Complete h i redirects = from_up i (pure-Keeps (all-Frame IsComplete) tt)
in_play-Complete h i sets_up = from_up i (pure-Keeps (all-Frame IsComplete) tt)
in_play-Complete h i set_parameter = from_up i (pure-Keeps (all-Frame IsComplete) tt)

-- What is kept from a session in a state.
abbrev FromState : ℕ → SessionState → Relation
FromState i c s t =
    (x : Session) → get_elem? s.buffer.session_list i ≡ some x → x.cur_state ≡ c → Complete s t

started :
    (x : Session) (c : SessionState) → x.cur_state ≡ c → c ≢ init_stat → IsComplete x → IsSetUp x
started x c e ne (inl init) = absurd (ne (sym e ∙ init))
started x c e ne (inr up) = up

from_state :
    {m : M (Unit {0})} (i : ℕ) (c : SessionState)
    → c ≢ init_stat
    → Keeps (FromUp i) Complete m
    → Keeps (FromState i c) Complete m
from_state i c ne k =
    keeps_mono (λ s t p x e f all. p (x, e, started x c f ne (all i x e)) all) (λ s t p. p) k

dispatch-Complete :
    (h : Host) (i : ℕ) (method : Method) (c : SessionState)
    → Keeps (FromState i c) Complete (dispatch h i method c)
unfolding dispatch
dispatch-Complete h i method init_stat =
    keeps_mono (λ s t p x e f. p) (λ s t p. p) (in_init-Complete h i method)
dispatch-Complete h i method ready_stat =
    from_state i ready_stat (λ e. absurd (ground arith)) (in_ready-Complete h i method)
dispatch-Complete h i method play_stat =
    from_state i play_stat (λ e. absurd (ground arith)) (in_play-Complete h i method)

serve-Complete :
    (h : Host) (method : Method) (i : ℕ)
    → Keeps Complete Complete (session_at i >>= λ x. dispatch h i method x.cur_state)
serve-Complete h method i = record {
  apply = λ s. elim (Option-cases (get_elem? s.buffer.session_list i)) [
    | inl e ↦ rw (session_at-none i (λ x. dispatch h i method x.cur_state) s e) faults
    | inr (x, e) ↦ rw (session_at-some i (λ x'. dispatch h i method x'.cur_state) s x e) (
        Holds-mono s (λ t p. p x e refl) (λ t p. p)
          ((dispatch-Complete h i method x.cur_state).apply s))
  ];
}

state_machine-Keeps :
    (h : Host) (method : Method) → Keeps Complete Complete (state_machine h method)
unfolding state_machine
state_machine-Keeps h method =
    bind (all-Frame IsComplete) (select-Keeps (all-Frame IsComplete))
      (λ i. serve-Complete h method i)

-- Every session is in its first state or set up.
abbrev pub IsConsistent : State → Type 0
IsConsistent = AllOf IsComplete

-- If every session of a connection is in its first state or set up (it has the control id of the
-- track, is cast to one, and has a transport), then so is every session after a request, whatever the
-- request is, and whether the state machine returns or stops with an error.
pub state_machine-IsComplete :
    (h : Host) (method : Method) (s : State)
    → IsConsistent s
    → Holds (λ s' t. IsConsistent t) (λ s' t. IsConsistent t) s (state_machine h method s)
state_machine-IsComplete h method s all =
    Holds-mono s (λ t f. f all) (λ t f. f all) ((state_machine-Keeps h method).apply s)
