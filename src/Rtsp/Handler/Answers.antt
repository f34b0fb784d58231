-- ===== src/Rtsp/Handler/Answers.antt =====
-- How many replies a request is answered with.
pub mod Replies
use rtsp_server.Base.{
  ℕ, zero, suc, ◌+◌, ◌<◌, ◌≡◌, refl, sym, ap, ◌∙◌, ◌⊎◌, inl, inr, Bool, true, false, List, [], ◌∷◌,
  ◌++◌, some, arith, length, take, get_elem?, Option-cases, Bool-cases, leb, ◌==◌,
}
use rtsp_server.Rtsp.Text.{Bytes}
use rtsp_server.Rtsp.Host.{Host}
use rtsp_server.Rtsp.Connection.{
  SessionState, init_stat, ready_stat, play_stat, Session, Effect, sends, adds, executes, State,
  Result, ret, stop, fault, M, ◌>>=◌, pure, break, crash, the_buffer, modify, perform, within,
  reply_head, send_err_reply, session_at,
}
use rtsp_server.Rtsp.Connection.Steps.{
  Relation, Holds, rets, stops, faults, Keeps, Frame, keeps_bind, keeps_mono, Holds-mono,
  update_session-some, update_session-none,
}
use rtsp_server.Rtsp.Frames.{describe-Keeps, pause-Keeps, teardown-Keeps, play-Keeps}
use rtsp_server.Rtsp.Machine.{
  Method, bad_req, describes, announces, get_parameters, asks_options, pauses, plays, records,
  redirects, sets_up, set_parameter, tears_down, set_state, in_init, in_ready, in_play, dispatch,
  state_machine,
}
use rtsp_server.Rtsp.Machine.Moves.{select-Keeps, session_at-some, session_at-none}
use rtsp_server.Rtsp.Handler.{send_out}
use rtsp_server.Rtsp.Handler.Answers.Replies.{
  replies, replies-append, Unanswered, Refused, counted, OneReply, Once, prepared, refused_once,
  then_state,
}

-- Whether a method of a session in a state is answered on every branch.
unfoldable pub due : SessionState → Method → Bool
due init_stat sets_up = false
due init_stat asks_options = false
due init_stat _ = true
due ready_stat sets_up = false
due ready_stat _ = true
due play_stat pauses = true
due play_stat tears_down = true
due play_stat _ = false

dispatch-Once :
    (h : Host) (i : ℕ) (method : Method) (c : SessionState)
    → due c method ≡ true
    → Keeps Once Refused (dispatch h i method c)
unfolding due dispatch in_init in_ready in_play
dispatch-Once h i describes init_stat d = prepared (describe-Keeps counted h)
dispatch-Once h i tears_down init_stat d = prepared (teardown-Keeps counted h i)
dispatch-Once h i plays init_stat d = refused_once 455
dispatch-Once h i pauses init_stat d = refused_once 455
dispatch-Once h i sets_up init_stat d = absurd (ground arith)
dispatch-Once h i asks_options init_stat d = absurd (ground arith)
dispatch-Once h i bad_req init_stat d = refused_once 501
dispatch-Once h i announces init_stat d = refused_once 501
dispatch-Once h i get_parameters init_stat d = refused_once 501
dispatch-Once h i records init_stat d = refused_once 501
dispatch-Once h i redirects init_stat d = refused_once 501
dispatch-Once h i set_parameter init_stat d = refused_once 501
dispatch-Once h i plays ready_stat d = prepared (then_state play_stat i (play-Keeps counted h i))
dispatch-Once h i tears_down ready_stat d = prepared (teardown-Keeps counted h i)
dispatch-Once h i sets_up ready_stat d = absurd (ground arith)
dispatch-Once h i bad_req ready_stat d = refused_once 501
dispatch-Once h i describes ready_stat d = refused_once 501
dispatch-Once h i announces ready_stat d = refused_once 501
dispatch-Once h i get_parameters ready_stat d = refused_once 501
dispatch-Once h i asks_options ready_stat d = refused_once 501
dispatch-Once h i pauses ready_stat d = refused_once 501
dispatch-Once h i records ready_stat d = refused_once 501
dispatch-Once h i redirects ready_stat d = refused_once 501
dispatch-Once h i set_parameter ready_stat d = refused_once 501
dispatch-Once h i pauses play_stat d = prepared (then_state ready_stat i (pause-Keeps counted h i))
dispatch-Once h i tears_down play_stat d = prepared (teardown-Keeps counted h i)
dispatch-Once h i bad_req play_stat d = absurd (ground arith)
dispatch-Once h i describes play_stat d = absurd (ground arith)
dispatch-Once h i announces play_stat d = absurd (ground arith)
dispatch-Once h i get_parameters play_stat d = absurd (ground arith)
dispatch-Once h i asks_options play_stat d = absurd (ground arith)
dispatch-Once h i plays play_stat d = absurd (ground arith)
dispatch-Once h i records play_stat d = absurd (ground arith)
dispatch-Once h i redirects play_stat d = absurd (ground arith)
dispatch-Once h i sets_up play_stat d = absurd (ground arith)
dispatch-Once h i set_parameter play_stat d = absurd (ground arith)

-- The method is answered in the state of every session.
abbrev pub AllDue : Method → State → Type 0
AllDue method s =
    (i : ℕ) (x : Session)
    → get_elem? s.buffer.session_list i ≡ some x
    → due x.cur_state method ≡ true

abbrev Served : Method → Relation
Served method s t = AllDue method s → s.buffer.out_size ≡ 0 → OneReply s t

serve-Served :
    (h : Host) (method : Method) (i : ℕ)
    → Keeps
        (Served method)
        (λ s t. AllDue method s → Refused s t)
        (session_at i >>= λ x. dispatch h i method x.cur_state)
serve-Served h method i = record {
  apply = λ s. elim (Option-cases (get_elem? s.buffer.session_list i)) [
    | inl e ↦ rw (session_at-none i (λ x. dispatch h i method x.cur_state) s e) faults
    | inr (x, e) ↦
        rw (session_at-some i (λ x'. dispatch h i method x'.cur_state) s x e)
          (elim (Bool-cases (due x.cur_state method)) [
            | inl d ↦
                Holds-mono s (λ t p all e'. p e') (λ t g all. g)
                  ((dispatch-Once h i method x.cur_state d).apply s)
            | inr d ↦ void s (λ all. absurd (ground (arith, all i x e))) _
          ])
  ];
}
  where
    void :
        (s : State)
        → (AllDue method s → ⊥)
        → (r : Result (Unit {0}))
        → Holds (Served method) (λ s' t. AllDue method s' → Refused s' t) s r
    void s n (ret a t) = rets (λ all e. absurd (n all))
    void s n (stop t) = stops (λ all. absurd (n all))
    void s n fault = faults

state_machine-Served :
    (h : Host) (method : Method)
    → Keeps (Served method) (λ s t. AllDue method s → Refused s t) (state_machine h method)
unfolding state_machine
state_machine-Served h method =
    keeps_bind
      (λ s t u p q all e.
        moved s t u p (q (λ i x g. all i x (ap (λ l. get_elem? l i) (sym p.2) ∙ g)) (p.1 ∙ e)))
      (λ s t u p q all. q (λ i x g. all i x (ap (λ l. get_elem? l i) (sym p.2) ∙ g)) ∙ ap suc p.0)
      (keeps_mono (λ s t p. p) (λ s t g all. g) (select-Keeps counted))
      (λ i. serve-Served h method i)
  where
    moved : (s t u : State) → Unanswered s t → OneReply t u → OneReply s u
    moved s t u p (inl q) = inl (q.0 ∙ ap suc p.0, q.1)
    moved s t u p (inr q) = inr (q.0 ∙ p.0, q.1)

-- What send_out does with a reply that lies in the out buffer, or with none.
abbrev Sent : Relation
Sent s t =
    (s.buffer.out_size ≡ 0 → replies t.log ≡ replies s.log)
    × (0 < s.buffer.out_size → replies t.log ≡ suc (replies s.log))

-- The bytes that send_out gives to the socket.
abbrev out_bytes : State → Bytes
out_bytes s = take s.buffer.out_size (s.buffer.out_buffer ++ (0 ∷ []))

abbrev after_send : State → State
after_send s = record s { log = s.log ++ (sends s.buffer.sock_id (out_bytes s) ∷ []) }

after_send-Sent : (s : State) → Sent s (after_send s)
after_send-Sent s = (
  λ e. replies-append s.log _ ∙ none_out s.buffer.out_size s.buffer.out_buffer e,
  λ h. replies-append s.log _ ∙ some_out s.buffer.out_size s.buffer.out_buffer h,
)
  where
    none_out :
        (k : ℕ) (b : Bytes)
        → k ≡ 0
        → replies s.log + replies (sends s.buffer.sock_id (take k (b ++ (0 ∷ []))) ∷ [])
          ≡ replies s.log
    none_out zero b e = unfold replies in omega arith
    none_out (suc k) b e = absurd (omega arith)

    some_out :
        (k : ℕ) (b : Bytes)
        → 0 < k
        → replies s.log + replies (sends s.buffer.sock_id (take k (b ++ (0 ∷ []))) ∷ [])
          ≡ suc (replies s.log)
    some_out zero b h = absurd (omega arith)
    some_out (suc k) [] h = unfold replies in omega arith
    some_out (suc k) (c ∷ b) h = unfold replies in omega arith

module _ (h : Host) (s : State) where
  send_out_fault :
      leb s.buffer.out_size (length s.buffer.out_buffer + 1) ≡ false → send_out h s ≡ fault
  unfolding send_out ◌>>=◌ the_buffer within crash
  send_out_fault e = ground arith

  module _ (room : leb s.buffer.out_size (length s.buffer.out_buffer + 1) ≡ true) where
    send_out_done :
        (h.sent (out_bytes s) == s.buffer.out_size) ≡ true
        → send_out h s
          ≡ ret tt
              (record (after_send s) { buffer = record s.buffer { out_size = 0; in_size = 0 } })
    unfolding send_out ◌>>=◌ the_buffer within pure perform modify
    send_out_done e = rw (room, e) refl

    send_out_part :
        (h.sent (out_bytes s) == s.buffer.out_size) ≡ false → send_out h s ≡ stop (after_send s)
    unfolding send_out ◌>>=◌ the_buffer within pure perform break
    send_out_part e = rw (room, e) refl

send_out-Sent : (h : Host) → Keeps Sent Sent (send_out h)
send_out-Sent h = record {
  apply = λ s. elim (Bool-cases (leb s.buffer.out_size (length s.buffer.out_buffer + 1))) [
    | inl room ↦ elim (Bool-cases (h.sent (out_bytes s) == s.buffer.out_size)) [
      | inl e ↦ rw (send_out_done h s room e) (rets (after_send-Sent s))
      | inr e ↦ rw (send_out_part h s room e) (stops (after_send-Sent s))
    ]
    | inr e ↦ rw (send_out_fault h s e) faults
  ];
}

abbrev Answered : Method → Relation
Answered method s t = AllDue method s → s.buffer.out_size ≡ 0 → replies t.log ≡ suc (replies s.log)

answer_once :
    (h : Host) (method : Method)
    → Keeps (Answered method) (Answered method) (state_machine h method >>= λ _. send_out h)
answer_once h method =
    keeps_bind (λ s t u p q all e. add s t u (p all e) q) (λ s t u p q all e. add s t u (p all e) q)
      (keeps_mono (λ s t p. p) (λ s t g all e. g all) (state_machine-Served h method))
      (λ _. send_out-Sent h)
  where
    add : (s t u : State) → OneReply s t → Sent t u → replies u.log ≡ suc (replies s.log)
    add s t u (inl p) q = q.0 p.1 ∙ p.0
    add s t u (inr p) q = q.1 p.1 ∙ ap suc p.0

-- The log has one reply more.
abbrev pub OneMore : Relation
OneMore s t = replies t.log ≡ suc (replies s.log)

-- A request with a method that is due an answer in the state of every session, with nothing left
-- in the out buffer, has exactly one reply sent, whether it is an error or not, and also where the
-- state machine or socketSend fails; if no memory outside of an array and no null pointer is
-- accessed. Due are all methods of a session that is not set up but SETUP and OPTIONS, all of a
-- ready one but SETUP, and PAUSE and TEARDOWN of a playing one.
pub state_machine-Answered :
    (h : Host) (method : Method) (s : State)
    → AllDue method s
    → s.buffer.out_size ≡ 0
    → Holds OneMore OneMore s ((state_machine h method >>= λ _. send_out h) s)
state_machine-Answered h method s all e =
    Holds-mono s (λ t f. f all e) (λ t f. f all e) ((answer_once h method).apply s)
