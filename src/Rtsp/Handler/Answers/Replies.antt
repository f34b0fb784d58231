-- ===== src/Rtsp/Handler/Answers/Replies.antt =====
-- The replies in a log, and those that lie in the out buffer.
use rtsp_server.Base.{
  ℕ, suc, ◌+◌, ◌<◌, ◌≡◌, refl, ap, ◌∙◌, ◌⊎◌, inl, inr, List, [], ◌∷◌, ◌++◌, arith, length,
  get_elem?, Option-cases,
}
use rtsp_server.Rtsp.Text.{Bytes}
use rtsp_server.Rtsp.Connection.{
  SessionState, Effect, sends, adds, executes, State, M, ◌>>=◌, the_buffer, perform, reply_head,
  send_err_reply,
}
use rtsp_server.Rtsp.Connection.Steps.{
  Relation, rets, faults, Keeps, Frame, keeps_bind, keeps_mono, update_session-some,
  update_session-none,
}
use rtsp_server.Rtsp.Machine.{set_state}

-- The replies sent: socketSend with bytes.
unfoldable pub replies : List Effect → ℕ
replies [] = 0
replies (sends n [] ∷ l) = replies l
replies (sends n (c ∷ bytes) ∷ l) = suc (replies l)
replies (adds k ∷ l) = replies l
replies (executes k ∷ l) = replies l

pub replies-append : (l l' : List Effect) → replies (l ++ l') ≡ replies l + replies l'
unfolding replies
replies-append [] l' = omega arith
replies-append (sends n [] ∷ l) l' = replies-append l l'
replies-append (sends n (c ∷ bytes) ∷ l) l' = omega (arith, replies-append l l')
replies-append (adds k ∷ l) l' = replies-append l l'
replies-append (executes k ∷ l) l' = replies-append l l'

replies_one : (n : ℕ) (bytes : Bytes) → 0 < length bytes → replies (sends n bytes ∷ []) ≡ 1
unfolding replies
replies_one n [] h = absurd (omega arith)
replies_one n (c ∷ bytes) h = refl

abbrev pub Unanswered : Relation
Unanswered s t =
    (replies t.log ≡ replies s.log)
    × (t.buffer.out_size ≡ s.buffer.out_size)
    × (t.buffer.session_list ≡ s.buffer.session_list)

-- A reply lies in the out buffer.
abbrev Prepared : Relation
Prepared s t = (replies t.log ≡ replies s.log) × (s.buffer.out_size ≡ 0 → 0 < t.buffer.out_size)

abbrev pub Refused : Relation
Refused s t = replies t.log ≡ suc (replies s.log)

no_reply :
    (s : State) (k : Effect) → replies (k ∷ []) ≡ 0 → replies (s.log ++ (k ∷ [])) ≡ replies s.log
no_reply s k e = omega (arith, replies-append s.log (k ∷ []))

one_reply :
    (s : State) (n : ℕ) (bytes : Bytes)
    → 0 < length bytes
    → replies (s.log ++ (sends n bytes ∷ [])) ≡ suc (replies s.log)
one_reply s n bytes h =
    omega (arith, replies-append s.log (sends n bytes ∷ []), replies_one n bytes h)

pub counted : Frame Unanswered Prepared Refused
unfolding replies
counted = record {
  quiet = λ s t q. (ap replies q.0, q.2, q.1);
  trans = λ s t u p q. (q.0 ∙ p.0, q.1 ∙ p.1, q.2 ∙ p.2);
  final = λ s t u p q. (q.0 ∙ p.0, λ e. q.1 (p.1 ∙ e));
  after = λ s t u p q. (q.0 ∙ p.0, λ e. omega (arith, p.1 e, q.1));
  fails = λ s t u p q. q ∙ ap suc p.0;
  late = λ s t u p q. q ∙ ap suc p.0;
  added = λ s k. (no_reply s (adds k) refl, refl, refl);
  executed = λ s k. (no_reply s (executes k) refl, refl, refl);
  refused = λ s n bytes some_byte. one_reply s n bytes some_byte;
  replied = λ s b e larger. (refl, larger);
}

-- After the handler: one reply is sent and none prepared, or none is sent and one prepared.
abbrev pub OneReply : Relation
OneReply s t =
    ((replies t.log ≡ suc (replies s.log)) × (t.buffer.out_size ≡ 0))
    ⊎ ((replies t.log ≡ replies s.log) × (0 < t.buffer.out_size))

abbrev pub Once : Relation
Once s t = s.buffer.out_size ≡ 0 → OneReply s t

pub prepared : {m : M (Unit {0})} → Keeps Prepared Refused m → Keeps Once Refused m
prepared k = keeps_mono (λ s t p e. inr (p.0, p.1 e)) (λ s t g. g) k

pub refused_once : (err : ℕ) → Keeps Once Refused (send_err_reply err)
unfolding send_err_reply ◌>>=◌ the_buffer perform reply_head
refused_once err = record {
  apply = λ s. rets (λ e. inl (one_reply s s.buffer.sock_id _ (omega arith), e));
}

-- A change of state sends nothing.
abbrev Silent : Relation
Silent s t = (replies t.log ≡ replies s.log) × (t.buffer.out_size ≡ s.buffer.out_size)

set_state-Silent : (c : SessionState) (i : ℕ) → Keeps Silent Refused (set_state c i)
unfolding set_state
set_state-Silent c i = record {
  apply = λ s. elim (Option-cases (get_elem? s.buffer.session_list i)) [
    | inl e ↦ rw (update_session-none s i (λ x. record x { cur_state = c }) e) faults
    | inr (x, e) ↦
        rw (update_session-some s i (λ x'. record x' { cur_state = c }) x e) (rets (refl, refl))
  ];
}

pub then_state :
    {m : M (Unit {0})} (c : SessionState) (i : ℕ)
    → Keeps Prepared Refused m
    → Keeps Prepared Refused (m >>= λ _. set_state c i)
then_state c i k =
    keeps_bind (λ s t u p q. (q.0 ∙ p.0, λ e. omega (arith, p.1 e, q.1)))
      (λ s t u p q. q ∙ ap suc p.0) k (λ _. set_state-Silent c i)
