-- ===== src/Rtsp/Machine/Moves.antt =====
-- How the states of the sessions change.
pub mod Sessions
use rtsp_server.Base.{
  ℕ, zero, suc, ◌+◌, ◌≡◌, refl, sym, ap, ◌∙◌, inl, inr, List, [], ◌∷◌, ◌++◌, none, some, arith, map,
  get_elem?, set, subst, replicate, append-nil, append_assoc, Option-cases, codes,
}
use native.Mathlib.Nat.{zero-add, suc-add}
use rtsp_server.Rtsp.Text.{strstr}
use rtsp_server.Rtsp.Host.{Host}
use rtsp_server.Rtsp.Connection.{
  SessionState, init_stat, ready_stat, play_stat, Session, State, Result, ret, stop, fault, M,
  ◌>>=◌, new_session, session_at, send_err_reply, the_buffer, perform,
}
use rtsp_server.Rtsp.Connection.Steps.{
  Relation, Holds, rets, stops, faults, Keeps, Frame, update_session-some, update_session-none,
  bind, option-Keeps, pure-Keeps, Holds-mono, the_buffer-Keeps, session_at-Keeps, adds-Keeps,
  keeps_bind,
}
use rtsp_server.Rtsp.Frames.{
  request_text-Keeps, session_word-Keeps, options-Keeps, describe-Keeps, pause-Keeps,
  teardown-Keeps, play-Keeps, or_crash-Keeps,
}
use rtsp_server.Rtsp.Frames.Setup.{Update, names, casts, udp, tcp, others, Setups, setup-Keeps}
use rtsp_server.Rtsp.Machine.{
  Method, bad_req, describes, announces, get_parameters, asks_options, pauses, plays, records,
  redirects, sets_up, set_parameter, tears_down, select, set_state, in_init, in_ready, in_play,
  refuse_options, dispatch, state_machine,
}
use rtsp_server.Rtsp.Connection.Yields.{Yields, yields}
use rtsp_server.Rtsp.Machine.Asked.{Asked, select-Asked}
use rtsp_server.Rtsp.Machine.Moves.Sessions.{
  statuses, Grows-trans, Grows-same, grows, map-set, grows-Setups,
}
pub use rtsp_server.Rtsp.Machine.Moves.Sessions.{Grows, Update-state}

-- The changes of state that a method makes: of the session i that is asked for, and for SETUP of the
-- session j that it sets up.
pub data Move : Method → ℕ → ℕ → SessionState → SessionState → Type 0 where
  opens : {i j : ℕ} → Move sets_up i j init_stat ready_stat
  reopens : {i j : ℕ} → Move sets_up i j ready_stat ready_stat
  begins : {i j : ℕ} → j ≡ i → Move plays i j ready_stat play_stat
  halts : {i j : ℕ} → j ≡ i → Move pauses i j play_stat ready_stat
  asks : {i j : ℕ} → j ≡ i → Move asks_options i j init_stat init_stat

-- The states before and after a request: no session of those before has changed, or one has, by a
-- move of the method for the session that is asked for.
pub data Moves (method : Method) (s t : State) : Type 0 where
  still : Grows s t → Moves method s t
  moved :
      (i j : ℕ) (c c' : SessionState) (u : State)
      → Asked s i
      → get_elem? (statuses s) i ≡ some c
      → Move method i j c c'
      → Grows s u
      → statuses t ≡ set (statuses u) j c'
      → Moves method s t

-- The session j has come into state c.
abbrev Becomes : SessionState → ℕ → Relation
Becomes c j s t = statuses t ≡ set (statuses s) j c

set_state-Becomes : (c : SessionState) (j : ℕ) → Keeps (Becomes c j) Grows (set_state c j)
unfolding set_state
set_state-Becomes c j = record {
  apply = λ s. elim (Option-cases (get_elem? s.buffer.session_list j)) [
    | inl e ↦ rw (update_session-none s j (λ x. record x { cur_state = c }) e) faults
    | inr (x, e) ↦
        rw (update_session-some s j (λ x'. record x' { cur_state = c }) x e)
          (rets (map-set s.buffer.session_list j (record x { cur_state = c })))
  ];
}

-- What a method does with the session i in state c.
abbrev MovesFrom : Method → ℕ → SessionState → Relation
MovesFrom method i c s t = Asked s i → get_elem? (statuses s) i ≡ some c → Moves method s t

module _ {method : Method} {i : ℕ} {c : SessionState} where
  -- A handler that leaves the states alone.
  unmoved : (m : M (Unit {0})) → Keeps Grows Grows m → Keeps (MovesFrom method i c) Grows m
  unmoved m k = record { apply = λ s. weaken s (k.apply s) }
    where
      weaken :
          (s : State) {r : Result (Unit {0})}
          → Holds Grows Grows s r
          → Holds (MovesFrom method i c) Grows s r
      weaken s (rets g) = rets (λ a e. still g)
      weaken s (stops g) = stops g
      weaken s faults = faults

  -- One that is followed by a change of state.
  then_moved :
      {A : Type 0} (c' : SessionState) {m : M A} (j : A → ℕ)
      → ((a : A) → Move method i (j a) c c')
      → Keeps Grows Grows m
      → Keeps (MovesFrom method i c) Grows (m >>= λ a. set_state c' (j a))
  then_moved c' j move k =
      keeps_bind {Q = λ u t. (a : ℕ) × Move method i a c c' × Becomes c' a u t}
        (λ s u t g b a e. moved i b.0 c c' u a e b.1 g b.2) Grows-trans k
        (λ a. record {
          apply = λ u. witness u (j a) (move a) ((set_state-Becomes c' (j a)).apply u);
        })
    where
      witness :
          (u : State) (a : ℕ) {r : Result (Unit {0})}
          → Move method i a c c'
          → Holds (Becomes c' a) Grows u r
          → Holds (λ u' t. (b : ℕ) × Move method i b c c' × Becomes c' b u' t) Grows u r
      witness u a mv (rets b) = rets (a, mv, b)
      witness u a mv (stops g) = stops g
      witness u a mv faults = faults

send_err_reply-Grows : (err : ℕ) → Keeps Grows Grows (send_err_reply err)
unfolding send_err_reply ◌>>=◌ the_buffer perform
send_err_reply-Grows err = record { apply = λ s. rets (Grows-same s s refl) }

in_init-Moves :
    (h : Host) (i : ℕ) (method : Method)
    → Keeps (MovesFrom method i init_stat) Grows (in_init h i method)
unfolding in_init
in_init-Moves h i describes = unmoved _ (describe-Keeps grows h)
in_init-Moves h i sets_up =
    then_moved ready_stat (λ j. j) (λ j. opens) (setup-Keeps grows grows-Setups h i)
in_init-Moves h i tears_down = unmoved _ (teardown-Keeps grows h i)
in_init-Moves h i asks_options =
    then_moved init_stat (λ _. i) (λ _. asks refl) (options-Keeps grows grows-Setups.silent)
in_init-Moves h i plays = unmoved _ (send_err_reply-Grows 455)
in_init-Moves h i pauses = unmoved _ (send_err_reply-Grows 455)
in_init-Moves h i bad_req = unmoved _ (send_err_reply-Grows 501)
in_init-Moves h i announces = unmoved _ (send_err_reply-Grows 501)
in_init-Moves h i get_parameters = unmoved _ (send_err_reply-Grows 501)
in_init-Moves h i records = unmoved _ (send_err_reply-Grows 501)
in_init-Moves h i redirects = unmoved _ (send_err_reply-Grows 501)
in_init-Moves h i set_parameter = unmoved _ (send_err_reply-Grows 501)

in_ready-Moves :
    (h : Host) (i : ℕ) (method : Method)
    → Keeps (MovesFrom method i ready_stat) Grows (in_ready h i method)
unfolding in_ready
in_ready-Moves h i plays = then_moved play_stat (λ _. i) (λ _. begins refl) (play-Keeps grows h i)
in_ready-Moves h i sets_up =
    then_moved ready_stat (λ j. j) (λ j. reopens) (setup-Keeps grows grows-Setups h i)
in_ready-Moves h i tears_down = unmoved _ (teardown-Keeps grows h i)
in_ready-Moves h i bad_req = unmoved _ (send_err_reply-Grows 501)
in_ready-Moves h i describes = unmoved _ (send_err_reply-Grows 501)
in_ready-Moves h i announces = unmoved _ (send_err_reply-Grows 501)
in_ready-Moves h i get_parameters = unmoved _ (send_err_reply-Grows 501)
in_ready-Moves h i asks_options = unmoved _ (send_err_reply-Grows 501)
in_ready-Moves h i pauses = unmoved _ (send_err_reply-Grows 501)
in_ready-Moves h i records = unmoved _ (send_err_reply-Grows 501)
in_ready-Moves h i redirects = unmoved _ (send_err_reply-Grows 501)
in_ready-Moves h i set_parameter = unmoved _ (send_err_reply-Grows 501)

refuse_options-Grows : Keeps Grows Grows refuse_options
unfolding refuse_options
refuse_options-Grows =
    bind grows (the_buffer-Keeps grows)
      (λ b. bind grows (session_at-Keeps grows 0) (λ x. adds-Keeps grows _))

in_play-Moves :
    (h : Host) (i : ℕ) (method : Method)
    → Keeps (MovesFrom method i play_stat) Grows (in_play h i method)
unfolding in_play
in_play-Moves h i asks_options = unmoved _ refuse_options-Grows
in_play-Moves h i pauses = then_moved ready_stat (λ _. i) (λ _. halts refl) (pause-Keeps grows h i)
in_play-Moves h i tears_down = unmoved _ (teardown-Keeps grows h i)
in_play-Moves h i bad_req = unmoved _ (pure-Keeps grows tt)
in_play-Moves h i describes = unmoved _ (pure-Keeps grows tt)
in_play-Moves h i announces = unmoved _ (pure-Keeps grows tt)
in_play-Moves h i get_parameters = unmoved _ (pure-Keeps grows tt)
in_play-Moves h i plays = unmoved _ (pure-Keeps grows tt)
in_play-Moves h i records = unmoved _ (pure-Keeps grows tt)
in_play-Moves h i redirects = unmoved _ (pure-Keeps grows tt)
in_play-Moves h i sets_up = unmoved _ (pure-Keeps grows tt)
in_play-Moves h i set_parameter = unmoved _ (pure-Keeps grows tt)

dispatch-Moves :
    (h : Host) (i : ℕ) (method : Method) (c : SessionState)
    → Keeps (MovesFrom method i c) Grows (dispatch h i method c)
unfolding dispatch
dispatch-Moves h i method init_stat = in_init-Moves h i method
dispatch-Moves h i method ready_stat = in_ready-Moves h i method
dispatch-Moves h i method play_stat = in_play-Moves h i method

pub select-Keeps : {R F E : Relation} → Frame R F E → Keeps R E select
unfolding select
select-Keeps frame = bind frame (request_text-Keeps frame) (λ text.
    option-Keeps frame (strstr text (codes "Session")) (pure-Keeps frame 0) (λ p.
      bind frame (session_word-Keeps frame 64 p) (λ id.
        bind frame (the_buffer-Keeps frame)
          (λ b. bind frame (or_crash-Keeps frame _) (λ found. pure-Keeps frame _)))))

get_elem?-map :
    (l : List Session) (i : ℕ) (x : Session)
    → get_elem? l i ≡ some x
    → get_elem? (map (λ z. z.cur_state) l) i ≡ some x.cur_state
get_elem?-map [] i x e = absurd (ground arith)
get_elem?-map (z ∷ l) zero x e = ground arith
get_elem?-map (z ∷ l) (suc i) x e = get_elem?-map l i x e

-- Code that goes on with a session.
module _ {A : Type 0} (i : ℕ) (f : Session → M A) (s : State) where
  pub session_at-some :
      (x : Session) → get_elem? s.buffer.session_list i ≡ some x → (session_at i >>= f) s ≡ f x s
  unfolding session_at ◌>>=◌
  session_at-some x e = ground arith

  pub session_at-none : get_elem? s.buffer.session_list i ≡ none → (session_at i >>= f) s ≡ fault
  unfolding session_at ◌>>=◌
  session_at-none e = ground arith

-- What is done for the session i, if it is asked for.
serve-Moves :
    (h : Host) (method : Method) (i : ℕ)
    → Keeps
        (λ s t. Asked s i → Moves method s t)
        Grows
        (session_at i >>= λ x. dispatch h i method x.cur_state)
serve-Moves h method i = record {
  apply = λ s. elim (Option-cases (get_elem? s.buffer.session_list i)) [
    | inl e ↦ rw (session_at-none i (λ x. dispatch h i method x.cur_state) s e) faults
    | inr (x, e) ↦ rw (session_at-some i (λ x'. dispatch h i method x'.cur_state) s x e) (
        Holds-mono s (λ t m a. m a (get_elem?-map s.buffer.session_list i x e)) (λ t g. g)
          ((dispatch-Moves h i method x.cur_state).apply s))
  ];
}

-- Where the state machine returns, either no session has changed its state, or exactly one has, by a
-- move of the method: SETUP makes a session ready, as long as the session asked for is not playing;
-- PLAY has a ready session play, PAUSE a playing one ready, each the one asked for: the first with
-- the id of the Session header, or the first of all without such a header or such a session. Sessions
-- that come to the list stand behind the others and are not set up. Where it stops with an error, no
-- session has changed its state.
pub state_machine-Moves :
    (h : Host) (method : Method) (s : State)
    → Holds (Moves method) Grows s (state_machine h method s)
unfolding state_machine ◌>>=◌
state_machine-Moves h method s = served (select s) (select-Asked s) ((select-Keeps grows).apply s)
  where
    served :
        (r : Result ℕ)
        → Yields (λ i t. (t ≡ s) × Asked s i) r
        → Holds Grows Grows s r
        → Holds (Moves method) Grows s (elim r [
          | ret i t ↦ (session_at i >>= λ x. dispatch h i method x.cur_state) t
          | stop t ↦ stop t
          | fault ↦ fault
        ])
    served (ret i t) (yields (here, asked)) kept =
        subst
          (λ t'.
            Holds (Moves method) Grows s
              ((session_at i >>= λ x. dispatch h i method x.cur_state) t'))
          (sym here) (Holds-mono s (λ u m. m asked) (λ u g. g) ((serve-Moves h method i).apply s))
    served (stop t) y (stops g) = stops g
    served fault y kept = faults
