-- ===== src/Rtsp/Machine/Moves/Sessions.antt =====
-- RTSP_state_machine.cpp: the states of the sessions of a connection, and sessions that come to it.
use rtsp_server.Base.{
  ℕ, zero, suc, ◌+◌, ◌≡◌, refl, sym, ap, ◌∙◌, List, [], ◌∷◌, ◌++◌, some, arith, map, get_elem?, set,
  replicate, append-nil, append_assoc,
}
use native.Mathlib.Nat.{zero-add, suc-add}
use rtsp_server.Rtsp.Connection.{SessionState, init_stat, Session, State, cleared_session}
use rtsp_server.Rtsp.Connection.Steps.{Relation, Frame}
use rtsp_server.Rtsp.Frames.Setup.{Update, names, casts, udp, tcp, others, Setups}

-- The states of the sessions of a connection.
abbrev pub statuses : State → List SessionState
statuses s = map (λ x. x.cur_state) s.buffer.session_list

-- New sessions stand behind the old ones, and are not set up.
abbrev pub Grows : Relation
Grows s t = (k : ℕ) × (statuses t ≡ statuses s ++ replicate k init_stat)

append-replicate :
    {A : Type 0} (j k : ℕ) (a : A) → replicate (j + k) a ≡ replicate j a ++ replicate k a
append-replicate zero k a = rw zero-add
append-replicate (suc j) k a = rw suc-add (ap (λ l. a ∷ l) (append-replicate j k a))

pub Grows-trans : (s t u : State) → Grows s t → Grows t u → Grows s u
Grows-trans s t u (j, p) (k, q) = (
  j + k,
  q
      ∙ (ap (λ l. l ++ replicate k init_stat) p
          ∙ (append_assoc (statuses s) (replicate j init_stat) (replicate k init_stat)
              ∙ ap (λ l. statuses s ++ l) (sym (append-replicate j k init_stat)))),
)

pub Grows-same : (s t : State) → t.buffer.session_list ≡ s.buffer.session_list → Grows s t
Grows-same s t e = (0, ap (map (λ x. x.cur_state)) e ∙ sym (append-nil (statuses s)))

pub grows : Frame Grows Grows Grows
grows = record {
  quiet = λ s t q. Grows-same s t q.1;
  trans = Grows-trans;
  final = Grows-trans;
  after = Grows-trans;
  fails = Grows-trans;
  late = Grows-trans;
  added = λ s k. Grows-same s s refl;
  executed = λ s k. Grows-same s s refl;
  refused = λ s n bytes some_byte. Grows-same s s refl;
  replied = λ s b e counted. Grows-same s (record s { buffer = b }) e;
}

map-set_same :
    (l : List Session) (i : ℕ) (x y : Session)
    → get_elem? l i ≡ some x
    → y.cur_state ≡ x.cur_state
    → map (λ z. z.cur_state) (set l i y) ≡ map (λ z. z.cur_state) l
map-set_same [] i x y e same = refl
map-set_same (z ∷ l) zero x y e same = ap (λ c. c ∷ map (λ z. z.cur_state) l) (ground arith)
map-set_same (z ∷ l) (suc i) x y e same = ap (λ m. z.cur_state ∷ m) (map-set_same l i x y e same)

pub map-set :
    (l : List Session) (i : ℕ) (y : Session)
    → map (λ z. z.cur_state) (set l i y) ≡ set (map (λ z. z.cur_state) l) i y.cur_state
map-set [] i y = refl
map-set (z ∷ l) zero y = refl
map-set (z ∷ l) (suc i) y = ap (λ m. z.cur_state ∷ m) (map-set l i y)

pub Update-state : {x y : Session} → Update x y → y.cur_state ≡ x.cur_state
Update-state (names c empty) = refl
Update-state casts = refl
Update-state udp = refl
Update-state tcp = refl
Update-state (others y e a b c) = e

map-append_one :
    (l : List Session) (y : Session)
    → map (λ z. z.cur_state) (l ++ (y ∷ [])) ≡ map (λ z. z.cur_state) l ++ (y.cur_state ∷ [])
map-append_one [] y = refl
map-append_one (z ∷ l) y = ap (λ m. z.cur_state ∷ m) (map-append_one l y)

pub grows-Setups : Setups Grows Grows
grows-Setups = record {
  silent = λ s. Grows-same s s refl;
  updated = λ s i x y e u. (
    0,
    map-set_same s.buffer.session_list i x y e (Update-state u) ∙ sym (append-nil (statuses s)),
  );
  appended = λ s c. (1, map-append_one s.buffer.session_list (cleared_session c));
}
