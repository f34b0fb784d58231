-- ===== src/Rtsp/Machine/Complete.antt =====
-- A session that is ready or playing has been set up.
use rtsp_server.Base.{
  ℕ, zero, suc, ◌≡◌, ◌≢◌, refl, sym, ap, subst, ◌∙◌, ◌⊎◌, inl, inr, true, List, [], ◌∷◌, ◌++◌, some,
  arith, length, get_elem?, set, Bool-cases, ◌==◌, ==_iff,
}
use rtsp_server.Rtsp.Text.{Bytes}
use rtsp_server.Rtsp.Connection.{init_stat, Session, State, cleared_session}
use rtsp_server.Rtsp.Connection.Steps.{Relation, Frame, with_sessions}
use rtsp_server.Rtsp.Frames.Setup.{Update, names, casts, udp, tcp, others, Setups}
use rtsp_server.Rtsp.Machine.Moves.{Update-state}
use rtsp_server.Rtsp.Setup.{rtsp_control_id_0, has_transport}

pub record IsSetUp (x : Session) : Type 0 where
  pub control : x.control_id ≡ rtsp_control_id_0
  pub cast : x.unicast ≡ true
  pub carried : has_transport x.transport_type ≡ true

abbrev pub IsComplete : Session → Type 0
IsComplete x = (x.cur_state ≡ init_stat) ⊎ IsSetUp x

-- Every session of a list.
abbrev pub AllOf : (Session → Type 0) → State → Type 0
AllOf P s = (i : ℕ) (x : Session) → get_elem? s.buffer.session_list i ≡ some x → P x

-- The session at a place of a list.
abbrev pub At : (Session → Type 0) → ℕ → State → Type 0
At P j s = (x : Session) × (get_elem? s.buffer.session_list j ≡ some x) × P x

pub get_elem?-set_self :
    (l : List Session) (i : ℕ) (x y : Session)
    → get_elem? l i ≡ some x
    → get_elem? (set l i y) i ≡ some y
get_elem?-set_self [] i x y e = absurd (ground arith)
get_elem?-set_self (z ∷ l) zero x y e = refl
get_elem?-set_self (z ∷ l) (suc i) x y e = get_elem?-set_self l i x y e

get_elem?-set_ne :
    (l : List Session) (i j : ℕ) (y : Session) → i ≢ j → get_elem? (set l i y) j ≡ get_elem? l j
get_elem?-set_ne [] i j y ne = refl
get_elem?-set_ne (z ∷ l) zero zero y ne = absurd (ne refl)
get_elem?-set_ne (z ∷ l) zero (suc j) y ne = refl
get_elem?-set_ne (z ∷ l) (suc i) zero y ne = refl
get_elem?-set_ne (z ∷ l) (suc i) (suc j) y ne = get_elem?-set_ne l i j y (λ e. ne (ap suc e))

get_elem?-append_one :
    (l : List Session) (j : ℕ) (x y : Session)
    → get_elem? (l ++ (y ∷ [])) j ≡ some x
    → (get_elem? l j ≡ some x) ⊎ (x ≡ y)
get_elem?-append_one [] zero x y e = inr (ground arith)
get_elem?-append_one [] (suc j) x y e = absurd (ground arith)
get_elem?-append_one (z ∷ l) zero x y e = inl e
get_elem?-append_one (z ∷ l) (suc j) x y e = get_elem?-append_one l j x y e

get_elem?-append_old :
    (l : List Session) (j : ℕ) (x y : Session)
    → get_elem? l j ≡ some x
    → get_elem? (l ++ (y ∷ [])) j ≡ some x
get_elem?-append_old [] j x y e = absurd (ground arith)
get_elem?-append_old (z ∷ l) zero x y e = e
get_elem?-append_old (z ∷ l) (suc j) x y e = get_elem?-append_old l j x y e

pub some_same : {x y : Session} → some x ≡ some y → x ≡ y
some_same e = cc

abbrev pub Anything : Relation
Anything s t = Unit {0}

module _ (P : Session → Type 0) where
  -- A list with one session replaced.
  pub AllOf-set :
      (s : State) (i : ℕ) (x y : Session)
      → get_elem? s.buffer.session_list i ≡ some x
      → P y
      → AllOf P s
      → AllOf P (with_sessions s (set s.buffer.session_list i y))
  AllOf-set s i x y e p all j z f = elim (Bool-cases (i == j)) [
    | inl same ↦
        let here : get_elem? (set s.buffer.session_list i y) i ≡ some z =
          ap (get_elem? (set s.buffer.session_list i y)) ((==_iff i j).0 same) ∙ f in
        subst P (some_same (sym (get_elem?-set_self s.buffer.session_list i x y e) ∙ here)) p
    | inr other ↦ all j z (
        sym (
          get_elem?-set_ne s.buffer.session_list i j y
            (λ q. absurd (ground (arith, (==_iff i j).1 q))))
        ∙ f)
  ]

  At-set :
      (s : State) (i j : ℕ) (x y : Session)
      → get_elem? s.buffer.session_list i ≡ some x
      → (P x → P y)
      → At P j s
      → At P j (with_sessions s (set s.buffer.session_list i y))
  At-set s i j x y e keep (z, f, p) = elim (Bool-cases (i == j)) [
    | inl same ↦ (
      y,
      ap (get_elem? (set s.buffer.session_list i y)) (sym ((==_iff i j).0 same))
          ∙ get_elem?-set_self s.buffer.session_list i x y e,
      keep (
          subst P
            (some_same
              (sym f ∙ (ap (get_elem? s.buffer.session_list) (sym ((==_iff i j).0 same)) ∙ e)))
            p),
    )
    | inr other ↦ (
      z,
      get_elem?-set_ne s.buffer.session_list i j y (λ q. absurd (ground (arith, (==_iff i j).1 q)))
          ∙ f,
      p,
    )
  ]

  -- Handlers keep such a session, if what SETUP does to a session does.
  abbrev pub KeepsAt : ℕ → Relation
  KeepsAt j s t = At P j s → At P j t

  At-same : (j : ℕ) (s t : State) → t.buffer.session_list ≡ s.buffer.session_list → KeepsAt j s t
  At-same j s t e (x, f, p) = (x, ap (λ l. get_elem? l j) e ∙ f, p)

  pub at-Frame : (j : ℕ) → Frame (KeepsAt j) (KeepsAt j) Anything
  at-Frame j = record {
    quiet = λ s t q. At-same j s t q.1;
    trans = λ s t u p q a. q (p a);
    final = λ s t u p q a. q (p a);
    after = λ s t u p q a. q (p a);
    fails = λ s t u p q. tt;
    late = λ s t u p q. tt;
    added = λ s k a. a;
    executed = λ s k a. a;
    refused = λ s n bytes some_byte. tt;
    replied = λ s b e counted. At-same j s (record s { buffer = b }) e;
  }

  pub at-Setups : (j : ℕ) → ((x y : Session) → Update x y → P x → P y) → Setups (KeepsAt j) Anything
  at-Setups j keep = record {
    silent = λ s. tt;
    updated = λ s i x y e u. At-set s i j x y e (keep x y u);
    appended = λ s c a.
        (a.0, get_elem?-append_old s.buffer.session_list j a.0 (cleared_session c) a.1, a.2);
  }

  -- The same of all sessions.
  abbrev pub KeepsAll : Relation
  KeepsAll s t = AllOf P s → AllOf P t

  AllOf-same : (s t : State) → t.buffer.session_list ≡ s.buffer.session_list → KeepsAll s t
  AllOf-same s t e all i x f = all i x (ap (λ l. get_elem? l i) (sym e) ∙ f)

  pub all-Frame : Frame KeepsAll KeepsAll KeepsAll
  all-Frame = record {
    quiet = λ s t q. AllOf-same s t q.1;
    trans = λ s t u p q a. q (p a);
    final = λ s t u p q a. q (p a);
    after = λ s t u p q a. q (p a);
    fails = λ s t u p q a. q (p a);
    late = λ s t u p q a. q (p a);
    added = λ s k a. a;
    executed = λ s k a. a;
    refused = λ s n bytes some_byte a. a;
    replied = λ s b e counted. AllOf-same s (record s { buffer = b }) e;
  }

  pub all-Setups :
      ((x y : Session) → Update x y → P x → P y)
      → ((c : Bytes) → P (cleared_session c))
      → Setups KeepsAll KeepsAll
  all-Setups keep fresh = record {
    silent = λ s a. a;
    updated = λ s i x y e u all. AllOf-set s i x y e (keep x y u (all i x e)) all;
    appended = λ s c all j x f.
        elim (get_elem?-append_one s.buffer.session_list j x (cleared_session c) f) [
          | inl old ↦ all j x old
          | inr new ↦ subst P (sym new) (fresh c)
        ];
  }

-- What SETUP does to a session that has the control id of the track, or is set up.
unfoldable pub HasTrack : Session → Type 0
HasTrack x = x.control_id ≡ rtsp_control_id_0

track_nonempty : (c : Bytes) → c ≡ rtsp_control_id_0 → length c ≢ 0
track_nonempty c e z = absurd (omega (arith, sym (ap length e) ∙ z))

pub Update-HasTrack : (x y : Session) → Update x y → HasTrack x → HasTrack y
unfolding HasTrack
Update-HasTrack x _ (names c empty) t = absurd (track_nonempty x.control_id t empty)
Update-HasTrack x _ casts t = t
Update-HasTrack x _ udp t = t
Update-HasTrack x _ tcp t = t
Update-HasTrack x _ (others y state control transport unicast) t = control ∙ t

pub Update-IsSetUp : (x y : Session) → Update x y → IsSetUp x → IsSetUp y
unfolding has_transport
Update-IsSetUp x _ (names c empty) u = absurd (track_nonempty x.control_id u.control empty)
Update-IsSetUp x _ casts u = record { control = u.control; cast = refl; carried = u.carried }
Update-IsSetUp x _ udp u = record { control = u.control; cast = u.cast; carried = refl }
Update-IsSetUp x _ tcp u = record { control = u.control; cast = u.cast; carried = refl }
Update-IsSetUp x _ (others y state control transport unicast) u = record {
  control = control ∙ u.control;
  cast = unicast ∙ u.cast;
  carried = ap has_transport transport ∙ u.carried;
}

pub Update-IsComplete : (x y : Session) → Update x y → IsComplete x → IsComplete y
Update-IsComplete x _ u (inl init) = inl (Update-state u ∙ init)
Update-IsComplete x _ u (inr up) = inr (Update-IsSetUp x _ u up)
