-- ===== src/Rtsp/Machine/Ready.antt =====
-- SETUP sets up the session that it returns, and the state machine makes no other one ready.
use rtsp_server.Base.{
  ℕ, suc, ◌+◌, ◌≡◌, refl, sym, ap, subst, ◌∙◌, inl, inr, true, List, [], ◌∷◌, ◌++◌, some, arith,
  length, get_elem?, Option-cases, Bool-cases, ltb, ◌==◌,
}
use rtsp_server.Rtsp.Text.{Bytes, str_eq}
use rtsp_server.Rtsp.Host.{Host}
use rtsp_server.Rtsp.Connection.{
  Session, State, M, ◌>>=◌, pure, crash, the_buffer, modify, within, update_session,
  cleared_session, demand,
}
use rtsp_server.Rtsp.Connection.Steps.{
  Relation, Keeps, Frame, rets, faults, bind, keeps_bind, bind_ret, bind_stop, update_session-some,
  update_session-none, require-Keeps, reject-Keeps, if-Keeps,
}
use rtsp_server.Rtsp.Connection.Yields.{
  Yields, yields, stopped, crashed, yields_bind, keeps_yields, any_yields,
}
use rtsp_server.Rtsp.Paths.{demand-true, demand-false}
use rtsp_server.Rtsp.Frames.{request_text-Keeps}
use rtsp_server.Rtsp.Frames.Setup.{
  Setups, choose_fault, choose_long, choose_named, choose_other, choose_found, plain-Keeps,
  transport_words-Keeps, set_client_ports-Keeps, set_channels-Keeps, setup_id-Keeps,
  setup_reply-Keeps,
}
use rtsp_server.Rtsp.Setup.{
  rtsp_control_id_0, choose_session, add_session, last_with, setup_udp, setup_tcp, Wanted,
  wants_udp, wants_tcp, wants_other, setup_kind, lost_session, setup_transport, setup_id,
  setup_reply, has_transport, setup,
}
use rtsp_server.Rtsp.Machine.Asked.{str_eq_sound}
use rtsp_server.Rtsp.Machine.Complete.{
  IsSetUp, At, Anything, KeepsAt, at-Frame, at-Setups, get_elem?-set_self, some_same, HasTrack,
  Update-HasTrack, Update-IsSetUp,
}

-- The session with a control id.
Has : Bytes → Session → Type 0
Has c x = x.control_id ≡ c

last_with_lem :
    (c : Bytes) (i j : ℕ) (l : List Session)
    → last_with c i l ≡ some j
    → (k : ℕ) × (j ≡ i + k) × ((x : Session) × (get_elem? l k ≡ some x) × Has c x)
unfolding last_with Has
last_with_lem c i j [] e = absurd (ground arith)
last_with_lem c i j (x ∷ l) e = elim (Option-cases (last_with c (i + 1) l)) [
  | inr (m, f) ↦ let (k, p, q) = last_with_lem c (i + 1) m l f in (suc k, ground arith, q)
  | inl f ↦ elim (Bool-cases (str_eq c x.control_id)) [
    | inl same ↦ (0, ground arith, (x, refl, sym (str_eq_sound c x.control_id same)))
    | inr other ↦ absurd (ground arith)
  ]
]

get_elem?-append_end :
    (l : List Session) (y : Session) → get_elem? (l ++ (y ∷ [])) (length l) ≡ some y
get_elem?-append_end [] y = refl
get_elem?-append_end (x ∷ l) y = get_elem?-append_end l y

add_session-Yields : (c : Bytes) (s : State) → Yields (At (Has c)) (add_session c s)
unfolding add_session ◌>>=◌ the_buffer within modify pure Has
add_session-Yields c s = elim (Bool-cases (ltb (length c) 128)) [
  | inl fits ↦
      rw fits (yields (cleared_session c, get_elem?-append_end s.buffer.session_list _, refl))
  | inr long ↦ rw long crashed
]

choose_session-Yields : (i : ℕ) (c : Bytes) (s : State) → Yields (At (Has c)) (choose_session i c s)
choose_session-Yields i c s = elim (Option-cases (get_elem? s.buffer.session_list i)) [
  | inl e ↦ rw (choose_fault i c s e) crashed
  | inr (x, e) ↦ elim (Bool-cases (length x.control_id == 0)) [
    | inl empty ↦ elim (Bool-cases (ltb (length c) 128)) [
      | inl fits ↦ rw (choose_named i c s x e empty fits) (
          yields (
            record x { control_id = c },
            get_elem?-set_self s.buffer.session_list i x _ e,
            unfold Has in refl,
          ))
      | inr long ↦ rw (choose_long i c s x e empty long) crashed
    ]
    | inr full ↦ elim (Option-cases (last_with c 0 s.buffer.session_list)) [
      | inl f ↦ rw (choose_other i c s x e full f) (add_session-Yields c s)
      | inr (j, f) ↦ rw (choose_found i c s x e j full f) (
          let (k, p, (y, g, q)) = last_with_lem c 0 j s.buffer.session_list f in
          yields (y, ap (get_elem? s.buffer.session_list) (omega arith) ∙ g, q))
    ]
  ]
]

-- An update of the session at a place.
update-At :
    (P Q : Session → Type 0) (j : ℕ) (f : Session → Session)
    → ((x : Session) → P x → Q (f x))
    → Keeps (λ s t. At P j s → At Q j t) Anything (update_session j f)
update-At P Q j f keep = record {
  apply = λ s. elim (Option-cases (get_elem? s.buffer.session_list j)) [
    | inl e ↦ rw (update_session-none s j f e) faults
    | inr (x, e) ↦ rw (update_session-some s j f x e) (
        rets (λ a. (
          f x,
          get_elem?-set_self s.buffer.session_list j x (f x) e,
          keep x (subst P (some_same (sym a.1 ∙ e)) a.2),
        )))
  ];
}

-- A session with the control id of the track that is cast to one.
record IsCast (x : Session) : Type 0 where
  pub control : x.control_id ≡ rtsp_control_id_0
  pub cast : x.unicast ≡ true

IsCast-track : (x : Session) → HasTrack x → IsCast (record x { unicast = true })
unfolding HasTrack
IsCast-track x u = record { control = u; cast = refl }

Has-HasTrack : (c : Bytes) (x : Session) → str_eq c rtsp_control_id_0 ≡ true → Has c x → HasTrack x
unfolding Has HasTrack
Has-HasTrack c x same g = g ∙ str_eq_sound c rtsp_control_id_0 same

-- Steps on the session j that begin with P and end with a session that is set up.
abbrev Completes : (Session → Type 0) → ℕ → Relation
Completes P j s t = At P j s → At IsSetUp j t

module _ (j : ℕ) where
  up-Frame : Frame (KeepsAt IsSetUp j) (KeepsAt IsSetUp j) Anything
  up-Frame = at-Frame IsSetUp j

  completes :
      {A : Type 0} {P Q : Session → Type 0} {m : M A} {f : A → M (Unit {0})}
      → Keeps (λ s t. At P j s → At Q j t) Anything m
      → ((a : A) → Keeps (Completes Q j) Anything (f a))
      → Keeps (Completes P j) Anything (m >>= f)
  completes = keeps_bind (λ s t u p q a. q (p a)) (λ s t u p q. tt)

  never : {R : Relation} → Keeps R Anything (crash {A = Unit {0}})
  unfolding crash
  never = record { apply = λ s. faults }

  setup_kind-Completes :
      (h : Host) (p : Bytes) (w : Wanted) → Keeps (Completes IsCast j) Anything (setup_kind h j p w)
  unfolding setup_kind setup_udp setup_tcp has_transport
  setup_kind-Completes h p wants_udp =
      completes
        (update-At IsCast IsSetUp j _
          (λ x u. record { control = u.control; cast = u.cast; carried = refl }))
        (λ _. bind up-Frame (require-Keeps up-Frame 400 _) (λ c.
          bind up-Frame (set_client_ports-Keeps up-Frame (at-Setups IsSetUp j Update-IsSetUp) j _)
            (λ _.
              plain-Keeps up-Frame (at-Setups IsSetUp j Update-IsSetUp) j _
                (λ x. (refl, refl, refl, refl)))))
  setup_kind-Completes h p wants_tcp =
      completes
        (update-At IsCast IsSetUp j _
          (λ x u. record { control = u.control; cast = u.cast; carried = refl }))
        (λ _.
          bind up-Frame (require-Keeps up-Frame 400 _)
            (λ c. set_channels-Keeps up-Frame (at-Setups IsSetUp j Update-IsSetUp) j _))
  setup_kind-Completes h p wants_other = reject-Keeps up-Frame (Completes IsCast j) 400

  lost_session-Completes : (w : Wanted) → Keeps (Completes HasTrack j) Anything (lost_session w)
  unfolding lost_session
  lost_session-Completes wants_udp = never
  lost_session-Completes wants_tcp = never
  lost_session-Completes wants_other = reject-Keeps up-Frame (Completes HasTrack j) 400

  setup_transport-Completes :
      (h : Host) → Keeps (Completes HasTrack j) Anything (setup_transport h j)
  unfolding setup_transport
  setup_transport-Completes h = completes (request_text-Keeps (at-Frame HasTrack j)) (λ text.
      completes (require-Keeps (at-Frame HasTrack j) 400 _) (λ p.
        completes
          (transport_words-Keeps (at-Frame HasTrack j) (at-Setups HasTrack j Update-HasTrack) p)
          (λ t.
            if-Keeps up-Frame _
              (completes (update-At HasTrack IsCast j _ IsCast-track)
                (λ _. setup_kind-Completes h p _))
              (lost_session-Completes _))))

-- The part of setup behind the choice of a session.
setup_tail-Yields :
    (h : Host) (j : ℕ) (f : Session → Session) (s : State)
    → ((x : Session)
        → ((f x).cur_state ≡ x.cur_state)
          × ((f x).control_id ≡ x.control_id)
          × ((f x).transport_type ≡ x.transport_type)
          × ((f x).unicast ≡ x.unicast))
    → At HasTrack j s
    → Yields (At IsSetUp) (
        (setup_transport h j >>= λ _.
        setup_id h j >>= λ _. update_session j f >>= λ _. setup_reply h j >>= λ _. pure j)
          s)
unfolding pure
setup_tail-Yields h j f s plain a =
    yields_bind _ _ s (keeps_yields s (setup_transport-Completes j h) a) (λ _ t b.
      yields_bind _ _ t (keeps_yields t (setup_id-Keeps (up-Frame j) kept h j) b) (λ _ t' b'.
        yields_bind _ _ t' (keeps_yields t' (plain-Keeps (up-Frame j) kept j f plain) b')
          (λ _ u b''.
            yields_bind _ _ u (keeps_yields u (setup_reply-Keeps (up-Frame j) kept h j) b'')
              (λ _ u' c. yields c))))
  where
    kept : Setups (KeepsAt IsSetUp j) Anything
    kept = at-Setups IsSetUp j Update-IsSetUp

-- Where SETUP succeeds, the session that it returns is set up: it has the control id of the track, is
-- cast to one, and has a transport.
pub setup-IsSetUp : (h : Host) (i : ℕ) (s : State) → Yields (At IsSetUp) (setup h i s)
unfolding setup
setup-IsSetUp h i s = yields_bind _ _ s (any_yields _) (λ l t _.
    yields_bind _ _ t (any_yields _) (λ object t' _. yields_bind _ _ t' (any_yields _) (λ _ u _.
      yields_bind _ _ u (any_yields _) (λ control u' _.
        yields_bind _ _ u' (choose_session-Yields i control u') (λ j v a.
          elim (Bool-cases (str_eq control rtsp_control_id_0)) [
            | inl same ↦
                rw
                  (bind_ret (demand 404 (str_eq control rtsp_control_id_0)) _ v tt v
                    (demand-true v 404 _ same))
                  (setup_tail-Yields h j _ v (λ x. (refl, refl, refl, refl))
                    (a.0, a.1, Has-HasTrack control a.0 same a.2))
            | inr other ↦
                rw
                  (bind_stop (demand 404 (str_eq control rtsp_control_id_0)) _ v _
                    (demand-false v 404 _ other))
                  stopped
          ])))))
