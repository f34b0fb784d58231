-- ===== src/Rtsp/Frames/Setup.antt =====
-- RTSP_SETUP composes to the relations of a frame that allow for what it changes in sessions.
pub mod Changes
use rtsp_server.Base.{
  ℕ, ◌<◌, ◌≡◌, refl, true, false, [], ◌∷◌, ◌++◌, Option, none, some, arith, length, ltb, ◌==◌,
  codes, length-append, get_elem?, set, Option-cases, inl, inr, Bool-cases, ==_iff,
}
use rtsp_server.Rtsp.Text.{Bytes, strstr}
use rtsp_server.Rtsp.Host.{Host}
use rtsp_server.Rtsp.Connection.{
  over_tcp, over_udp, Session, State, cleared_session, ◌>>=◌, pure, break, crash, modify,
  the_buffer, within, ret, fault, session_at, update_session,
}
use rtsp_server.Rtsp.Connection.Steps.{
  Relation, Keeps, Frame, with_sessions, update_session-some, update_session-none, rets, stops,
  faults, bind, last, more, pure-Keeps, the_buffer-Keeps, crash-Keeps, within-Keeps, require-Keeps,
  demand-Keeps, reject-Keeps, session_at-Keeps, answer-Keeps, if-Keeps, option-Keeps,
}
use rtsp_server.Rtsp.Request.{ok_head}
use rtsp_server.Rtsp.Frames.{
  request_text-Keeps, first_line-Keeps, object_of-Keeps, stays_inside-Keeps, demand_file-Keeps,
  reply_head_bytes,
}
use rtsp_server.Rtsp.Setup.{
  choose_session, add_session, last_with, transport_words, set_client_ports, setup_udp,
  set_channels, setup_tcp, Wanted, wants_udp, wants_tcp, wants_other, setup_kind, lost_session,
  setup_transport, setup_id, has_transport, setup_text, setup_reply, setup,
}
use rtsp_server.Rtsp.Setup.Objects.{
  live_control, inner_control, outer_control, file_control, control_of,
}
pub use rtsp_server.Rtsp.Frames.Setup.Changes.{
  Update, names, casts, udp, tcp, others, Setups, choose_fault, choose_long, choose_named,
  choose_other, choose_found,
}

setup_text_bytes : (h : Host) (seq : ℕ) (x : Session) → 0 < length (setup_text h seq x)
unfolding setup_text ok_head
setup_text_bytes h seq x = omega (arith, length-append {0} {A = ℕ}, reply_head_bytes 200 seq [])

module _ {R F E : Relation} (frame : Frame R F E) (setups : Setups R E) where
  open setups use {silent, updated, appended}

  pub update-Keeps :
      (i : ℕ) (f : Session → Session)
      → ((x : Session) → Update x (f x))
      → Keeps R E (update_session i f)
  update-Keeps i f h = record {
    apply = λ s. elim (Option-cases (get_elem? s.buffer.session_list i)) [
      | inl e ↦ rw (update_session-none s i f e) faults
      | inr (x, e) ↦ rw (update_session-some s i f x e) (rets (updated s i x (f x) e (h x)))
    ];
  }

  live_control-Keeps : (object : Bytes) → Keeps R E (live_control object)
  unfolding live_control
  live_control-Keeps object =
      bind frame (require-Keeps frame 404 _)
        (λ slash. bind frame (demand-Keeps frame 404 _) (λ _. pure-Keeps frame _))

  inner_control-Keeps : (h : Host) (object dot : Bytes) → Keeps R E (inner_control h object dot)
  unfolding inner_control
  inner_control-Keeps h object dot = bind frame (require-Keeps frame 400 _) (λ sc.
      bind frame (demand-Keeps frame 415 _) (λ _.
        bind frame (require-Keeps frame 404 _)
          (λ slash. bind frame (demand_file-Keeps frame h _) (λ _. pure-Keeps frame _))))

  outer_control-Keeps : (h : Host) (object dot c : Bytes) → Keeps R E (outer_control h object dot c)
  unfolding outer_control
  outer_control-Keeps h object dot c = bind frame (demand-Keeps frame 415 _) (λ _.
      bind frame (require-Keeps frame 400 _)
        (λ n. bind frame (demand_file-Keeps frame h _) (λ _. pure-Keeps frame _)))

  pub control_of-Keeps :
      (h : Host) (object : Bytes) (given : Option Bytes) → Keeps R E (control_of h object given)
  unfolding control_of file_control
  control_of-Keeps h object given = if-Keeps frame _ (live_control-Keeps object) (
      bind frame (require-Keeps frame 404 _) (λ dot.
        option-Keeps frame given (inner_control-Keeps h object dot)
          (λ c. outer_control-Keeps h object dot c)))

  add_session-Keeps : (control : Bytes) → Keeps R E (add_session control)
  unfolding add_session modify
  add_session-Keeps control = bind frame (the_buffer-Keeps frame) (λ b.
      bind frame (within-Keeps frame _) (λ _. bind frame appended-Keeps (λ _. pure-Keeps frame _)))
    where
      appended-Keeps : Keeps R E (
          modify
            (λ b'. record b' { session_list = b'.session_list ++ (cleared_session control ∷ []) }))
      appended-Keeps = record { apply = λ s. rets (appended s control) }

  pub transport_words-Keeps : (p : Bytes) → Keeps R E (transport_words p)
  unfolding transport_words
  transport_words-Keeps p = bind frame (require-Keeps frame 400 _) (λ r.
      bind frame (require-Keeps frame 400 _) (λ t. bind frame (within-Keeps frame _) (λ _.
        bind frame (require-Keeps frame 400 _) (λ r'.
          bind frame (require-Keeps frame 400 _)
            (λ c. bind frame (within-Keeps frame _) (λ _. pure-Keeps frame _))))))

  -- An update that touches none of the four fields that the relations speak of.
  pub plain-Keeps :
      (i : ℕ) (f : Session → Session)
      → ((x : Session)
          → ((f x).cur_state ≡ x.cur_state)
            × ((f x).control_id ≡ x.control_id)
            × ((f x).transport_type ≡ x.transport_type)
            × ((f x).unicast ≡ x.unicast))
      → Keeps R E (update_session i f)
  plain-Keeps i f h = update-Keeps i f (λ x. let (a, b, c, d) = h x in others (f x) a b c d)

  pub break-Keeps : {A : Type 0} (Q : Relation) → Keeps Q E (break {A = A})
  unfolding break
  break-Keeps Q = record { apply = λ s. stops (silent s) }

  pub set_client_ports-Keeps :
      (i : ℕ) (pair : Option (ℕ × Option ℕ)) → Keeps R E (set_client_ports i pair)
  unfolding set_client_ports
  set_client_ports-Keeps i none = break-Keeps R
  set_client_ports-Keeps i (some (n, none)) =
      bind frame (plain-Keeps i _ (λ x. (refl, refl, refl, refl))) (λ _. break-Keeps R)
  set_client_ports-Keeps i (some (n, some m)) = plain-Keeps i _ (λ x. (refl, refl, refl, refl))

  pub set_channels-Keeps : (i : ℕ) (pair : Option (ℕ × Option ℕ)) → Keeps R E (set_channels i pair)
  unfolding set_channels
  set_channels-Keeps i none = reject-Keeps frame R 400
  set_channels-Keeps i (some (n, none)) =
      bind frame (plain-Keeps i _ (λ x. (refl, refl, refl, refl))) (λ _. reject-Keeps frame R 400)
  set_channels-Keeps i (some (n, some m)) = plain-Keeps i _ (λ x. (refl, refl, refl, refl))

  setup_kind-Keeps : (h : Host) (i : ℕ) (p : Bytes) (w : Wanted) → Keeps R E (setup_kind h i p w)
  unfolding setup_kind setup_udp setup_tcp
  setup_kind-Keeps h i p wants_udp = bind frame (update-Keeps i _ (λ x. udp)) (λ _.
      bind frame (require-Keeps frame 400 _) (λ c.
        bind frame (set_client_ports-Keeps i _)
          (λ _. plain-Keeps i _ (λ x. (refl, refl, refl, refl)))))
  setup_kind-Keeps h i p wants_tcp =
      bind frame (update-Keeps i _ (λ x. tcp))
        (λ _. bind frame (require-Keeps frame 400 _) (λ c. set_channels-Keeps i _))
  setup_kind-Keeps h i p wants_other = reject-Keeps frame R 400

  lost_session-Keeps : (w : Wanted) → Keeps R E (lost_session w)
  unfolding lost_session
  lost_session-Keeps wants_udp = crash-Keeps frame
  lost_session-Keeps wants_tcp = crash-Keeps frame
  lost_session-Keeps wants_other = reject-Keeps frame R 400

  pub setup_transport-Keeps : (h : Host) (i : ℕ) → Keeps R E (setup_transport h i)
  unfolding setup_transport
  setup_transport-Keeps h i = bind frame (request_text-Keeps frame) (λ text.
      bind frame (require-Keeps frame 400 _) (λ p. bind frame (transport_words-Keeps p) (λ t.
        if-Keeps frame _
          (bind frame (update-Keeps i _ (λ x. casts)) (λ _. setup_kind-Keeps h i p _))
          (lost_session-Keeps _))))

  pub setup_id-Keeps : (h : Host) (i : ℕ) → Keeps R E (setup_id h i)
  unfolding setup_id
  setup_id-Keeps h i = bind frame (request_text-Keeps frame) (λ text.
      option-Keeps frame (strstr text (codes "Session"))
        (plain-Keeps i _ (λ x. (refl, refl, refl, refl)))
        (λ p. bind frame (demand-Keeps frame 454 _) (λ _. crash-Keeps frame)))

  choose_session-Keeps : (i : ℕ) (c : Bytes) → Keeps R E (choose_session i c)
  choose_session-Keeps i c = record {
    apply = λ s. elim (Option-cases (get_elem? s.buffer.session_list i)) [
      | inl e ↦ rw (choose_fault i c s e) faults
      | inr (x, e) ↦ elim (Bool-cases (length x.control_id == 0)) [
        | inl empty ↦ elim (Bool-cases (ltb (length c) 128)) [
          | inl fits ↦
              rw (choose_named i c s x e empty fits)
                (rets (updated s i x _ e (names c ((==_iff _ 0).0 empty))))
          | inr long ↦ rw (choose_long i c s x e empty long) faults
        ]
        | inr full ↦ elim (Option-cases (last_with c 0 s.buffer.session_list)) [
          | inl e' ↦ rw (choose_other i c s x e full e') ((add_session-Keeps c).apply s)
          | inr (j, e') ↦
              rw (choose_found i c s x e j full e')
                (rets (frame.quiet s s (refl, refl, refl, refl)))
        ]
      ]
    ];
  }

  pub setup_reply-Keeps : (h : Host) (i : ℕ) → Keeps F E (setup_reply h i)
  unfolding setup_reply
  setup_reply-Keeps h i = last frame (the_buffer-Keeps frame) (λ b.
      last frame (session_at-Keeps frame i) (λ x.
        if-Keeps frame (has_transport x.transport_type)
          (answer-Keeps frame 4096 (setup_text h b.rtsp_seq x) (omega arith)
            (setup_text_bytes h b.rtsp_seq x))
          (break-Keeps F)))

  pub setup-Keeps : (h : Host) (i : ℕ) → Keeps F E (setup h i)
  unfolding setup
  setup-Keeps h i = last frame (first_line-Keeps frame) (λ l.
      last frame (object_of-Keeps frame l.0) (λ object.
        last frame (stays_inside-Keeps frame object) (λ _.
          last frame (control_of-Keeps h object _) (λ control.
            last frame (choose_session-Keeps i control) (λ j.
              last frame (demand-Keeps frame 404 _) (λ _.
                last frame (setup_transport-Keeps h j) (λ _. last frame (setup_id-Keeps h j) (λ _.
                  last frame (plain-Keeps j _ (λ x. (refl, refl, refl, refl)))
                    (λ _. more frame (setup_reply-Keeps h j) (λ _. pure-Keeps frame j))))))))))
