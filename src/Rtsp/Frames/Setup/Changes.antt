-- ===== src/Rtsp/Frames/Setup/Changes.antt =====
-- RTSP_SETUP.cpp: what it changes in sessions, and the session that it chooses.
use rtsp_server.Base.{
  ℕ, ◌≡◌, true, false, [], ◌∷◌, ◌++◌, none, some, arith, length, ltb, ◌==◌, get_elem?, set,
}
use rtsp_server.Rtsp.Text.{Bytes}
use rtsp_server.Rtsp.Connection.{
  over_tcp, over_udp, Session, State, cleared_session, ◌>>=◌, pure, crash, modify, the_buffer,
  within, ret, fault, session_at, update_session,
}
use rtsp_server.Rtsp.Connection.Steps.{Relation, with_sessions}
use rtsp_server.Rtsp.Setup.{choose_session, add_session, last_with}

-- What SETUP makes of a session, in one step.
pub data Update (x : Session) : Session → Type 0 where
  names : (c : Bytes) → length x.control_id ≡ 0 → Update x (record x { control_id = c })
  casts : Update x (record x { unicast = true })
  udp : Update x (record x { transport_type = over_udp })
  tcp : Update x (record x { transport_type = over_tcp })
  others :
      (y : Session)
      → y.cur_state ≡ x.cur_state
      → y.control_id ≡ x.control_id
      → y.transport_type ≡ x.transport_type
      → y.unicast ≡ x.unicast
      → Update x y

pub record Setups (R E : Relation) : Type 0 where
  pub silent : (s : State) → E s s
  pub updated :
      (s : State) (i : ℕ) (x y : Session)
      → get_elem? s.buffer.session_list i ≡ some x
      → Update x y
      → R s (with_sessions s (set s.buffer.session_list i y))
  pub appended :
      (s : State) (c : Bytes)
      → R s (with_sessions s (s.buffer.session_list ++ (cleared_session c ∷ [])))

-- What choose_session comes to on its branches.
module _ (i : ℕ) (c : Bytes) (s : State) where
  pub choose_fault : get_elem? s.buffer.session_list i ≡ none → choose_session i c s ≡ fault
  unfolding choose_session session_at ◌>>=◌
  choose_fault e = ground arith

  module _ (x : Session) (e : get_elem? s.buffer.session_list i ≡ some x) where
    pub choose_long :
        (length x.control_id == 0) ≡ true
        → ltb (length c) 128 ≡ false
        → choose_session i c s ≡ fault
    unfolding choose_session session_at ◌>>=◌ the_buffer within crash
    choose_long empty long = ground arith

    pub choose_named :
        (length x.control_id == 0) ≡ true
        → ltb (length c) 128 ≡ true
        → choose_session i c s
          ≡ ret i (with_sessions s (set s.buffer.session_list i (record x { control_id = c })))
    unfolding choose_session session_at ◌>>=◌ the_buffer within update_session modify pure
    choose_named empty fits = ground arith

    pub choose_other :
        (length x.control_id == 0) ≡ false
        → last_with c 0 s.buffer.session_list ≡ none
        → choose_session i c s ≡ add_session c s
    unfolding choose_session session_at ◌>>=◌ the_buffer
    choose_other full e' = ground arith

    pub choose_found :
        (j : ℕ)
        → (length x.control_id == 0) ≡ false
        → last_with c 0 s.buffer.session_list ≡ some j
        → choose_session i c s ≡ ret j s
    unfolding choose_session session_at ◌>>=◌ the_buffer pure
    choose_found j full e' = ground arith
