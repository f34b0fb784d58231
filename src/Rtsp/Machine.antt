-- ===== src/Rtsp/Machine.antt =====
-- RTSP_state_machine.cpp
pub mod Asked
pub mod Moves
pub mod Complete
pub mod Ready
pub mod Invariant
use rtsp_server.Base.{
  ℕ, ◌+◌, Bool, true, false, List, [], ◌∷◌, ◌++◌, Option, none, some, if◌then◌else◌, codes,
}
use rtsp_server.Rtsp.Text.{Bytes, str_eq, strstr}
use rtsp_server.Rtsp.Host.{Host}
use rtsp_server.Rtsp.Connection.{
  SessionState, init_stat, ready_stat, play_stat, Session, Buffer, send_resb_data, adds, M, ◌>>=◌,
  ◌>>◌, pure, the_buffer, perform, send_err_reply, session_at, update_session, rtsp_el, reply_head,
}
use rtsp_server.Rtsp.Request.{hdr_session, request_text, session_word}
use rtsp_server.Rtsp.Options.{options}
use rtsp_server.Rtsp.Describe.{describe, or_crash}
use rtsp_server.Rtsp.Setup.{setup}
use rtsp_server.Rtsp.Play.{play}
use rtsp_server.Rtsp.Pause.{pause}
use rtsp_server.Rtsp.Teardown.{teardown}

-- RTSP_CMD_STATE
pub data Method : Type 0 where
  bad_req describes announces get_parameters asks_options pauses plays : Method
  records redirects sets_up set_parameter tears_down : Method

-- The place of the first session with an id; `none` where strcmp is given a null pointer before.
unfoldable pub find_session : Bytes → ℕ → List Session → Option (Option ℕ)
unfolding str_eq
find_session id i [] = some none
find_session id i (x ∷ rest) =
    let later = find_session id (i + 1) rest in
    if x.id_is_null then none else if str_eq id x.session_id then some (some i) else later

-- The session of the Session header; the first one where there is no header, and where no session
-- has the id.
unfoldable pub select : M ℕ
unfolding request_text strstr session_word find_session or_crash
select = do
  text ← request_text
  elim (strstr text hdr_session) [
    | none ↦ pure 0
    | some s ↦ (do
      id ← session_word 64 s
      b ← the_buffer
      found ← or_crash (find_session id 0 b.session_list)
      pure (elim found [ none ↦ 0 | some i ↦ i ]))
  ]

-- pSession->cur_state = …
unfoldable pub set_state : SessionState → ℕ → M (Unit {0})
unfolding update_session
set_state c i = update_session i (λ x. record x { cur_state = c })

-- Every method of a session that is not set up.
unfoldable pub in_init : Host → ℕ → Method → M (Unit {0})
unfolding describe setup set_state teardown options send_err_reply
in_init h i describes = describe h
in_init h i sets_up = do j ← setup h i; set_state ready_stat j
in_init h i tears_down = teardown h i
in_init h i asks_options = do options; set_state init_stat i
in_init h i plays = send_err_reply 455
in_init h i pauses = send_err_reply 455
in_init h i _ = send_err_reply 501

unfoldable pub in_ready : Host → ℕ → Method → M (Unit {0})
unfolding play setup set_state teardown send_err_reply
in_ready h i plays = do play h i; set_state play_stat i
in_ready h i sets_up = do j ← setup h i; set_state ready_stat j
in_ready h i tears_down = teardown h i
in_ready h i _ = send_err_reply 501

-- The reply to OPTIONS goes to the source of the stream, under the first session's id.
unfoldable pub refuse_options : M (Unit {0})
unfolding reply_head session_at
refuse_options = do
  b ← the_buffer
  first ← session_at 0
  perform
      (adds (send_resb_data (reply_head 551 b.rtsp_seq ++ (rtsp_el ++ rtsp_el)) first.session_id))

unfoldable pub in_play : Host → ℕ → Method → M (Unit {0})
unfolding pause set_state teardown refuse_options
in_play h i asks_options = refuse_options
in_play h i pauses = do pause h i; set_state ready_stat i
in_play h i tears_down = teardown h i
in_play h i _ = pure tt

unfoldable pub dispatch : Host → ℕ → Method → SessionState → M (Unit {0})
unfolding in_init in_ready in_play
dispatch h i method init_stat = in_init h i method
dispatch h i method ready_stat = in_ready h i method
dispatch h i method play_stat = in_play h i method

-- RTSP_state_machine
unfoldable pub state_machine : Host → Method → M (Unit {0})
unfolding select session_at dispatch
state_machine h method = do
  i ← select
  session ← session_at i
  dispatch h i method session.cur_state
