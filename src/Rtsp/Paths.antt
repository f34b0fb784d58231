-- ===== src/Rtsp/Paths.antt =====
-- What the small steps of the handlers give, where it is known what they read; and objects that lead
-- out of the directory of the server.
pub mod Outside
use rtsp_server.Base.{
  ℕ, ◌<◌, ◌≡◌, refl, ◌∙◌, inl, inr, Bool, true, false, [], ◌∷◌, ◌++◌, Option, some, arith, length,
  lt→ltb, codes, Bool-cases, if◌then◌else◌,
}
use rtsp_server.Rtsp.Text.{Bytes, c_string, occurs}
use rtsp_server.Rtsp.Url.{Url, parse_url}
use rtsp_server.Rtsp.Host.{Host}
use rtsp_server.Rtsp.Connection.{
  M, Buffer, sends, State, ret, stop, ◌>>=◌, pure, break, the_buffer, modify, perform, within,
  rtsp_el, reply_head, send_err_reply, reject, require, demand,
}
use rtsp_server.Rtsp.Connection.Steps.{bind_ret, bind_stop}
use rtsp_server.Rtsp.Request.{request_text, second_word, object_of, stays_inside, is_live}
use rtsp_server.Rtsp.Describe.{describe}
use rtsp_server.Rtsp.Pause.{check_object, check_file}
use rtsp_server.Rtsp.Play.{play_file}

-- The state after one error reply.
unfoldable pub refused : ℕ → State → State
refused err s = record s {
  log =
      s.log
      ++ (sends s.buffer.sock_id (reply_head err s.buffer.rtsp_seq ++ (rtsp_el ++ rtsp_el)) ∷ []);
}

module _ (s : State) where
  pub reject_lem : {A : Type 0} (err : ℕ) → reject {A = A} err s ≡ stop (refused err s)
  unfolding reject send_err_reply refused ◌>>=◌ the_buffer perform break
  reject_lem err = refl

  pub demand-true : (err : ℕ) (b : Bool) → b ≡ true → demand err b s ≡ ret tt s
  unfolding demand pure
  demand-true err b e = ground arith

  pub demand-false : (err : ℕ) (b : Bool) → b ≡ false → demand err b s ≡ stop (refused err s)
  unfolding demand
  demand-false err b e = rw e (reject_lem err)

  pub require-some :
      {A : Type 0} (err : ℕ) (o : Option A) (a : A) → o ≡ some a → require err o s ≡ ret a s
  unfolding require pure
  require-some err o a e = ground arith

  pub object_of_lem :
      (url : Bytes) (u : Url) → parse_url url ≡ some u → object_of url s ≡ ret u.filename s
  unfolding object_of pure
  object_of_lem url u e = bind_ret _ _ s u s (require-some 500 _ u e) ∙ refl

  pub within_true : (b : Bool) → b ≡ true → within b s ≡ ret tt s
  unfolding within pure
  within_true b e = ground arith

  pub pure_lem : {A : Type 0} (a : A) → pure a s ≡ ret a s
  unfolding pure
  pure_lem a = refl

  pub modify_lem : (f : Buffer → Buffer) → modify f s ≡ ret tt (record s { buffer = f s.buffer })
  unfolding modify
  modify_lem f = refl

  -- The text of a request that ends within the array.
  pub request_text_lem :
      length (c_string s.buffer.in_buffer) < length s.buffer.in_buffer
      → request_text s ≡ ret (c_string s.buffer.in_buffer) s
  unfolding request_text ◌>>=◌ the_buffer within pure
  request_text_lem h = rw (lt→ltb _ _ h) refl

  pub stays_inside_lem :
      (object : Bytes)
      → occurs object (codes "./") ≡ true
      → stays_inside object s ≡ stop (refused 403 s)
  unfolding stays_inside
  stays_inside_lem object e = elim (Bool-cases (occurs object (codes "../"))) [
    | inl up ↦ bind_stop _ _ s (refused 403 s) (demand-false 403 _ (rw up refl))
    | inr no_up ↦
        bind_ret _ _ s tt s (demand-true 403 _ (rw no_up refl)) ∙ demand-false 403 _ (rw e refl)
  ]
