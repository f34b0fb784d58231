-- ===== src/Rtsp/Frames.antt =====
-- The handlers compose to the relations of a frame.
pub mod Setup
use rtsp_server.Base.{
  ℕ, ◌+◌, ◌<◌, ◌≤◌, ◌≡◌, refl, Bool, true, false, not, List, [], ◌∷◌, ◌++◌, ◌-◌, Option, none, some,
  arith, if◌then◌else◌, length, ltb, leb, ◌==◌, codes, length-append, take,
}
use rtsp_server.Rtsp.Text.{
  Bytes, c_string, strstr, occurs, scan_until, scan_word, last_from, scan_int, decimal,
}
use rtsp_server.Rtsp.Url.{parse_url}
use rtsp_server.Rtsp.Host.{Host}
use rtsp_server.Rtsp.Connection.{
  Buffer, Session, State, M, ◌>>=◌, ◌>>◌, pure, reply_head, rtsp_el, answer, stream_file, break,
  token_text, id_text,
}
use rtsp_server.Rtsp.Connection.Steps.{
  Relation, Keeps, Frame, bind, last, more, pure-Keeps, the_buffer-Keeps, modify-Keeps, adds-Keeps,
  executes-Keeps, crash-Keeps, within-Keeps, require-Keeps, demand-Keeps, session_at-Keeps,
  answer-Keeps, if-Keeps, option-Keeps, stops,
}
use rtsp_server.Rtsp.Request.{
  request_text, word_after, session_word, read_cseq, object_of, first_line, stays_inside,
  without_slash, demand_file, ok_head,
}
use rtsp_server.Rtsp.Options.{options, options_reply, or_break, three_words, url_fits}
use rtsp_server.Rtsp.Describe.{
  describe, describe_reply, describe_live, describe_file, accepts_sdp, or_crash, stream_name,
}
use rtsp_server.Rtsp.Pause.{pause, pause_reply, session_reply, check_file, check_object}
use rtsp_server.Rtsp.Teardown.{teardown, teardown_reply, read_cseq_text, check_session}
use rtsp_server.Rtsp.Play.{
  play, play_reply, play_live, play_file, times, read_range, read_npt, read_clock, behind_colon,
  demand_session, rtp_infos,
}

-- Head and tail of a reply, which has a byte.
pub reply_head_bytes : (err seq : ℕ) (s : Bytes) → 0 < length (reply_head err seq ++ s)
unfolding reply_head
reply_head_bytes err seq s = omega arith

module _ {R F E : Relation} (frame : Frame R F E) where
  pub request_text-Keeps : Keeps R E request_text
  unfolding request_text
  request_text-Keeps =
      bind frame (the_buffer-Keeps frame)
        (λ b. bind frame (within-Keeps frame _) (λ _. pure-Keeps frame _))

  pub session_word-Keeps : (room : ℕ) (p : Bytes) → Keeps R E (session_word room p)
  unfolding session_word
  session_word-Keeps room p =
      bind frame (require-Keeps frame 454 _)
        (λ word. bind frame (within-Keeps frame _) (λ _. pure-Keeps frame _))

  read_cseq-Keeps : Keeps R E read_cseq
  unfolding read_cseq
  read_cseq-Keeps = bind frame request_text-Keeps (λ text.
      bind frame (require-Keeps frame 400 _) (λ p. bind frame (require-Keeps frame 400 _) (λ w.
        bind frame (require-Keeps frame 400 _)
          (λ n. modify-Keeps frame _ (λ s. (refl, refl, refl, refl))))))

  pub object_of-Keeps : (url : Bytes) → Keeps R E (object_of url)
  unfolding object_of
  object_of-Keeps url = bind frame (require-Keeps frame 500 _) (λ u. pure-Keeps frame _)

  pub stays_inside-Keeps : (object : Bytes) → Keeps R E (stays_inside object)
  unfolding stays_inside
  stays_inside-Keeps object = bind frame (demand-Keeps frame 403 _) (λ _. demand-Keeps frame 403 _)

  pub first_line-Keeps : Keeps R E first_line
  unfolding first_line
  first_line-Keeps = bind frame request_text-Keeps (λ text.
      bind frame (require-Keeps frame 400 _) (λ l. bind frame (within-Keeps frame _) (λ _.
        bind frame (require-Keeps frame 400 _) (λ m.
          bind frame (require-Keeps frame 400 _)
            (λ u. bind frame (require-Keeps frame 400 _) (λ w. pure-Keeps frame _))))))

  pub or_crash-Keeps : {A : Type 0} (o : Option A) → Keeps R E (or_crash o)
  unfolding or_crash
  or_crash-Keeps none = crash-Keeps frame
  or_crash-Keeps (some a) = pure-Keeps frame a

  without_slash-Keeps : (object : Bytes) → Keeps R E (without_slash object)
  unfolding without_slash
  without_slash-Keeps object = if-Keeps frame (length object == 0) (crash-Keeps frame) (
      option-Keeps frame (last_from (length object - 1) b'/' object) (pure-Keeps frame _)
        (λ slash. pure-Keeps frame _))

  pub demand_file-Keeps : (h : Host) (name : Bytes) → Keeps R E (demand_file h name)
  unfolding demand_file
  demand_file-Keeps h name = demand-Keeps frame 404 _

  check_object-Keeps : (h : Host) (object : Bytes) → Keeps R E (check_object h object)
  unfolding check_object check_file
  check_object-Keeps h object = if-Keeps frame _ (pure-Keeps frame tt) (
      bind frame (stays_inside-Keeps object)
        (λ _. bind frame (without_slash-Keeps object) (λ name. demand_file-Keeps h name)))

  or_break-Keeps : {A : Type 0} (o : Option A) → ((s : State) → E s s) → Keeps R E (or_break o)
  unfolding or_break break
  or_break-Keeps none silent = record { apply = λ s. stops (silent s) }
  or_break-Keeps (some a) silent = pure-Keeps frame a

  -- OPTIONS stops with no reply where the request has no three words.
  pub options-Keeps : ((s : State) → E s s) → Keeps F E options
  unfolding options options_reply
  options-Keeps silent = last frame read_cseq-Keeps (λ _. last frame request_text-Keeps (λ text.
      last frame (within-Keeps frame (url_fits text)) (λ _.
        last frame (or_break-Keeps (three_words text) silent) (λ words.
          last frame (the_buffer-Keeps frame)
            (λ b. answer-Keeps frame 1024 _ (omega arith) (reply_head_bytes 200 b.rtsp_seq _))))))

  describe_reply-Keeps :
      (h : Host) (object descr : Bytes) → Keeps F E (describe_reply h object descr)
  unfolding describe_reply
  describe_reply-Keeps h object descr = last frame (the_buffer-Keeps frame) (λ b.
      last frame request_text-Keeps (λ text.
        last frame (require-Keeps frame 400 _)
          (λ url. answer-Keeps frame 4096 _ (omega arith) (reply_head_bytes 200 b.rtsp_seq _))))

  describe_live-Keeps : (h : Host) (object : Bytes) → Keeps F E (describe_live h object)
  unfolding describe_live
  describe_live-Keeps h object = last frame (or_crash-Keeps _) (λ name.
      last frame (demand-Keeps frame 404 _)
        (λ _. last frame (require-Keeps frame 404 _) (λ sdp. describe_reply-Keeps h object sdp)))

  describe_file-Keeps : (h : Host) (object : Bytes) → Keeps F E (describe_file h object)
  unfolding describe_file
  describe_file-Keeps h object =
      last frame (demand_file-Keeps h object)
        (λ _. last frame (require-Keeps frame 404 _) (λ descr. describe_reply-Keeps h object descr))

  accepts_sdp-Keeps : (text : Bytes) → Keeps R E (accepts_sdp text)
  unfolding accepts_sdp
  accepts_sdp-Keeps text =
      bind frame (demand-Keeps frame 551 _)
        (λ _. if-Keeps frame _ (demand-Keeps frame 551 _) (pure-Keeps frame tt))

  pub describe-Keeps : (h : Host) → Keeps F E (describe h)
  unfolding describe
  describe-Keeps h = last frame request_text-Keeps (λ text.
      last frame (require-Keeps frame 400 _) (λ url. last frame (object_of-Keeps url) (λ object.
        last frame (stays_inside-Keeps object) (λ _. last frame (demand-Keeps frame 415 _) (λ _.
          last frame (accepts_sdp-Keeps text) (λ _. last frame read_cseq-Keeps (λ _.
            if-Keeps frame _ (describe_live-Keeps h object) (describe_file-Keeps h object))))))))

  session_reply-Keeps :
      (h : Host) (i : ℕ) (head : Bytes)
      → ((s : Bytes) → 0 < length (head ++ s))
      → Keeps F E (session_reply h i head)
  unfolding session_reply ok_head
  session_reply-Keeps h i head some_byte =
      last frame (session_at-Keeps frame i)
        (λ x. answer-Keeps frame 4096 _ (omega arith) (appended (id_text x)))
    where
      appended :
          (id : Bytes)
          → 0
            < length
                (ok_head h head (codes "/") ++ (codes "Session: " ++ (id ++ (rtsp_el ++ rtsp_el))))
      appended id = omega (arith, length-append {0} {A = ℕ}, some_byte [])

  pub pause-Keeps : (h : Host) (i : ℕ) → Keeps F E (pause h i)
  unfolding pause pause_reply
  pause-Keeps h i = last frame first_line-Keeps (λ l. last frame (object_of-Keeps l.0) (λ object.
      last frame (check_object-Keeps h object) (λ _. last frame (session_at-Keeps frame i) (λ x.
        last frame (modify-Keeps frame _ (λ s. (refl, refl, refl, refl))) (λ _.
          last frame (executes-Keeps frame _) (λ _. last frame (the_buffer-Keeps frame) (λ b.
            session_reply-Keeps h i (reply_head 200 b.rtsp_seq)
              (reply_head_bytes 200 b.rtsp_seq))))))))

  pub read_cseq_text-Keeps : Keeps R E read_cseq_text
  unfolding read_cseq_text
  read_cseq_text-Keeps = bind frame request_text-Keeps (λ text.
      bind frame (require-Keeps frame 400 _) (λ p. bind frame (require-Keeps frame 400 _) (λ w.
        bind frame (within-Keeps frame _)
          (λ _. modify-Keeps frame _ (λ s. (refl, refl, refl, refl))))))

  check_session-Keeps : Keeps R E check_session
  unfolding check_session
  check_session-Keeps = bind frame request_text-Keeps (λ text.
      option-Keeps frame (strstr text (codes "Session")) (pure-Keeps frame tt)
        (λ p. bind frame (session_word-Keeps 65 p) (λ w. pure-Keeps frame tt)))

  pub teardown-Keeps : (h : Host) (i : ℕ) → Keeps F E (teardown h i)
  unfolding teardown teardown_reply
  teardown-Keeps h i = last frame read_cseq_text-Keeps (λ _. last frame request_text-Keeps (λ text.
      last frame (or_crash-Keeps _) (λ url. last frame (object_of-Keeps url) (λ object.
        last frame (check_object-Keeps h object) (λ _. last frame check_session-Keeps (λ _.
          more frame
            (last frame (the_buffer-Keeps frame) (λ b.
              session_reply-Keeps h i
                (codes "RTSP/1.0 200 "
                  ++ (token_text 200 ++ (rtsp_el ++ (codes "CSeq: " ++ decimal b.rtsp_seq))))
                (λ s. omega arith)))
            (λ _. bind frame (the_buffer-Keeps frame) (λ b. adds-Keeps frame _))))))))

  behind_colon-Keeps : (s : Bytes) → Keeps R E (behind_colon s)
  unfolding behind_colon
  behind_colon-Keeps s = bind frame (or_crash-Keeps _) (λ q. pure-Keeps frame _)

  read_clock-Keeps : (h : Host) (p : Bytes) → Keeps R E (read_clock h p)
  unfolding read_clock
  read_clock-Keeps h p = bind frame (behind_colon-Keeps p) (λ hour.
      bind frame (behind_colon-Keeps hour)
        (λ minute. bind frame (behind_colon-Keeps minute) (λ second. pure-Keeps frame _)))

  read_npt-Keeps : (h : Host) (q : Bytes) → Keeps R E (read_npt h q)
  unfolding read_npt
  read_npt-Keeps h q = bind frame (require-Keeps frame 400 _) (λ q'.
      bind frame (require-Keeps frame 400 _)
        (λ start. bind frame (require-Keeps frame 400 _) (λ q''. pure-Keeps frame _)))

  read_range-Keeps : (h : Host) (p : Bytes) → Keeps R E (read_range h p)
  unfolding read_range
  read_range-Keeps h p =
      option-Keeps frame (strstr p (codes "npt"))
        (option-Keeps frame (strstr p (codes "smpte"))
          (option-Keeps frame (strstr p (codes "clock"))
            (option-Keeps frame (strstr p (codes "time")) (read_clock-Keeps h p)
              (λ q. pure-Keeps frame _))
            (λ q. pure-Keeps frame _))
          (λ q. pure-Keeps frame _))
        (read_npt-Keeps h)

  pub times-Keeps : (h : Host) → Keeps R E (times h)
  unfolding times
  times-Keeps h = bind frame request_text-Keeps (λ text.
      option-Keeps frame (strstr text (codes "Range")) (pure-Keeps frame _) (read_range-Keeps h))

  pub demand_session-Keeps : Keeps R E demand_session
  unfolding demand_session
  demand_session-Keeps = bind frame request_text-Keeps (λ text.
      bind frame (require-Keeps frame 400 _)
        (λ p. bind frame (session_word-Keeps 64 p) (λ w. pure-Keeps frame tt)))

  play_live-Keeps : (h : Host) (i : ℕ) (object : Bytes) → Keeps R E (play_live h i object)
  unfolding play_live
  play_live-Keeps h i object = bind frame (require-Keeps frame 403 _) (λ name.
      bind frame (demand-Keeps frame 404 _) (λ _.
        bind frame (modify-Keeps frame _ (λ s. (refl, refl, refl, refl))) (λ _.
          bind frame (the_buffer-Keeps frame)
            (λ b. bind frame (session_at-Keeps frame i) (λ x. adds-Keeps frame _)))))

  play_file-Keeps :
      (h : Host) (i : ℕ) (object : Bytes) (range : ℕ × ℕ) → Keeps R E (play_file h i object range)
  unfolding play_file
  play_file-Keeps h i object (start, end) = bind frame (stays_inside-Keeps object) (λ _.
      bind frame (demand-Keeps frame 400 _) (λ _.
        bind frame (modify-Keeps frame _ (λ s. (refl, refl, refl, refl))) (λ _.
          bind frame (the_buffer-Keeps frame)
            (λ b. bind frame (session_at-Keeps frame i) (λ x. adds-Keeps frame _)))))

  play_reply-Keeps : (h : Host) (object : Bytes) (i : ℕ) → Keeps F E (play_reply h object i)
  unfolding play_reply ok_head
  play_reply-Keeps h object i = last frame (the_buffer-Keeps frame) (λ b.
      last frame (session_at-Keeps frame i)
        (λ x. answer-Keeps frame 4096 _ (omega arith) (appended b x)))
    where
      appended :
          (b : Buffer) (x : Session)
          → 0
            < length (
                ok_head h (reply_head 200 b.rtsp_seq) []
                ++ (codes "Session: "
                    ++ (id_text x
                        ++ (rtsp_el
                            ++ (rtp_infos h object false b.session_list ++ (rtsp_el ++ rtsp_el))))))
      appended b x = omega (arith, length-append {0} {A = ℕ}, reply_head_bytes 200 b.rtsp_seq [])

  pub play-Keeps : (h : Host) (i : ℕ) → Keeps F E (play h i)
  unfolding play
  play-Keeps h i = last frame (times-Keeps h) (λ range. last frame demand_session-Keeps (λ _.
      last frame request_text-Keeps (λ text. last frame (require-Keeps frame 400 _) (λ url.
        last frame (object_of-Keeps url) (λ object.
          last frame
            (if-Keeps frame _ (play_live-Keeps h i object) (play_file-Keeps h i object range))
            (λ _. play_reply-Keeps h _ i))))))
