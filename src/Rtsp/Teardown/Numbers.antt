-- ===== src/Rtsp/Teardown/Numbers.antt =====
-- The number that TEARDOWN reads from its CSeq header.
use rtsp_server.Base.{
  ℕ, ◌<◌, sym, codes, subst, append_assoc, ap, false, ◌≡◌, ◌≢◌, refl, ◌∙◌, Bool, true, not, ◌&&◌,
  [], ◌∷◌, ◌++◌, some, arith, length, ltb, ◌==◌, ==_refl, all_below, all_below_sound,
}
use rtsp_server.Tcp.Interleaved.{rtsp_buffer_size}
use rtsp_server.Rtsp.Text.{Bytes, c_string, strstr, decimal}
use rtsp_server.Rtsp.Connection.{
  State, ret, ◌>>=◌, the_buffer, perform, adds, stream_stop, within, modify, pure, crash,
  add_out_buffer, session_at, token_text, rtsp_el, answer, id_text,
}
use rtsp_server.Rtsp.Connection.Steps.{bind_ret}
use rtsp_server.Rtsp.Connection.Yields.{Yields, yields, crashed, yields_bind, any_yields}
use rtsp_server.Rtsp.Host.{Host}
use rtsp_server.Rtsp.Status.{get_stat}
use rtsp_server.Rtsp.Pause.{session_reply}
use rtsp_server.Rtsp.Teardown.Reading.{
  behind, request_text-Reads, or_crash-Reads, object_of-Reads, check_object-Reads,
  check_session-Reads,
}
use rtsp_server.Rtsp.Request.{ok_head, hdr_cseq, word_after}
use rtsp_server.Rtsp.Paths.{request_text_lem, require-some, within_true, modify_lem}
use rtsp_server.Rtsp.Teardown.{write_over, read_cseq_text, teardown_reply, teardown}

differs : ℕ → Bool
unfolding write_over decimal
differs n = ltb (length (decimal n)) 4 && not (write_over n (decimal n ++ (0 ∷ [])) == n)

differs_table : all_below 1000 differs ≡ true
unfolding all_below differs
differs_table = refl

decimal_short : (n : ℕ) → n < 1000 → ltb (length (decimal n)) 4 ≡ true
unfolding differs
decimal_short n h = ground (arith, all_below_sound 1000 differs n differs_table)

write_over-ne : (n : ℕ) → n < 1000 → write_over n (decimal n ++ (0 ∷ [])) ≢ n
unfolding differs
write_over-ne n h e =
    absurd (ground (arith, all_below_sound 1000 differs n differs_table, ==_refl n))

-- Behind the CSeq header of a request with a number below 1000, TEARDOWN reads another number.
read_cseq_text_lem :
    (s : State) (p : Bytes) (n : ℕ)
    → length (c_string s.buffer.in_buffer) < length s.buffer.in_buffer
    → strstr (c_string s.buffer.in_buffer) hdr_cseq ≡ some p
    → word_after p ≡ some (decimal n)
    → n < 1000
    → s.buffer.rtsp_seq ≡ n
    → (m : ℕ) × (read_cseq_text s ≡ ret tt (record s { buffer = record s.buffer { rtsp_seq = m } }))
      × (m ≢ n)
unfolding read_cseq_text
read_cseq_text_lem s p n ends header word small number = (
  write_over s.buffer.rtsp_seq (decimal n ++ (0 ∷ [])),
  bind_ret _ _ s _ s (request_text_lem s ends)
      ∙ (bind_ret _ _ s p s (require-some s 400 _ p header)
          ∙ (bind_ret _ _ s (decimal n) s (require-some s 400 _ _ word)
              ∙ (bind_ret _ _ s tt s (within_true s _ (decimal_short n small)) ∙ modify_lem s _))),
  rw number (write_over-ne n small),
)

-- The reply that lies in the out buffer has a number.
abbrev pub IsNumbered : ℕ → State → Type 0
IsNumbered m t =
    (rest : Bytes) × (t.buffer.out_buffer
      ≡ codes "RTSP/1.0 200 OK\r\nCSeq: " ++ (decimal m ++ (codes "\r\n" ++ rest)))

answer-Yields :
    {Q : State → Type 0} (size : ℕ) (reply : Bytes) (t : State)
    → ((u : State) → u.buffer.out_buffer ≡ reply → Q u)
    → Yields (λ a u. Q u) (answer size reply t)
unfolding answer ◌>>=◌ add_out_buffer modify within pure crash
answer-Yields {Q} size reply t q = put (ltb (length reply) size)
  where
    put : (b : Bool) → Yields (λ a u. Q u) ((within b >>= λ _. add_out_buffer reply) t)
    put true = yields (q _ refl)
    put false = crashed

teardown_reply-IsNumbered :
    (h : Host) (i : ℕ) (t : State)
    → Yields (λ a u. IsNumbered t.buffer.rtsp_seq u) (teardown_reply h i t)
unfolding teardown_reply session_reply ok_head token_text get_stat ◌>>=◌ the_buffer
teardown_reply-IsNumbered h i t = yields_bind (session_at i) _ t (any_yields _) (λ x u _.
    let seq = decimal t.buffer.rtsp_seq in
    let server : Bytes =
      codes "Server: "
      ++ (h.server_name ++ (codes "/" ++ (h.server_version ++ (rtsp_el ++ h.date_line)))) in
    let session : Bytes = codes "Session: " ++ (id_text x ++ (rtsp_el ++ rtsp_el)) in
    answer-Yields rtsp_buffer_size
      (codes "RTSP/1.0 200 OK\r\nCSeq: " ++ ((seq ++ (rtsp_el ++ server)) ++ session)) u
      (λ v e. (
        server ++ session,
        e
            ∙ ap (λ r. codes "RTSP/1.0 200 OK\r\nCSeq: " ++ r)
                (append_assoc seq (rtsp_el ++ server) session),
      )))

then_adds-IsNumbered :
    (m : ℕ) (u : State)
    → IsNumbered m u
    → Yields
        (λ a v. IsNumbered m v)
        ((the_buffer >>= λ b. perform (adds (stream_stop b.sock_id))) u)
unfolding ◌>>=◌ the_buffer perform
then_adds-IsNumbered m u numbered = yields numbered

-- A request that is numbered below 1000 in decimals, whose number RTSP_validate_method has read
-- already: if TEARDOWN succeeds, the reply that it leaves in the out buffer has another number.
pub teardown_other_number :
    (h : Host) (i : ℕ) (s : State) (p : Bytes) (n : ℕ)
    → length (c_string s.buffer.in_buffer) < length s.buffer.in_buffer
    → strstr (c_string s.buffer.in_buffer) hdr_cseq ≡ some p
    → word_after p ≡ some (decimal n)
    → n < 1000
    → s.buffer.rtsp_seq ≡ n
    → (m : ℕ) × (m ≢ n) × Yields (λ a t. IsNumbered m t) (teardown h i s)
unfolding teardown
teardown_other_number h i s p n ends header word small number =
    let (m, read, other) = read_cseq_text_lem s p n ends header word small number in
    let t = record s { buffer = record s.buffer { rtsp_seq = m } } in
    (
      m,
      other,
      subst (Yields (λ a u. IsNumbered m u)) (sym (bind_ret read_cseq_text _ s tt t read)) (
          behind _ _ t request_text-Reads (λ text. behind _ _ t (or_crash-Reads _) (λ url.
            behind _ _ t (object_of-Reads url) (λ object.
              behind _ _ t (check_object-Reads h object) (λ _.
                behind _ _ t check_session-Reads (λ _.
                  yields_bind _ _ t (teardown_reply-IsNumbered h i t)
                    (λ _ u numbered. then_adds-IsNumbered m u numbered))))))),
    )
