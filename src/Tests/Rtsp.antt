-- ===== src/Tests/Rtsp.antt =====
-- The RTSP handlers at concrete inputs.
use rtsp_server.Base.{
  ℕ, ◌≡◌, ◌≢◌, refl, Bool, true, false, List, [], ◌∷◌, ◌++◌, none, some, arith, length, sym, ap,
  inl, zero, suc, codes, map, find, put,
}
use rtsp_server.Rtsp.Text.{Bytes, c_string, decimal, strstr}
use rtsp_server.Rtsp.Url.{Url}
use rtsp_server.Rtsp.Host.{Host, generate_random32}
use rtsp_server.Rtsp.Connection.{
  cleared_session, Session, SessionState, init_stat, ready_stat, play_stat, executes, stream_stop,
  State, Result, ret, stop, fault, new_session, ◌>>=◌, the_buffer, pure, within, modify, perform,
}
use rtsp_server.Rtsp.Connection.Steps.{Holds}
use rtsp_server.Rtsp.Connection.Yields.{Yields}
use rtsp_server.Rtsp.Request.{request_text, word_after}
use rtsp_server.Rtsp.Setup.{setup}
use rtsp_server.Rtsp.Machine.{sets_up, plays, pauses, select, find_session, state_machine}
use rtsp_server.Rtsp.Machine.Moves.{Moves, Grows, state_machine-Moves}
use rtsp_server.Rtsp.Machine.Complete.{IsSetUp, At}
use rtsp_server.Rtsp.Machine.Invariant.{IsConsistent, state_machine-IsComplete}
use rtsp_server.Rtsp.Machine.Ready.{setup-IsSetUp}
use rtsp_server.Rtsp.Teardown.{teardown}
use rtsp_server.Rtsp.Teardown.Numbers.{IsNumbered, teardown_other_number}
use rtsp_server.Rtsp.Handler.{handle, send_out}
use rtsp_server.Rtsp.Handler.Answers.{AllDue, due, OneMore, state_machine-Answered}
use rtsp_server.Rtsp.Server.{
  Server, Event, new_buffer, buffer_of, load_packet, receive_packet, callback,
}
use rtsp_server.Rtsp.Server.Split.{receive_packet_split}
use rtsp_server.Rtsp.Server.Closed.{callback_closed}

abbrev host : Host
host = record {
  server_name = codes "hss";
  server_version = codes "1.0";
  flv_save_dir = codes "flv/";
  timeout = 65;
  server_ip = codes "10.0.0.1";
  host_name = codes "box";
  date_line = codes "Date: now\r\n";
  sec = 1000;
  usec = 0;
  usec_ticks = λ freq usec. 0;
  guid = codes "guid-1";
  random = 7;
  rtp_port = 5000;
  rtcp_port = 5001;
  exists = λ name. true;
  file_sdp = λ name. some (codes "v=0\r\n");
  living_exists = λ name. false;
  living_sdp = λ name. none;
  scan_float = λ s. none;
  clock_time = λ a b c. 0;
  sent = length;
  rtcp_blocks = λ bytes. none;
  junk_port = 0;
  junk = [];
  fresh = λ i. 0;
}

-- A connection with one session and with a request in its in buffer.
abbrev loaded : Bytes → List Session → State
loaded request sessions = record {
  buffer = record (new_buffer 9) {
    in_buffer = request ++ (0 ∷ []);
    in_size = length request;
    session_list = sessions;
  };
  log = [];
}

abbrev setup_request : State
setup_request =
    loaded
      (codes
        "SETUP rtsp://h:554/ab.flv/track1 RTSP/1.0\r\nCSeq: 3\r\nTransport: RTP/AVP/TCP;unicast;interleaved=0-1\r\n\r\n")
      (new_session ∷ [])

-- The states of the sessions, and how much was done.
outcome : Result (Unit {0}) → List SessionState × ℕ
outcome (ret r s) = (map (λ x. x.cur_state) s.buffer.session_list, length s.log)
outcome (stop s) = (map (λ x. x.cur_state) s.buffer.session_list, length s.log)
outcome fault = ([], 0)

setup_request-outcome : outcome (handle host setup_request) ≡ (ready_stat ∷ [], 1)
unfolding outcome handle ◌>>=◌ the_buffer pure within modify generate_random32 new_buffer perform
setup_request-outcome = refl

abbrev ready : Session
ready = record new_session { cur_state = ready_stat; session_id = codes "guid-1" }

abbrev play_request : State
play_request =
    loaded (codes "PLAY rtsp://h:554/ab.flv RTSP/1.0\r\nSession: guid-1\r\nCSeq: 4\r\n\r\n")
      (ready ∷ [])

play_request-outcome : outcome (handle host play_request) ≡ (play_stat ∷ [], 2)
unfolding outcome handle ◌>>=◌ the_buffer pure within modify generate_random32 new_buffer perform
play_request-outcome = refl

abbrev teardown_request : State
teardown_request =
    loaded (codes "TEARDOWN rtsp://h:554/ab.flv RTSP/1.0\r\nCSeq: 5\r\n\r\n") (ready ∷ [])

teardown_request-outcome : outcome (handle host teardown_request) ≡ (ready_stat ∷ [], 2)
unfolding outcome handle ◌>>=◌ the_buffer pure within modify generate_random32 new_buffer perform
teardown_request-outcome = refl

abbrev pause_request : State
pause_request =
    loaded (codes "PAUSE rtsp://h:554/ab.flv RTSP/1.0\r\nSession: guid-1\r\nCSeq: 5\r\n\r\n")
      (record ready { cur_state = play_stat } ∷ [])

pause_request-outcome : outcome (handle host pause_request) ≡ (ready_stat ∷ [], 2)
unfolding outcome handle ◌>>=◌ the_buffer pure within modify generate_random32 new_buffer perform
pause_request-outcome = refl

abbrev describe_request : State
describe_request =
    loaded
      (codes "DESCRIBE rtsp://h:554/ab.flv RTSP/1.0\r\nAccept: application/sdp\r\nCSeq: 5\r\n\r\n")
      (new_session ∷ [])

describe_request-outcome : outcome (handle host describe_request) ≡ (init_stat ∷ [], 1)
unfolding outcome handle ◌>>=◌ the_buffer pure within modify generate_random32 new_buffer perform
describe_request-outcome = refl

state_machine-Moves_example :
    Holds (Moves plays) Grows play_request (state_machine host plays play_request)
state_machine-Moves_example = state_machine-Moves host plays play_request

state_machine-IsComplete_example :
    Holds
      (λ s t. IsConsistent t)
      (λ s t. IsConsistent t)
      setup_request
      (state_machine host sets_up setup_request)
state_machine-IsComplete_example = state_machine-IsComplete host sets_up setup_request all
  where
    all : IsConsistent setup_request
    all zero x e = inl (ap (λ o. elim o [ none ↦ init_stat | some y ↦ y.cur_state ]) (sym e))
    all (suc i) x e = absurd (ground arith)

state_machine-Answered_example :
    Holds OneMore OneMore pause_request
      ((state_machine host pauses >>= λ _. send_out host) pause_request)
unfolding due new_buffer
state_machine-Answered_example = state_machine-Answered host pauses pause_request all refl
  where
    all : AllDue pauses pause_request
    all zero x e = ap (λ o. elim o [ none ↦ true | some y ↦ due y.cur_state pauses ]) (sym e)
    all (suc i) x e = absurd (ground arith)

setup-IsSetUp_example : Yields (At IsSetUp) (setup host 0 setup_request)
setup-IsSetUp_example = setup-IsSetUp host 0 setup_request

abbrev outside_url : Bytes
outside_url = codes "rtsp://h:554/./ab.flv"

abbrev outside : Url
outside = record { server = codes "h"; port = some 554; filename = codes "./ab.flv" }

abbrev outside_request : State
outside_request =
    loaded (codes "DESCRIBE rtsp://h:554/./ab.flv RTSP/1.0\r\nCSeq: 6\r\n\r\n") (new_session ∷ [])

abbrev numbered : State
numbered = record teardown_request { buffer = record teardown_request.buffer { rtsp_seq = 5 } }

teardown_other_number_example :
    (m : ℕ) × (m ≢ 5) × Yields (λ a t. IsNumbered m t) (teardown host 0 numbered)
unfolding c_string strstr word_after decimal
teardown_other_number_example =
    teardown_other_number host 0 numbered (codes "CSeq: 5\r\n\r\n") 5 (omega arith) refl refl
      (omega arith) refl

-- A session that SETUP has added before it failed has a null pointer for its id.
abbrev half_set_up : State
half_set_up =
    loaded (codes "PLAY rtsp://h:554/ab.flv RTSP/1.0\r\nSession: guid-2\r\nCSeq: 7\r\n\r\n")
      (ready ∷ cleared_session (codes "track2") ∷ [])

null_id_test : state_machine host plays half_set_up ≡ fault
unfolding state_machine select find_session ◌>>=◌ the_buffer within pure request_text
null_id_test = refl

-- A server with one connection.
abbrev serving : Server
serving = record {
  buffers = (9, play_request.buffer) ∷ (4, setup_request.buffer) ∷ [];
  cachers = [];
  connecting = record { map_time_info = (9, 100) ∷ (4, 200) ∷ []; timeout = 65 };
  log = [];
}

abbrev delivery : Bool → Event
delivery closed = record {
  client_id = 9;
  sock_closed = closed;
  data_in = codes "* RTSP/1.0\r\nCSeq: 2\r\n\r\n";
  target_addr = 1;
}

abbrev whole_request : Bytes
whole_request = codes "OPTIONS * RTSP/1.0\r\nCSeq: 2\r\n\r\n"

receive_packet_split_example :
    receive_packet host serving (delivery false) whole_request
    ≡ some (
      record serving {
        buffers =
            put 9
              (load_packet (buffer_of serving 9) (delivery false) whole_request)
              serving.buffers;
      },
      true,
    )
receive_packet_split_example =
    receive_packet_split host serving (delivery false) whole_request b'O' b'e' (omega arith) refl
      (omega arith) (omega arith) (omega arith) refl (omega arith)

callback_closed_example :
    (t : Server) × (callback host serving (delivery true) ≡ some t)
    × (find 9 t.buffers ≡ none)
    × (find 9 t.cachers ≡ none)
    × (find 9 t.connecting.map_time_info ≡ none)
    × (find 4 t.buffers ≡ find 4 serving.buffers)
    × (find 4 t.cachers ≡ find 4 serving.cachers)
    × (find 4 t.connecting.map_time_info ≡ find 4 serving.connecting.map_time_info)
    × (t.log ≡ serving.log ++ (executes (stream_stop 9) ∷ []))
callback_closed_example = callback_closed host serving (delivery true) 4 refl (omega arith)
