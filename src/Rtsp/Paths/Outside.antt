-- ===== src/Rtsp/Paths/Outside.antt =====
-- RTSP_DESCRIBE.cpp, RTSP_SETUP.cpp, RTSP_PAUSE.cpp, RTSP_TEARDOWN.cpp and RTSP_PLAY.cpp: objects that
-- lead out of the directory of the server.
use rtsp_server.Base.{◌≡◌}
use rtsp_server.Rtsp.Url.{Url}
use rtsp_server.Rtsp.Host.{Host}
use rtsp_server.Rtsp.Connection.{State, M}
use rtsp_server.Rtsp.Connection.Steps.{Relation, Holds}

abbrev pub SameSessions : Relation
SameSessions s t = t.buffer.session_list ≡ s.buffer.session_list

abbrev SameText : Relation
SameText s t = (t.buffer.in_buffer ≡ s.buffer.in_buffer) × SameSessions s t

-- Code that never succeeds, and leaves the sessions as they were.
abbrev pub Refuses : {A : Type 0} → State → M A → Type 0
Refuses s m = Holds (λ s' t. ⊥) SameSessions s (m s)
