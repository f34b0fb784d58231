-- ===== src/Rtsp/Server/Closed.antt =====
-- What is left of a connection that is closed.
use rtsp_server.Base.{
  ℕ, ◌≡◌, ◌≢◌, refl, true, List, [], ◌∷◌, ◌++◌, none, some, arith, find, erase, find-erase,
}
use rtsp_server.Tcp.Manager as Cachers
use rtsp_server.Tcp.Connecting as Connecting
use rtsp_server.Rtsp.Host.{Host}
use rtsp_server.Rtsp.Connection.{executes, stream_stop}
use rtsp_server.Rtsp.Server.{Server, Event, close_client, callback}

-- After the close of a socket is reported there is no connection, no cacher and no time of it, and
-- those of every other socket are as they were; the one thing done is the task that stops its
-- streams.
pub callback_closed :
    (h : Host) (s : Server) (e : Event) (other : ℕ)
    → e.sock_closed ≡ true
    → other ≢ e.client_id
    → (t : Server) × (callback h s e ≡ some t)
      × (find e.client_id t.buffers ≡ none)
      × (find e.client_id t.cachers ≡ none)
      × (find e.client_id t.connecting.map_time_info ≡ none)
      × (find other t.buffers ≡ find other s.buffers)
      × (find other t.cachers ≡ find other s.cachers)
      × (find other t.connecting.map_time_info ≡ find other s.connecting.map_time_info)
      × (t.log ≡ s.log ++ (executes (stream_stop e.client_id) ∷ []))
unfolding callback close_client Cachers.remove_cacher Connecting.delete_socket
callback_closed h s e other closed ne = (
  record (close_client s e.client_id) {
    connecting = Connecting.delete_socket s.connecting e.client_id;
  },
  rw closed refl,
  gone s.buffers,
  gone s.cachers,
  gone s.connecting.map_time_info,
  kept s.buffers,
  kept s.cachers,
  kept s.connecting.map_time_info,
  refl,
)
  where
    gone : {V : Type 0} (m : List (ℕ × V)) → find e.client_id (erase e.client_id m) ≡ none
    gone m = ground (arith, find-erase e.client_id e.client_id m)

    kept : {V : Type 0} (m : List (ℕ × V)) → find other (erase e.client_id m) ≡ find other m
    kept m = ground (arith, find-erase e.client_id other m)
