-- ===== src/Tests/Tables.antt =====
-- TcpConnectingManager at concrete times.
use rtsp_server.Base.{
  ◌+◌, ◌<◌, ◌≡◌, ◌↔◌, ◌⊎◌, refl, true, false, ◌==◌, none, [], ◌∷◌, arith, find, if◌then◌else◌,
}
use rtsp_server.Tcp.Connecting.{
  Manager, set_timeout_seconds, delete_socket, update_time_info, get_timeout_sockets,
}
use rtsp_server.Tcp.Connecting.Timeouts.{
  elem, late_at, Keys, get_timeout_sockets_lem, heard_at_timeout, delete_socket_lem,
}

abbrev heard : Manager
heard = record { map_time_info = (4, 100) ∷ (5, 500) ∷ []; timeout = 300 }

heard-Keys : Keys heard.map_time_info
unfolding find
heard-Keys = (refl, (refl, tt))

get_timeout_sockets_lem_example :
    let (ids, m') = get_timeout_sockets heard 600 in
    let late = late_at 600 300 (find 4 heard.map_time_info) in
    (elem 4 ids ≡ late)
    × (find 4 m'.map_time_info ≡ (if late then none else find 4 heard.map_time_info))
get_timeout_sockets_lem_example = get_timeout_sockets_lem heard 600 4 heard-Keys

heard_at_timeout_example :
    (elem 4 (get_timeout_sockets (update_time_info heard 4 700) 600).0 ≡ true)
    ↔ ((700 + 300 < 600) ⊎ (600 < 700))
heard_at_timeout_example =
    heard_at_timeout heard 4 700 600 heard-Keys (omega arith) (omega arith) (omega arith)

delete_socket_lem_example :
    elem 4 (get_timeout_sockets (set_timeout_seconds (delete_socket heard 4) 50) 600).0
    ≡ (if 4 == 4 then false else elem 4 (get_timeout_sockets (set_timeout_seconds heard 50) 600).0)
delete_socket_lem_example = delete_socket_lem heard 4 50 600 4 heard-Keys
