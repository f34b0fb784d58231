-- ===== src/Tcp/Manager.antt =====
-- class tcpCacherManager (tcpCacher.h, tcpCacherManager.cpp): a cacher for each socket, made when
-- its first bytes come and removed when it is closed. `none` is a fault of a cacher.
pub mod Isolation
use rtsp_server.Base.{ℕ, Bool, List, [], ◌∷◌, Option, none, some, ◌>>=◌, find, put, erase}
use rtsp_server.Tcp.Cacher.{
  Cacher, Ret, missing, done, Analyzer, create, default_cacher_size, append_buffer, get_buffer,
  get_valid_buffer,
}

-- m_tcpCacherMap. The member `m_Iterator` is set anew by every call.
abbrev pub Manager : Type 0
Manager = List (ℕ × Cacher)

-- The cacher of a socket, made if it is not there.
unfoldable pub cacher_of : (ℕ → ℕ) → Manager → ℕ → Cacher
cacher_of junk m sock_id = elim (find sock_id m) [
  | none ↦ create junk default_cacher_size
  | some c ↦ c
]

unfoldable pub append : (ℕ → ℕ) → Manager → ℕ → List ℕ → Option (Ret × Manager)
append junk m sock_id data_in = do
  (ret, c) ← append_buffer junk (cacher_of junk m sock_id) data_in
  some (ret, put sock_id c m)

unfoldable pub get : Manager → ℕ → Bool → ℕ → Bool → Option (Ret × List ℕ × Manager)
get m sock_id wanted size remove = elim (find sock_id m) [
  | none ↦ some (missing, [], m)
  | some c ↦
      get_buffer c wanted size remove >>= λ (ret, bytes, c'). some (ret, bytes, put sock_id c' m)
]

pub get_valid : Manager → ℕ → Analyzer → Option (Ret × List (List ℕ) × Manager)
get_valid m sock_id analyzer = elim (find sock_id m) [
  | none ↦ some (missing, [], m)
  | some c ↦ get_valid_buffer analyzer c >>= λ (packets, c'). some (done, packets, put sock_id c' m)
]

unfoldable pub remove_cacher : Manager → ℕ → Manager
remove_cacher m sock_id = erase sock_id m

-- What can happen to the manager.
pub data Call : Type 0 where
  appends : ℕ → List ℕ → Call
  gets : ℕ → Bool → ℕ → Bool → Call
  gets_valid : ℕ → Analyzer → Call
  removes : ℕ → Call

-- The socket of a call.
abbrev pub socket : Call → ℕ
socket (appends s data_in) = s
socket (gets s wanted size remove) = s
socket (gets_valid s analyzer) = s
socket (removes s) = s

unfoldable pub step : (ℕ → ℕ) → Manager → Call → Option Manager
step junk m (appends s data_in) = append junk m s data_in >>= λ (ret, m'). some m'
step junk m (gets s wanted size remove) = get m s wanted size remove >>= λ (ret, bytes, m'). some m'
step junk m (gets_valid s analyzer) = get_valid m s analyzer >>= λ (ret, packets, m'). some m'
step junk m (removes s) = some (remove_cacher m s)

unfoldable pub run : (ℕ → ℕ) → Manager → List Call → Option Manager
run junk m [] = some m
run junk m (c ∷ cs) = step junk m c >>= λ m'. run junk m' cs
