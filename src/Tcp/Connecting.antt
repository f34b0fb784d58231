-- ===== src/Tcp/Connecting.antt =====
-- class TcpConnectingManager (TCP_ConnectingManager.h, TCP_ConnectingManager.cpp): when each
-- socket was last heard of, and which sockets have been silent for too long.
-- The clock is an argument. `unsigned long` has 64 bits.
pub mod Timeouts
use rtsp_server.Base.{
  ℕ, ◌+◌, ◌-◌, ◌%◌, ◌≤◌, ◌<◌, ◌≡◌, ◌≢◌, refl, ap, ◌∙◌, inl, inr, Bool, true, false, List, [], ◌∷◌,
  ◌++◌, Option, none, some, arith, ltb, ◌==◌, if◌then◌else◌, Bool-cases, find, put, erase, find-put,
  find-erase, ltb→lt, lt→ltb, le→ltb, ==_refl,
}

-- m_mapTimeInfo and m_timeout
pub record Manager : Type 0 where
  pub map_time_info : List (ℕ × ℕ)
  pub timeout : ℕ

pub create : Manager
create = record { map_time_info = []; timeout = 300 }

pub set_timeout_seconds : Manager → ℕ → Manager
set_timeout_seconds m seconds = record m { timeout = seconds }

pub update_time_info : Manager → ℕ → ℕ → Manager
update_time_info m id time = record m { map_time_info = put id time m.map_time_info }

unfoldable pub delete_socket : Manager → ℕ → Manager
delete_socket m id = record m { map_time_info = erase id m.map_time_info }

abbrev pub word64 : ℕ
word64 = 0x1_0000_0000_0000_0000

-- time.tv_sec - i.second > m_timeout: the difference is an `unsigned long`.
abbrev pub is_late : ℕ → ℕ → ℕ → Bool
is_late now timeout last = ltb timeout ((now + word64 - last) % word64)

late_ids : ℕ → ℕ → List (ℕ × ℕ) → List ℕ
late_ids now timeout [] = []
late_ids now timeout ((id, last) ∷ m) =
    let rest = late_ids now timeout m in if is_late now timeout last then id ∷ rest else rest

erase_all : List ℕ → List (ℕ × ℕ) → List (ℕ × ℕ)
erase_all [] m = m
erase_all (id ∷ ids) m = erase_all ids (erase id m)

pub get_timeout_sockets : Manager → ℕ → List ℕ × Manager
get_timeout_sockets m now =
    let ids = late_ids now m.timeout m.map_time_info in
    (ids, record m { map_time_info = erase_all ids m.map_time_info })
