-- ===== src/Tcp/Connecting/Timeouts.antt =====
-- Which sockets `getTimeoutSockets` returns and removes.
use rtsp_server.Base.{
  ℕ, ◌+◌, ◌-◌, ◌%◌, ◌<◌, ◌≡◌, refl, ◌∙◌, Bool, true, false, List, [], ◌∷◌, Option, none, some,
  arith, ◌↔◌, ◌⊎◌, word32, ◌==◌, if◌then◌else◌, find, put, erase, find-put, find-put_self,
  find-erase, ltb→lt, lt→ltb, inl, inr, Bool-cases,
}
use rtsp_server.Tcp.Connecting.{
  Manager, set_timeout_seconds, delete_socket, update_time_info, is_late, word64, late_ids,
  erase_all, get_timeout_sockets,
}

abbrev pub elem : ℕ → List ℕ → Bool
elem k [] = false
elem k (x ∷ xs) = if x == k then true else elem k xs

find-erase_all :
    (ids : List ℕ) (m : List (ℕ × ℕ)) (k : ℕ)
    → find k (erase_all ids m) ≡ (if elem k ids then none else find k m)
unfolding erase_all
find-erase_all [] m k = refl
find-erase_all (id ∷ ids) m k = ground (arith, find-erase_all ids (erase id m) k, find-erase id k m)

-- A key stands once in the table.
abbrev pub Keys : List (ℕ × ℕ) → Type 0
Keys [] = Unit {0}
Keys ((k, v) ∷ m) = (find k m ≡ none) × Keys m

-- Whether an entry of the table is late.
abbrev pub late_at : ℕ → ℕ → Option ℕ → Bool
late_at now timeout none = false
late_at now timeout (some last) = is_late now timeout last

elem-late_ids :
    (now timeout : ℕ) (m : List (ℕ × ℕ)) (k : ℕ)
    → Keys m
    → elem k (late_ids now timeout m) ≡ late_at now timeout (find k m)
unfolding late_ids find
elem-late_ids now timeout [] k h = refl
elem-late_ids now timeout ((id, last) ∷ m) k h =
    ground (arith, elem-late_ids now timeout m k h.1, h.0)

-- `getTimeoutSockets` returns the sockets whose entry is late, and it removes these entries and no
-- other, in a table where a key stands once.
pub get_timeout_sockets_lem :
    (m : Manager) (now k : ℕ)
    → Keys m.map_time_info
    → let (ids, m') = get_timeout_sockets m now in
      let late = late_at now m.timeout (find k m.map_time_info) in
      (elem k ids ≡ late)
      × (find k m'.map_time_info ≡ (if late then none else find k m.map_time_info))
unfolding get_timeout_sockets
get_timeout_sockets_lem m now k h =
    let e = elem-late_ids now m.timeout m.map_time_info k h in
    (e, find-erase_all (late_ids now m.timeout m.map_time_info) m.map_time_info k ∙ rw e)

Keys-put : (k v : ℕ) (m : List (ℕ × ℕ)) → Keys m → Keys (put k v m)
unfolding put find
Keys-put k v [] h = (refl, tt)
Keys-put k v ((j, w) ∷ m) h = ground (arith, h.0, Keys-put k v m h.1, find-put k j v m)

late_iff :
    (now timeout t : ℕ)
    → t < 0x8000_0000_0000_0000
    → now < 0x8000_0000_0000_0000
    → timeout < word32
    → (is_late now timeout t ≡ true) ↔ ((t + timeout < now) ⊎ (now < t))
late_iff now timeout t ht hn hm = (λ h. later (ltb→lt _ _ h), λ h. lt→ltb _ _ (sooner h))
  where
    later : timeout < (now + word64 - t) % word64 → (t + timeout < now) ⊎ (now < t)
    later h = omega arith

    sooner : (t + timeout < now) ⊎ (now < t) → timeout < (now + word64 - t) % word64
    sooner h = omega arith

-- A socket that was heard of at `t` is returned by `getTimeoutSockets` at `now` exactly if `now` is
-- more than the timeout after `t`, or before `t`: a clock that is set back cuts off every socket
-- heard of since. A key stands once in the table, both times are below 2^63, and the timeout is a
-- word.
pub heard_at_timeout :
    (m : Manager) (id t now : ℕ)
    → Keys m.map_time_info
    → t < 0x8000_0000_0000_0000
    → now < 0x8000_0000_0000_0000
    → m.timeout < word32
    → (elem id (get_timeout_sockets (update_time_info m id t) now).0 ≡ true)
      ↔ ((t + m.timeout < now) ⊎ (now < t))
unfolding update_time_info
heard_at_timeout m id t now h ht hn hm =
    let m' = update_time_info m id t in
    let e = (get_timeout_sockets_lem m' now id (Keys-put id t m.map_time_info h)).0 in
    rw (e, find-put_self id t m.map_time_info) (late_iff now m.timeout t ht hn hm)

Keys-erase : (k : ℕ) (m : List (ℕ × ℕ)) → Keys m → Keys (erase k m)
unfolding erase find
Keys-erase k [] h = tt
Keys-erase k ((j, w) ∷ m) h = ground (arith, h.0, Keys-erase k m h.1, find-erase k j m)

-- A socket that is deleted is not among those that `getTimeoutSockets` returns, whatever the time
-- and the timeout that is set, and the other sockets are returned as they were without it; in
-- a table where a key stands once.
pub delete_socket_lem :
    (m : Manager) (id seconds now k : ℕ)
    → Keys m.map_time_info
    → elem k (get_timeout_sockets (set_timeout_seconds (delete_socket m id) seconds) now).0 ≡ (
        if id == k
        then false
        else elem k (get_timeout_sockets (set_timeout_seconds m seconds) now).0)
unfolding delete_socket set_timeout_seconds
delete_socket_lem m id seconds now k h =
    let m₁ = set_timeout_seconds (delete_socket m id) seconds in
    let m₂ = set_timeout_seconds m seconds in
    let e₁ = (get_timeout_sockets_lem m₁ now k (Keys-erase id m.map_time_info h)).0 in
    let e₂ = (get_timeout_sockets_lem m₂ now k h).0 in
    rw (e₁, e₂, find-erase id k m.map_time_info)
      (elim (Bool-cases (id == k)) [ inl same ↦ rw same refl | inr other ↦ rw other refl ])
