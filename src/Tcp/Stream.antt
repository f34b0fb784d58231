-- ===== src/Tcp/Stream.antt =====
-- What a callback makes of the bytes that a socket delivers (taskJsonCallback in
-- taskJsonCallback.cpp, RTSP_Callback in RTSP_Server.cpp): each delivery is appended to the cacher
-- of the connection, and the packets that are then whole are handed out.
pub mod Drained
pub mod Waits
use rtsp_server.Base.{
  ℕ, zero, suc, ◌+◌, ◌-◌, ◌≤◌, ◌<◌, ◌≡◌, refl, sym, ap, subst, ◌∙◌, inl, inr, true, false, List, [],
  ◌∷◌, ◌++◌, Option, none, some, arith, le→ltb, leb, leb→le, lt→leb, ◌>>=◌, Bool-cases, length,
  take, append-nil, append_assoc, length-append, drop-append_self, take-append_self,
}
use rtsp_server.Tcp.Cacher.{
  Cacher, verdict, Analyzer, size_limit, contents, append_buffer, get_valid_buffer, create,
}
use rtsp_server.Tcp.Cacher.Append.{
  IsValid, length-contents, append_buffer-Appends, create-IsValid, contents-create,
}
use rtsp_server.Tcp.Cacher.Drain.{Framer, drain, Refines, get_valid_buffer-Refines}

-- One delivery. The callbacks do not look at what `appendBuffer` returns.
pub receive : (ℕ → ℕ) → Analyzer → Cacher → List ℕ → Option (List (List ℕ) × Cacher)
receive junk analyzer c chunk = do
  (ret, c') ← append_buffer junk c chunk
  get_valid_buffer analyzer c'

-- A sequence of deliveries.
pub receive_all : (ℕ → ℕ) → Analyzer → Cacher → List (List ℕ) → Option (List (List ℕ) × Cacher)
receive_all junk analyzer c [] = some ([], c)
receive_all junk analyzer c (chunk ∷ chunks) = do
  (packets, c') ← receive junk analyzer c chunk
  (packets', c'') ← receive_all junk analyzer c' chunks
  some (packets ++ packets', c'')

abbrev pub concat : List (List ℕ) → List ℕ
concat [] = []
concat (x ∷ xs) = x ++ concat xs

abbrev pub All {ℓ} : {A : Type ℓ} → (A → Type 0) → List A → Type 0
All P [] = Unit {0}
All P (x ∷ xs) = P x × All P xs

-- A format of packets, and an analyzer that finds a whole packet whatever follows it, and nothing
-- in a part of one.
pub record Format (f : Framer) : Type 1 where
  pub IsPacket : List ℕ → Type 0
  pub nonempty : (x : List ℕ) → IsPacket x → 0 < length x
  pub whole :
      (x rest : List ℕ)
      → IsPacket x
      → length (x ++ rest) ≤ size_limit
      → (invalid : ℕ) × (f.analyze (x ++ rest) ≡ some (verdict true 0 (length x - 1) invalid))
  pub part :
      (x : List ℕ) (k : ℕ)
      → IsPacket x
      → k < length x
      → (end : ℕ) × (f.analyze (take k x) ≡ some (verdict false 0 end 0))
