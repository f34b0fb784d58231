-- ===== src/Tcp/Interleaved/Length.antt =====
-- The length field of an interleaved packet, as the code reads it.
use rtsp_server.Base.{
  ℕ, ◌+◌, ◌*◌, ◌<◌, ◌≡◌, refl, true, ltb, ◌==◌, ==_iff, if◌then◌else◌, all_below, all_below_sound,
}
use rtsp_server.Tcp.Interleaved.{pkg_size}

abbrev as_read : ℕ → ℕ → ℕ
as_read hi lo = if ltb lo 0x80 then hi * 0x100 + lo else 0xff00 + lo

pkg_size_table : all_below 256 (λ hi. all_below 256 (λ lo. pkg_size hi lo == as_read hi lo)) ≡ true
unfolding all_below pkg_size
pkg_size_table = refl

-- The length is the two bytes, high byte first, as long as the low byte is below 128. From 128 on
-- its sign fills the high byte: the length is read as 0xff00 and the low byte.
pub pkg_size_lem :
    (hi lo : ℕ)
    → hi < 256
    → lo < 256
    → pkg_size hi lo ≡ (if ltb lo 0x80 then hi * 0x100 + lo else 0xff00 + lo)
pkg_size_lem hi lo h l = (==_iff _ _).0 (
    all_below_sound 256 _ lo
      (all_below_sound 256 (λ hi. all_below 256 (λ lo. pkg_size hi lo == as_read hi lo)) hi
        pkg_size_table h)
      l)
