-- ===== src/Tcp/Stream/Waits.antt =====
-- Deliveries of the bytes of packets: what the cacher holds from one to the next.
use rtsp_server.Base.{
  ℕ, ◌+◌, ◌≤◌, ◌<◌, ◌≡◌, sym, ap, subst, ◌∙◌, inr, List, [], ◌∷◌, ◌++◌, Option, none, some, arith,
  length, append_assoc,
}
use rtsp_server.Tcp.Cacher.{Cacher, size_limit, contents, get_valid_buffer, create}
use rtsp_server.Tcp.Cacher.Append.{
  IsValid, length-contents, append_buffer-Appends, create-IsValid, contents-create,
}
use rtsp_server.Tcp.Cacher.Drain.{Framer, drain, Refines, get_valid_buffer-Refines}
use rtsp_server.Tcp.Stream.{Format, receive, receive_all, concat, All}
use rtsp_server.Tcp.Stream.Drained.{
  Packets, Partial, Partial-le, Partial-nil, Partial-end, Drained, drain-Drained,
}

module _ (f : Framer) (fmt : Format f) where
  -- A cacher that holds a part of the next packet, before the bytes `s` come.
  record Waits (limit : ℕ) (xs : List (List ℕ)) (s : List ℕ) (c : Cacher) : Type 0 where
    valid : IsValid c
    packets : Packets f fmt limit xs
    rest : contents c ++ s ≡ concat xs
    partial : Partial f fmt (contents c) xs

  receive-Waits :
      (junk : ℕ → ℕ) (limit : ℕ) (xs : List (List ℕ)) (chunk s : List ℕ) (c : Cacher)
      → Waits limit xs (chunk ++ s) c
      → limit + length chunk < size_limit
      → (out : List (List ℕ)) × (later : List (List ℕ)) × (c' : Cacher) × (receive junk f.analyze c
            chunk
          ≡ some (out, c'))
        × (xs ≡ out ++ later)
        × Waits limit later s c'
  unfolding receive
  receive-Waits junk limit xs chunk s c w small =
      let short : length (contents c) ≤ limit =
        Partial-le f fmt limit (contents c) xs w.partial w.packets in
      let held : length (contents c) ≡ c.data_size = length-contents w.valid in
      let (c₁, p, v₁, q) =
        append_buffer-Appends junk chunk w.valid (omega arith) (inr (omega arith)) in
      let d =
        drain-Drained f fmt limit (c₁.data_size + 1) xs (contents c₁) s w.packets
          (omega (arith, length-contents v₁, v₁.fits, v₁.small)) (omega (arith, length-contents v₁))
          (ap (λ l. l ++ s) q ∙ append_assoc (contents c) chunk s ∙ w.rest) in
      rw (p) (
        finish c₁ d (get_valid_buffer f.analyze c₁)
          (rw d.result at (get_valid_buffer-Refines f v₁).0))
    where
      finish :
          (c₁ : Cacher)
          (d : Drained f fmt limit xs s (drain (c₁.data_size + 1) f.analyze (contents c₁)))
          (r : Option (List (List ℕ) × Cacher))
          → Refines (some (d.out, d.left)) r
          → (out : List (List ℕ)) × (later : List (List ℕ)) × (c' : Cacher) × (r ≡ some (out, c'))
            × (xs ≡ out ++ later)
            × Waits limit later s c'
      finish c₁ d none h = absurd h
      finish c₁ d (some (ps, c')) h = (
        d.out,
        d.later,
        c',
        rw h.0,
        d.split,
        record {
          valid = h.2;
          packets = d.packets;
          rest = rw h.1 d.rest;
          partial = subst (λ u. Partial f fmt u d.later) (sym h.1) d.partial;
        },
      )

  receive_all-Waits :
      (junk : ℕ → ℕ) (limit : ℕ) (chunks : List (List ℕ)) (xs : List (List ℕ)) (c : Cacher)
      → Waits limit xs (concat chunks) c
      → All (λ chunk. limit + length chunk < size_limit) chunks
      → (c' : Cacher) × (receive_all junk f.analyze c chunks ≡ some (xs, c')) × (contents c' ≡ [])
  unfolding receive_all
  receive_all-Waits junk limit [] xs c w small =
      let (none_left, empty) = Partial-end f fmt (contents c) xs w.partial w.rest in
      (c, rw none_left, empty)
  receive_all-Waits junk limit (chunk ∷ chunks) xs c w small =
      let (out, later, c₁, p, q, w₁) =
        receive-Waits junk limit xs chunk (concat chunks) c w small.0 in
      let (c₂, p₂, e) = receive_all-Waits junk limit chunks later c₁ w₁ small.1 in
      (c₂, rw (p, p₂, q), e)

  -- However a sequence of packets is cut into deliveries, a new cacher hands out these packets, in
  -- order, and holds no byte at the end; if the largest packet and a delivery together stay below
  -- the limit of the block.
  pub receive_all_lem :
      (junk : ℕ → ℕ) (size limit : ℕ) (xs chunks : List (List ℕ))
      → size ≤ size_limit
      → Packets f fmt limit xs
      → All (λ chunk. limit + length chunk < size_limit) chunks
      → concat chunks ≡ concat xs
      → (c : Cacher) × (receive_all junk f.analyze (create junk size) chunks ≡ some (xs, c))
        × (contents c ≡ [])
  receive_all_lem junk size limit xs chunks h packets small e =
      receive_all-Waits junk limit chunks xs (create junk size)
        (record {
          valid = create-IsValid junk size h;
          packets = packets;
          rest = rw (contents-create junk size) e;
          partial = rw (contents-create junk size) (Partial-nil f fmt xs limit packets);
        })
        small
