-- ===== src/Tcp/Stream/Drained.antt =====
-- What a drain of the queue leaves, where the bytes are those of packets.
use rtsp_server.Base.{
  ℕ, zero, suc, ◌+◌, ◌-◌, ◌≤◌, ◌<◌, ◌≡◌, refl, ap, subst, ◌∙◌, inl, inr, List, [], ◌∷◌, ◌++◌,
  Option, some, arith, le→ltb, leb, leb→le, lt→leb, ◌>>=◌, Bool-cases, length, take, append-nil,
  length-append, drop-append_self, take-append_self,
}
use rtsp_server.Tcp.Cacher.{size_limit}
use rtsp_server.Tcp.Cacher.Drain.{Framer, drain}
use rtsp_server.Tcp.Stream.{Format, concat, All}

-- A list that begins with two others begins with the longer one.
split_long :
    (x w s t : List ℕ)
    → w ++ s ≡ x ++ t
    → length x ≤ length w
    → (u : List ℕ) × (w ≡ x ++ u) × (u ++ s ≡ t)
split_long [] w s t e h = (w, refl, e)
split_long (a ∷ x) [] s t e h = absurd (omega arith)
split_long (a ∷ x) (b ∷ w) s t e h =
    let (u, p, q) = split_long x w s t (cc) (omega arith) in (u, cc, q)

split_short :
    (x w s t : List ℕ)
    → w ++ s ≡ x ++ t
    → length w < length x
    → (v : List ℕ) × (x ≡ w ++ v) × (s ≡ v ++ t)
split_short x [] s t e h = (x, refl, e)
split_short [] (b ∷ w) s t e h = absurd (omega arith)
split_short (a ∷ x) (b ∷ w) s t e h =
    let (v, p, q) = split_short x w s t (cc) (omega arith) in (v, cc, q)

module _ (f : Framer) (fmt : Format f) where
  drain_whole :
      (fuel : ℕ) (x u : List ℕ)
      → fmt.IsPacket x
      → length (x ++ u) ≤ size_limit
      → drain (suc fuel) f.analyze (x ++ u)
        ≡ (drain fuel f.analyze u >>= λ (ps, left). some (x ∷ ps, left))
  unfolding drain
  drain_whole fuel x u h le =
      let (invalid, e) = fmt.whole x u h le in
      rw (
        lt→leb (length (x ++ u)) 0 (omega (arith, fmt.nonempty x h, length-append x u)),
        e,
        end,
        full,
        take-append_self,
        drop-append_self,
      )
    where
      full : length x - 0 ≡ length x
      full = omega arith

      end : length x - 1 + 1 ≡ length x
      end = omega (arith, fmt.nonempty x h)

  drain_part :
      (fuel : ℕ) (x : List ℕ) (k : ℕ)
      → fmt.IsPacket x
      → k < length x
      → drain (suc fuel) f.analyze (take k x) ≡ some ([], take k x)
  unfolding drain
  drain_part fuel x k h lt = elim (Bool-cases (leb (length (take k x)) 0)) [
    | inl empty ↦ rw empty
    | inr some_bytes ↦
        let (end, e) = fmt.part x k h lt in
        rw (some_bytes, e, le→ltb (length (take k x)) 0 (omega arith))
  ]

  -- Packets of the format, of `limit` bytes at most.
  abbrev pub Packets : ℕ → List (List ℕ) → Type 0
  Packets limit = All (λ x. fmt.IsPacket x × (length x ≤ limit))

  -- The bytes left are no whole packet of those still to come.
  abbrev pub Partial : List ℕ → List (List ℕ) → Type 0
  Partial left [] = left ≡ []
  Partial left (x ∷ xs) = length left < length x

  pub Partial-le :
      (limit : ℕ) (left : List ℕ) (xs : List (List ℕ))
      → Partial left xs
      → Packets limit xs
      → length left ≤ limit
  Partial-le limit left [] p h = rw p (omega arith)
  Partial-le limit left (x ∷ xs) p h = omega (arith, h.0.1)

  pub Partial-nil : (xs : List (List ℕ)) (limit : ℕ) → Packets limit xs → Partial [] xs
  Partial-nil [] limit h = refl
  Partial-nil (x ∷ xs) limit h = fmt.nonempty x h.0.0

  -- Where nothing more comes, nothing is left.
  pub Partial-end :
      (left : List ℕ) (xs : List (List ℕ))
      → Partial left xs
      → left ++ [] ≡ concat xs
      → (xs ≡ []) × (left ≡ [])
  Partial-end left [] p e = (refl, p)
  Partial-end left (x ∷ xs) p e =
      absurd (omega (arith, ap length (append-nil left), ap length e, length-append x (concat xs)))

  -- The first packets are handed out; the bytes left and those still to come make up the others.
  pub record Drained (limit : ℕ) (xs : List (List ℕ)) (s : List ℕ)
      (r : Option (List (List ℕ) × List ℕ)) : Type 0 where
    pub out : List (List ℕ)
    pub later : List (List ℕ)
    pub left : List ℕ
    pub result : r ≡ some (out, left)
    pub split : xs ≡ out ++ later
    pub packets : Packets limit later
    pub rest : left ++ s ≡ concat later
    pub partial : Partial left later

  drain-nil : (fuel : ℕ) → drain (suc fuel) f.analyze [] ≡ some ([], [])
  unfolding drain
  drain-nil fuel = refl

  Drained-cons :
      (limit : ℕ) (x : List ℕ) (xs : List (List ℕ)) (s : List ℕ)
      (r : Option (List (List ℕ) × List ℕ))
      → Drained limit xs s r
      → Drained limit (x ∷ xs) s (r >>= λ (ps, left). some (x ∷ ps, left))
  Drained-cons limit x xs s r d = record {
    out = x ∷ d.out;
    later = d.later;
    left = d.left;
    result = rw d.result;
    split = ap (λ l. x ∷ l) d.split;
    packets = d.packets;
    rest = d.rest;
    partial = d.partial;
  }

  pub drain-Drained :
      (limit fuel : ℕ) (xs : List (List ℕ)) (w s : List ℕ)
      → Packets limit xs
      → length w ≤ size_limit
      → length w < fuel
      → w ++ s ≡ concat xs
      → Drained limit xs s (drain fuel f.analyze w)
  drain-Drained limit zero xs w s h le lt e = absurd (omega arith)
  drain-Drained limit (suc fuel) [] [] s h le lt e = record {
    out = [];
    later = [];
    left = [];
    result = drain-nil fuel;
    split = refl;
    packets = tt;
    rest = e;
    partial = refl;
  }
  drain-Drained limit (suc fuel) [] (b ∷ w) s h le lt e = cc
  drain-Drained limit (suc fuel) (x ∷ xs) w s h le lt e =
      elim (Bool-cases (leb (length x) (length w))) [
        | inl long ↦
            let (u, p, q) = split_long x w s (concat xs) e (leb→le _ _ long) in
            let shorter : length w ≡ length x + length u = ap length p ∙ length-append x u in
            let d =
              drain-Drained limit fuel xs u s h.1 (omega arith)
                (omega (arith, fmt.nonempty x h.0.0)) q in
            rw (p, drain_whole fuel x u h.0.0 (rw p at le)) (Drained-cons limit x xs s _ d)
        | inr short ↦
            let (v, p, q) = split_short x w s (concat xs) e (ground arith) in
            let taken : take (length w) x ≡ w = ap (take (length w)) p ∙ take-append_self w v in
            record {
              out = [];
              later = x ∷ xs;
              left = w;
              result =
                  subst (λ u. drain (suc fuel) f.analyze u ≡ some ([], u)) taken
                    (drain_part fuel x (length w) h.0.0 (ground arith));
              split = refl;
              packets = h;
              rest = e;
              partial = ground arith;
            }
      ]
