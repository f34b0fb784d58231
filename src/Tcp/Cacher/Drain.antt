-- ===== src/Tcp/Cacher/Drain.antt =====
-- `getValidBuffer` against its meaning on the queue of the bytes held: the packets that an
-- analyzer finds in it, one behind the other.
use rtsp_server.Base.{
  ℕ, zero, suc, ◌+◌, ◌-◌, ◌≤◌, ◌<◌, ◌≡◌, refl, ap, subst, ◌∙◌, ◌⊎◌, inl, inr, true, List, [], ◌∷◌,
  Option, none, some, arith, leb, le→ltb, if◌then◌else◌, ◌>>=◌, Bool-cases, Option-cases, length,
  take, drop, read_block_le, window, length-drop, drop-drop, drop-window, take-window, add32, sub32,
}
use rtsp_server.Tcp.Cacher.{
  Cacher, contents, size_limit, hand_out, Verdict, Analyzer, valid_loop, get_valid_buffer,
}
use rtsp_server.Tcp.Cacher.Append.{IsValid, length-contents}
use rtsp_server.Tcp.Cacher.Take.{advance, advance_lem, advance_words, discard, get_buffer_discards}

-- An analyzer whose packets lie within the bytes that it is shown, at most as many as a cacher
-- holds.
pub record Framer : Type 0 where
  pub analyze : Analyzer
  pub within :
      (w : List ℕ) (v : Verdict)
      → length w ≤ size_limit
      → analyze w ≡ some v
      → v.get_valid ≡ true
      → (v.out_start ≤ v.out_end) × (v.out_end < length w)

-- The packets of a queue and what is left of it.
unfoldable pub drain : ℕ → Analyzer → List ℕ → Option (List (List ℕ) × List ℕ)
drain zero analyze w = none
drain (suc fuel) analyze w =
    let rest = λ (u : List ℕ). drain fuel analyze u in
    if leb (length w) 0 then some ([], w) else (do
      v ← analyze w
      if v.get_valid
          then (do
            (packets, left) ← rest (drop (v.out_end + 1) w)
            some (window w v.out_start (v.out_end + 1 - v.out_start) ∷ packets, left))
          else some ([], discard v.invalid_bytes w))

-- The same packets, and the same bytes left, in a valid cacher; or a fault of both.
abbrev pub Refines : Option (List (List ℕ) × List ℕ) → Option (List (List ℕ) × Cacher) → Type 0
Refines none none = Unit
Refines none (some r) = ⊥
Refines (some r) none = ⊥
Refines (some (packets, rest)) (some (packets', c)) =
    (packets' ≡ packets) × (contents c ≡ rest) × IsValid c

hand_out_lem :
    {c : Cacher} (v : Verdict)
    → IsValid c
    → v.out_start ≤ v.out_end
    → v.out_end < c.data_size
    → hand_out c v
      ≡ some
          (window (contents c) v.out_start (v.out_end + 1 - v.out_start), advance c (v.out_end + 1))
unfolding hand_out
hand_out_lem {c} v ok le lt = rw (
  start,
  size,
  read_block_le c.data_buf (c.cur + v.out_start) (v.out_end + 1 - v.out_start)
      (omega (arith, ok.block, ok.fits)),
  next,
  (advance_words (v.out_end + 1) ok (omega arith)).0,
  (advance_words (v.out_end + 1) ok (omega arith)).1,
  inner,
)
  where
    start : add32 v.out_start c.cur ≡ c.cur + v.out_start
    start = omega (arith, ok.fits, ok.small)

    size : add32 (sub32 v.out_end v.out_start) 1 ≡ v.out_end + 1 - v.out_start
    size = omega (arith, ok.fits, ok.small)

    next : add32 v.out_end 1 ≡ v.out_end + 1
    next = omega (arith, ok.fits, ok.small)

    inner :
        window c.data_buf (c.cur + v.out_start) (v.out_end + 1 - v.out_start)
        ≡ window (contents c) v.out_start (v.out_end + 1 - v.out_start)
    inner =
        take-window c.data_buf (c.cur + v.out_start) (c.data_size - v.out_start)
          (v.out_end + 1 - v.out_start) (omega arith)
        ∙ ap (take (v.out_end + 1 - v.out_start))
            (drop-window c.data_buf c.cur c.data_size v.out_start (omega arith))

-- A packet put in front of both results.
Refines-cons :
    (p : List ℕ) (r : Option (List (List ℕ) × List ℕ)) (s : Option (List (List ℕ) × Cacher))
    → Refines r s
    → Refines (r >>= λ (ps, w). some (p ∷ ps, w)) (s >>= λ (ps, c). some (p ∷ ps, c))
Refines-cons p none none h = tt
Refines-cons p none (some s) h = h
Refines-cons p (some r) none h = h
Refines-cons p (some r) (some s) h = (ap (λ l. p ∷ l) h.0, h.1, h.2)

valid_loop-Refines :
    (f : Framer) (fuel : ℕ) {c : Cacher}
    → IsValid c
    → Refines (drain fuel f.analyze (contents c)) (valid_loop fuel f.analyze c)
unfolding drain valid_loop
valid_loop-Refines f zero v = tt
valid_loop-Refines f (suc fuel) {c} v =
    rw
      (
        length-contents v,
        read_block_le c.data_buf c.cur c.data_size (omega (arith, v.block, v.fits)),
      )
      (elim (Bool-cases (leb c.data_size 0)) [
        | inl empty ↦ rw empty (refl, refl, v)
        | inr bytes ↦ rw bytes (elim (Option-cases (f.analyze (contents c))) [
          | inl fault ↦ rw fault tt
          | inr (u, e) ↦ elim (Bool-cases u.get_valid) [
            | inl valid ↦
                let (le, lt) = f.within (contents c) u small e valid in
                let lt' : u.out_end < c.data_size = omega (arith, length-contents v, lt) in
                let next = advance_lem (u.out_end + 1) v (omega arith) in
                rw (e, hand_out_lem u v le lt', valid, le→ltb c.data_size u.out_end (omega arith))
                  (Refines-cons (window (contents c) u.out_start (u.out_end + 1 - u.out_start)) _ _
                    (subst
                      (λ w.
                        Refines (drain fuel f.analyze w)
                          (valid_loop fuel f.analyze (advance c (u.out_end + 1))))
                      next.1 (valid_loop-Refines f fuel next.0)))
            | inr invalid ↦
                let (ret, c', g, w, same) = get_buffer_discards u.invalid_bytes v in
                rw (e, g, invalid) (refl, rw (length-contents v) at same, w)
          ]
        ])
      ])
  where
    small : length (contents c) ≤ size_limit
    small = omega (arith, length-contents v, v.fits, v.small)

Refines-none : (r : Option (List (List ℕ) × List ℕ)) → Refines r none → r ≡ none
Refines-none none h = refl
Refines-none (some r) h = absurd h

-- A drain with fuel beyond the bytes held fails only by a fault of the analyzer, at some point of
-- the queue.
drain_fault :
    (f : Framer) (fuel : ℕ) (w : List ℕ)
    → length w < fuel
    → drain fuel f.analyze w ≡ none
    → (k : ℕ) × (k < length w) × (f.analyze (drop k w) ≡ none)
unfolding drain
drain_fault f zero w h e = absurd (omega arith)
drain_fault f (suc fuel) w h e = elim (Option-cases (f.analyze w)) [
  | inl fault ↦ (0, not_empty, fault)
  | inr (u, g) ↦ elim (Option-cases (drain fuel f.analyze (drop (u.out_end + 1) w))) [
    | inl later ↦
        let (k, lt, q) =
          drain_fault f fuel (drop (u.out_end + 1) w)
            (omega (arith, length-drop (u.out_end + 1) w, not_empty)) later in
        (
          u.out_end + 1 + k,
          omega (arith, lt, length-drop (u.out_end + 1) w),
          rw (← drop-drop (u.out_end + 1) k w) q,
        )
    | inr (r, q) ↦ absurd (ground arith)
  ]
]
  where
    not_empty : 0 < length w
    not_empty = ground arith

-- On a valid cacher `getValidBuffer` hands out the packets that draining the queue of the bytes
-- held gives, keeps what the drain leaves, and keeps the invariant. It ends; and it reads outside
-- the block only where the analyzer reads outside the bytes that it is shown.
pub get_valid_buffer-Refines :
    (f : Framer) {c : Cacher}
    → IsValid c
    → Refines (drain (c.data_size + 1) f.analyze (contents c)) (get_valid_buffer f.analyze c)
      × (((packets : List (List ℕ)) × (c' : Cacher) × (get_valid_buffer f.analyze c
              ≡ some (packets, c')))
          ⊎ ((get_valid_buffer f.analyze c ≡ none)
              × (k : ℕ) × (k < c.data_size)
              × (f.analyze (drop k (contents c)) ≡ none)))
unfolding get_valid_buffer
get_valid_buffer-Refines f {c} v = (
  refines,
  elim (Option-cases (get_valid_buffer f.analyze c)) [
    | inl fault ↦
        let (k, lt, outside) = rw (length-contents v) at (
          drain_fault f (c.data_size + 1) (contents c) (omega (arith, length-contents v))
            (both fault)) in
        inr (fault, k, lt, outside)
    | inr ((packets, c'), e) ↦ inl (packets, c', e)
  ],
)
  where
    refines :
        Refines (drain (c.data_size + 1) f.analyze (contents c)) (get_valid_buffer f.analyze c)
    refines = valid_loop-Refines f (c.data_size + 1) v

    both :
        get_valid_buffer f.analyze c ≡ none → drain (c.data_size + 1) f.analyze (contents c) ≡ none
    both e = Refines-none _ (rw e at refines)
