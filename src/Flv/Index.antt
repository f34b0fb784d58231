-- ===== src/Flv/Index.antt =====
-- class flvIdxReader (flvIdx.h and flvIdx.cpp), and what it finds in the entries that
-- flvIdxWriter has written. A `double` is the word of its bits, `at_least` their `>=`.
use rtsp_server.Base.{
  ℕ, zero, suc, ◌^◌, ◌<◌, ◌≤◌, ◌≡◌, refl, sym, ap, ap₂, ◌∙◌, Bool, true, ◌&&◌, List, [], ◌∷◌, ◌++◌,
  Option, none, some, length, load, store, load-store, if◌then◌else◌, if_true, if_false, ◌==◌, ltb,
  ◌≢◌, false, ◌⊎◌, get_elem?, ==_iff, arith, Bool-cases, inl, inr,
}
use rtsp_server.File.Handler.{Handler, Origin, handler, read_file, seek}
use rtsp_server.File.Handler.Ahead.{IsAhead, read_file-IsAhead}

-- flvIdx: a time, and an offset in the recording.
pub record Idx : Type 0 where
  pub time : ℕ
  pub offset : ℕ

-- Two reads of eight bytes: an entry, or `none` where one of them fails.
unfoldable pub entry_from :
    List ℕ → Option (Option (List ℕ) × Handler) → Option (Option Idx × Handler)
entry_from time none = none
entry_from time (some (none, h)) = some (none, h)
entry_from time (some (some offset, h)) =
    some (some (record { time = load time; offset = load offset }), h)

unfoldable pub entry_after : Option (Option (List ℕ) × Handler) → Option (Option Idx × Handler)
entry_after none = none
entry_after (some (none, h)) = some (none, h)
entry_after (some (some time, h)) = entry_from time (read_file 8 h)

unfoldable pub read_entry : Handler → Option (Option Idx × Handler)
read_entry h = entry_after (read_file 8 h)

-- lastIdx once an entry is read: the entry itself while nothing is known.
unfoldable pub known : Idx → Idx → Idx
known last entry = if last.offset == 0 then entry else last

module _ (at_least : ℕ → ℕ → Bool) where
  -- A round of the loop of getNearestIdx, with the rounds behind it.
  unfoldable pub nearest_round :
      ℕ
      → Idx
      → Option (Option Idx × Handler)
      → (Idx → Handler → Option (Option Idx × Handler))
      → Option (Option Idx × Handler)
  nearest_round time last none next = none
  nearest_round time last (some (none, h)) next = some (none, h)
  nearest_round time last (some (some entry, h)) next =
      let later = next entry h in
      if at_least entry.time time then some (some (known last entry), h) else later

  -- That loop, on fuel for its rounds; the result is `none` where a read fails.
  unfoldable pub nearest_loop : ℕ → ℕ → Idx → Handler → Option (Option Idx × Handler)
  nearest_loop zero time last h = none
  nearest_loop (suc fuel) time last h =
      nearest_round time last (read_entry h) (nearest_loop fuel time)

  -- getNearestIdx on a file that is open, from the beginning.
  unfoldable pub get_nearest_idx : ℕ → ℕ → Handler → Option (Option Idx × Handler)
  get_nearest_idx fuel time h =
      nearest_loop fuel time (record { time = 0; offset = 0 }) (handler (seek 0 Origin.seek_set h))

  -- The search in a list of entries.
  unfoldable pub nearest : ℕ → Idx → List Idx → Option Idx
  nearest time last [] = none
  nearest time last (entry ∷ rest) =
      let later = nearest time entry rest in
      if at_least entry.time time then some (known last entry) else later

  -- The bytes of entries, as appendIdx writes them, and that these are words of 64 bits.
  unfoldable pub idx_bytes : List Idx → List ℕ
  idx_bytes [] = []
  idx_bytes (entry ∷ rest) = store 8 entry.time ++ (store 8 entry.offset ++ idx_bytes rest)

  unfoldable pub are_words : List Idx → Bool
  are_words [] = true
  are_words (entry ∷ rest) =
      ltb entry.time (0x100 ^ 8) && (ltb entry.offset (0x100 ^ 8) && are_words rest)

  -- Which entry the search finds, from the first one that is late enough and the one before it.
  nearest-known :
      (time : ℕ) (last : Idx) (entries : List Idx) (k : ℕ) (entry before : Idx)
      → get_elem? entries k ≡ some entry
      → get_elem? (last ∷ entries) k ≡ some before
      → at_least entry.time time ≡ true
      → ((j : ℕ) (y : Idx) → j < k → get_elem? entries j ≡ some y → at_least y.time time ≡ false)
      → nearest time last entries ≡ some (known before entry)
  unfolding nearest
  nearest-known time last [] k entry before e b late early = absurd (ground arith)
  nearest-known time last (x ∷ rest) zero entry before e b late early =
      let same : x ≡ entry = ground arith in
      let same' : last ≡ before = ground arith in
      if_true _ _ _ (ap (λ y. at_least y.time time) same ∙ late)
      ∙ ap₂ (λ l y. some (known l y)) same' same
  nearest-known time last (x ∷ rest) (suc k) entry before e b late early =
      if_false _ _ _ (early 0 x (omega arith) refl)
      ∙ nearest-known time x rest k entry before e b late
          (λ j y below. early (suc j) y (omega arith))

  known-cases :
      (last entry : Idx)
      → ((last.offset ≡ 0) × (known last entry ≡ entry))
        ⊎ ((last.offset ≢ 0) × (known last entry ≡ last))
  unfolding known
  known-cases last entry = grind (arith, ==_iff last.offset 0)

  read_entry-IsAhead :
      (h : Handler) (entry : Idx) (rest : List ℕ)
      → IsAhead h (store 8 entry.time ++ (store 8 entry.offset ++ rest))
      → entry.time < 0x100 ^ 8
      → entry.offset < 0x100 ^ 8
      → (h' : Handler) × (read_entry h ≡ some (some entry, h')) × IsAhead h' rest
  unfolding read_entry entry_after entry_from
  read_entry-IsAhead h entry rest ahead small small' =
      let (h₁, e₁, a₁, m₁) = read_file-IsAhead h 8 (store 8 entry.time) _ ahead refl in
      let (h₂, e₂, a₂, m₂) = read_file-IsAhead h₁ 8 (store 8 entry.offset) rest a₁ refl in
      (
        h₂,
        ap entry_after e₁
            ∙ (ap (entry_from (store 8 entry.time)) e₂
                ∙ ap₂ (λ t o. some (some (record { time = t; offset = o }), h₂))
                    (load-store 8 entry.time small) (load-store 8 entry.offset small')),
        a₂,
      )

  -- Where the entries of an index are ahead and the search in them finds one, the loop of
  -- getNearestIdx on as many rounds as there are entries, or more, gives that one.
  nearest_loop-nearest :
      (fuel time : ℕ) (last found : Idx) (entries : List Idx) (h : Handler)
      → IsAhead h (idx_bytes entries)
      → are_words entries ≡ true
      → length entries ≤ fuel
      → nearest time last entries ≡ some found
      → (h' : Handler) × (nearest_loop fuel time last h ≡ some (some found, h'))
  unfolding nearest_loop nearest_round nearest idx_bytes are_words
  nearest_loop-nearest fuel time last found [] h ahead words enough e = absurd (ground arith)
  nearest_loop-nearest zero time last found (entry ∷ rest) h ahead words enough e =
      absurd (omega arith)
  nearest_loop-nearest (suc fuel) time last found (entry ∷ rest) h ahead words enough e =
      let small : entry.time < 0x100 ^ 8 = ground arith in
      let small' : entry.offset < 0x100 ^ 8 = ground arith in
      let words' : are_words rest ≡ true = ground arith in
      let (h₁, e₁, a₁) = read_entry-IsAhead h entry (idx_bytes rest) ahead small small' in
      let first = ap (λ r. nearest_round time last r (nearest_loop fuel time)) e₁ in
      elim (Bool-cases (at_least entry.time time)) [
        | inl late ↦ (
          h₁,
          first ∙ (if_true _ _ _ late ∙ ap (λ o. with_handler o h₁) (sym (if_true _ _ _ late) ∙ e)),
        )
        | inr early ↦
            let (h', e') =
              nearest_loop-nearest fuel time entry found rest h₁ a₁ words' (omega arith)
                (sym (if_false _ _ _ early) ∙ e) in
            (h', first ∙ (if_false _ _ _ early ∙ e'))
      ]
    where
      with_handler : Option Idx → Handler → Option (Option Idx × Handler)
      with_handler found h = some (found, h)

  -- The index is read from an entry on, each of its entries in 64 bits, with rounds for all of them.
  -- Of the first entry that is not before the time, getNearestIdx gives the one before it; but that
  -- first entry itself where the one before it has the offset 0. The one before the first of all is
  -- the last one that was read, at the beginning with the offset 0.
  pub nearest_loop_lem :
      (fuel time : ℕ) (last : Idx) (entries : List Idx) (h : Handler) (k : ℕ) (entry before : Idx)
      → IsAhead h (idx_bytes entries)
      → are_words entries ≡ true
      → length entries ≤ fuel
      → get_elem? entries k ≡ some entry
      → get_elem? (last ∷ entries) k ≡ some before
      → at_least entry.time time ≡ true
      → ((j : ℕ) (y : Idx) → j < k → get_elem? entries j ≡ some y → at_least y.time time ≡ false)
      → (found : Idx) × (h' : Handler) × (nearest_loop fuel time last h ≡ some (some found, h'))
        × (((before.offset ≡ 0) × (found ≡ entry)) ⊎ ((before.offset ≢ 0) × (found ≡ before)))
  nearest_loop_lem fuel time last entries h k entry before ahead words enough e b late early =
      let (h', loop) =
        nearest_loop-nearest fuel time last (known before entry) entries h ahead words enough
          (nearest-known time last entries k entry before e b late early) in
      (known before entry, h', loop, known-cases before entry)
