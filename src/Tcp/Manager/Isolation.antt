-- ===== src/Tcp/Manager/Isolation.antt =====
-- What the manager keeps apart: the bytes of one socket from those of another, and those of a
-- socket from those of an earlier one with its number.
use rtsp_server.Base.{
  ℕ, ◌≤◌, ◌≡◌, ◌≢◌, refl, ◌∙◌, inl, inr, List, [], ◌∷◌, Option, none, some, Option-cases, arith,
  find, put, erase, find-put_self, find-put_ne, find-erase, length, ==_refl,
}
use rtsp_server.Tcp.Cacher.{
  Cacher, done, contents, default_cacher_size, append_buffer, get_buffer, get_valid_buffer,
}
use rtsp_server.Tcp.Cacher.Append.{
  create-IsValid, create-Fits, contents-create, append_buffer-Appends,
}
use rtsp_server.Tcp.Manager.{
  Manager, cacher_of, append, get, get_valid, remove_cacher, Call, appends, gets, gets_valid,
  removes, socket, step, run,
}

-- The table changed at one key at most.
data ChangedAt (s : ℕ) (m : Manager) : Manager → Type 0 where
  kept : ChangedAt s m m
  written : (c : Cacher) → ChangedAt s m (put s c m)
  erased : ChangedAt s m (erase s m)

ChangedAt-find : {s : ℕ} {m m' : Manager} (j : ℕ) → ChangedAt s m m' → s ≢ j → find j m' ≡ find j m
ChangedAt-find j kept h = refl
ChangedAt-find {s} {m} j (written c) h = find-put_ne s j c m h
ChangedAt-find {s} {m} j erased h = ground (arith, find-erase s j m)

-- The manager that a call leaves, if it does not fault.
abbrev Leaves : ℕ → Manager → Option Manager → Type 0
Leaves s m none = Unit
Leaves s m (some m') = ChangedAt s m m'

step-Leaves : (junk : ℕ → ℕ) (m : Manager) (c : Call) → Leaves (socket c) m (step junk m c)
unfolding step append get get_valid remove_cacher
step-Leaves junk m (appends s data_in) =
    elim (Option-cases (append_buffer junk (cacher_of junk m s) data_in)) [
      | inl fault ↦ rw fault tt
      | inr ((ret, c), e) ↦ rw e (written c)
    ]
step-Leaves junk m (gets s wanted size remove) = elim (Option-cases (find s m)) [
  | inl none_there ↦ rw (none_there, get) kept
  | inr (c, e) ↦ elim (Option-cases (get_buffer c wanted size remove)) [
    | inl fault ↦ rw (e, get, fault) tt
    | inr ((ret, bytes, c'), e') ↦ rw (e, get, e') (written c')
  ]
]
step-Leaves junk m (gets_valid s analyzer) = elim (Option-cases (find s m)) [
  | inl none_there ↦ rw (none_there, get_valid) kept
  | inr (c, e) ↦ elim (Option-cases (get_valid_buffer analyzer c)) [
    | inl fault ↦ rw (e, get_valid, fault) tt
    | inr ((packets, c'), e') ↦ rw (e, get_valid, e') (written c')
  ]
]
step-Leaves junk m (removes s) = erased

-- No call in the list is for socket `j`.
abbrev pub Elsewhere : ℕ → List Call → Type 0
Elsewhere j [] = Unit {0}
Elsewhere j (c ∷ cs) = (socket c ≢ j) × Elsewhere j cs

-- Whatever calls are made for other sockets, if none of them faults, the manager has of a socket
-- what it had.
pub run-find :
    (junk : ℕ → ℕ) (m : Manager) (cs : List Call) (j : ℕ) {m' : Manager}
    → Elsewhere j cs
    → run junk m cs ≡ some m'
    → find j m' ≡ find j m
unfolding run
run-find junk m [] j h e = cc
run-find junk m (c ∷ cs) j h e = elim (Option-cases (step junk m c)) [
  | inl fault ↦ absurd (no_result (rw fault at e))
  | inr (m₁, p) ↦
      run-find junk m₁ cs j h.1 (rw p at e) ∙ ChangedAt-find j (rw p at (step-Leaves junk m c)) h.0
]
  where
    no_result : {m' : Manager} → ◌≡◌ {A = Option Manager} none (some m') → ⊥
    no_result x = cc

-- The bytes that the manager holds of a socket.
abbrev pub held : Manager → ℕ → List ℕ
held m s = elim (find s m) [ none ↦ [] | some c ↦ contents c ]

-- Once a socket is closed nothing of its bytes is left: the next bytes under its number, up to the
-- default size of a block, stand alone, whatever calls for other sockets come between, if none of
-- them faults.
pub append_after_remove :
    (junk : ℕ → ℕ) (m : Manager) (s : ℕ) (cs : List Call) (data_in : List ℕ) {m₁ : Manager}
    → Elsewhere s cs
    → run junk (remove_cacher m s) cs ≡ some m₁
    → length data_in ≤ default_cacher_size
    → (m₂ : Manager) × (append junk m₁ s data_in ≡ some (done, m₂)) × (held m₂ s ≡ data_in)
unfolding append remove_cacher cacher_of
append_after_remove junk m s cs data_in {m₁} h e le =
    let gone : find s m₁ ≡ none =
      run-find junk (erase s m) cs s h e ∙ find-erase s s m ∙ rw (==_refl s) in
    let (c, p, v, q) =
      (append_buffer-Appends junk data_in (create-IsValid junk default_cacher_size (omega arith))
          (omega arith))
        (create-Fits junk default_cacher_size data_in le) in
    (
      put s c m₁,
      rw (gone, cacher_of, p),
      rw (find-put_self s c m₁, held) (q ∙ rw (contents-create junk default_cacher_size)),
    )
