-- ===== src/Flv/Steps/Ends.antt =====
-- Steps that end otherwise than for want of fuel, and where the parser then is in its file.
use rtsp_server.Base.{
  ℕ, ◌+◌, ◌≤◌, ◌≡◌, ◌≢◌, ap, ◌∙◌, Bool, true, false, List, Option, none, some, if◌then◌else◌, arith,
}
use rtsp_server.File.Handler.{Handler, is_read, read_file}
use rtsp_server.File.Handler.Moves.{place, HasMoved, read_file-HasMoved}
use rtsp_server.Flv.Steps.{
  Parser, Outcome, Step, ◌>>=◌, then_do, attempt, recover, read, after_read,
}

pub false≢true : false ≢ true
false≢true e = ground (arith, e)

-- Unless `sure` is false, the file is read, from position `p` on or further.
pub record IsAt (sure : Bool) (p : ℕ) (s : Parser) : Type 0 where
  pub reads : sure ≡ true → is_read s.file.mode ≡ true
  pub beyond : sure ≡ true → p ≤ place s.file

-- An end that is none for want of fuel, and what then holds.
unfoldable pub Ends : {A : Type 0} → (A → Parser → Type 0) → Outcome A → Type 0
Ends Q (Outcome.done a s) = Q a s
Ends Q (Outcome.failed s) = Unit
Ends Q Outcome.fault = Unit
Ends Q Outcome.out_of_fuel = ⊥

module _ {A B : Type 0} where
  pub then_do-Ends :
      (Q : A → Parser → Type 0) (R : B → Parser → Type 0) (o : Outcome A) (f : A → Step B)
      → Ends Q o
      → ((a : A) (s : Parser) → Q a s → Ends R (f a s))
      → Ends R (then_do o f)
  unfolding Ends then_do
  then_do-Ends Q R (Outcome.done a s) f ends next = next a s ends
  then_do-Ends Q R (Outcome.failed s) f ends next = tt
  then_do-Ends Q R Outcome.fault f ends next = tt
  then_do-Ends Q R Outcome.out_of_fuel f ends next = absurd ends

  -- The rule of a step and those behind it.
  pub bind-Ends :
      (Q : A → Parser → Type 0) (R : B → Parser → Type 0) (m : Step A) (f : A → Step B) (s : Parser)
      → Ends Q (m s)
      → ((a : A) (s : Parser) → Q a s → Ends R (f a s))
      → Ends R ((m >>= f) s)
  unfolding ◌>>=◌
  bind-Ends Q R m f s ends next = then_do-Ends Q R (m s) f ends next

pub after_read-Ends :
    (sure : Bool) (p n : ℕ) (s : Parser) (r : Option (Option (List ℕ) × Handler))
    → IsAt sure p s
    → HasMoved s.file n r
    → Ends (λ bytes s'. IsAt sure (p + n) s') (after_read r s)
unfolding Ends after_read HasMoved
after_read-Ends sure p n s none at moved = tt
after_read-Ends sure p n s (some (none, h)) at moved = tt
after_read-Ends sure p n s (some (some bytes, h)) at (moved, mode) = record {
  reads = λ e. ap is_read mode ∙ at.reads e;
  beyond = λ e. omega (arith, moved, at.beyond e);
}

-- A read moves on by its size.
pub read-Ends :
    (sure : Bool) (p n : ℕ) (s : Parser)
    → IsAt sure p s
    → Ends (λ bytes s'. IsAt sure (p + n) s') (read n s)
unfolding read
read-Ends sure p n s at =
    after_read-Ends sure p n s (read_file n s.file) at (read_file-HasMoved s.file n)

-- Whatever a step gives, the parser is at `p` or further.
abbrev pub Keeps : Bool → ℕ → {A : Type 0} → A → Parser → Type 0
Keeps sure p a s = IsAt sure p s

pub unsure : (p : ℕ) (s : Parser) → IsAt false p s
unsure p s = record { reads = λ e. absurd (false≢true e); beyond = λ e. absurd (false≢true e) }

pub Ends-mono :
    {A : Type 0} (Q R : A → Parser → Type 0) (o : Outcome A)
    → ((a : A) (s : Parser) → Q a s → R a s)
    → Ends Q o
    → Ends R o
unfolding Ends
Ends-mono Q R (Outcome.done a s) implies ends = implies a s ends
Ends-mono Q R (Outcome.failed s) implies ends = tt
Ends-mono Q R Outcome.fault implies ends = tt
Ends-mono Q R Outcome.out_of_fuel implies ends = absurd ends

pub read-Keeps :
    (sure : Bool) (p n : ℕ) (s : Parser) → IsAt sure p s → Ends (Keeps sure p) (read n s)
read-Keeps sure p n s at =
    Ends-mono _ _ (read n s)
      (λ bytes s' at'. record { reads = at'.reads; beyond = λ e. omega (arith, at'.beyond e) })
      (read-Ends sure p n s at)

pub if-Ends :
    {A : Type 0} (Q : A → Parser → Type 0) (test : Bool) (m k : Step A) (s : Parser)
    → Ends Q (m s)
    → Ends Q (k s)
    → Ends Q ((if test then m else k) s)
if-Ends Q true m k s ends ends' = ends
if-Ends Q false m k s ends ends' = ends'

unfoldable pub Tried : {A : Type 0} → (A → Parser → Type 0) → Option A → Parser → Type 0
Tried Q none s = Unit
Tried Q (some a) s = Q a s

pub recover-Ends :
    {A : Type 0} (Q : A → Parser → Type 0) (o : Outcome A) → Ends Q o → Ends (Tried Q) (recover o)
unfolding Ends Tried recover
recover-Ends Q (Outcome.done a s) ends = ends
recover-Ends Q (Outcome.failed s) ends = tt
recover-Ends Q Outcome.fault ends = tt
recover-Ends Q Outcome.out_of_fuel ends = absurd ends

pub attempt-Ends :
    {A : Type 0} (Q : A → Parser → Type 0) (m : Step A) (s : Parser)
    → Ends Q (m s)
    → Ends (Tried Q) (attempt m s)
unfolding attempt
attempt-Ends Q m s ends = recover-Ends Q (m s) ends
