-- ===== src/Flv/Parser/Ends.antt =====
-- That parseScriptData ends: every round of its loop that goes on has read a byte.
use rtsp_server.Base.{
  ℕ, zero, suc, ◌+◌, ◌≤◌, ◌<◌, ◌≡◌, ◌≢◌, refl, codes, sym, subst, Bool, true, false, List, Option,
  none, some, ltb, ltb→lt, ◌==◌, Bool-cases, if_true, if_false, inl, inr, arith, load, htonl,
}
use rtsp_server.File.Handler.{Handler, is_read, current_file}
use rtsp_server.File.Handler.Moves.{place}
use rtsp_server.Flv.Format.{fast_hton3}
use rtsp_server.Flv.Steps.{Parser, Outcome, Step, ◌>>=◌, then_do, require, byte_of, position}
use rtsp_server.Flv.Parser.{Tag}
use rtsp_server.Flv.Parser.Script.{
  read_string, read_double, read_skipped, read_value, read_key, array_loop, array_entry, still,
  read_array, read_item, script_loop, parse_script_data, same_bytes,
}
use rtsp_server.Flv.Steps.Ends.{
  bind-Ends, read-Ends, Keeps, unsure, read-Keeps, if-Ends, Tried, attempt-Ends, IsAt, Ends,
}

read_string-Keeps :
    (sure : Bool) (p : ℕ) (s : Parser) → IsAt sure p s → Ends (Keeps sure p) (read_string s)
unfolding read_string
read_string-Keeps sure p s at =
    bind-Ends _ _ _ _ s (read-Keeps sure p 2 s at) λ size s₁ at₁. read-Keeps sure p _ s₁ at₁

read_skipped-Keeps :
    (sure : Bool) (p : ℕ) (m : Step (List ℕ)) (s : Parser)
    → Ends (Keeps sure p) (m s)
    → Ends (Keeps sure p) (read_skipped m s)
unfolding read_skipped Ends
read_skipped-Keeps sure p m s ends = bind-Ends _ _ m _ s ends λ bytes s₁ at₁. at₁

read_double-Keeps :
    (sure : Bool) (p : ℕ) (name : List ℕ) (s : Parser)
    → IsAt sure p s
    → Ends (Keeps sure p) (read_double name s)
unfolding read_double Ends
read_double-Keeps sure p name s at = bind-Ends _ _ _ _ s (read-Keeps sure p 8 s at) λ bytes s₁ at₁.
    if-Ends _ (same_bytes name (codes "duration")) _ _ s₁
      (record { reads = at₁.reads; beyond = at₁.beyond }) at₁

read_value-Keeps :
    (sure : Bool) (p : ℕ) (name : List ℕ) (type : ℕ) (s : Parser)
    → IsAt sure p s
    → Ends (Keeps sure p) (read_value name type s)
unfolding read_value Ends
read_value-Keeps sure p name type s at =
    if-Ends _ (type == 0) _ _ s (read_double-Keeps sure p name s at) (
      if-Ends _ (type == 1) _ _ s (read_skipped-Keeps sure p _ s (read-Keeps sure p 1 s at)) (
        if-Ends _ (type == 2) _ _ s (read_skipped-Keeps sure p _ s (read_string-Keeps sure p s at))
          at))

read_key-Keeps :
    (sure : Bool) (p : ℕ) (s : Parser) → IsAt sure p s → Ends (Keeps sure p) (read_key s)
unfolding read_key Ends
read_key-Keeps sure p s at =
    bind-Ends _ _ _ _ s (read_string-Keeps sure p s at)
      λ name s₁ at₁. bind-Ends _ _ _ _ s₁ (read-Keeps sure p 1 s₁ at₁) λ type s₂ at₂. at₂

-- What follows a key, or the failure of its read.
array_entry-Ends :
    (p : ℕ) (loop : Bool → Step Bool) (result : Bool) (key : Option (List ℕ × ℕ)) (s : Parser)
    → Tried (Keeps result p) key s
    → ((r : Bool) (s : Parser) → IsAt r p s → Ends (λ (r' : Bool) s'. IsAt r' p s') (loop r s))
    → Ends (λ (r : Bool) s'. IsAt r p s') (array_entry loop result key s)
unfolding array_entry Tried Ends still
array_entry-Ends p loop result none s tried rest = unsure p s
array_entry-Ends p loop result (some (name, type)) s tried rest =
    bind-Ends _ _ _ _ s
      (attempt-Ends _ (read_value name type) s (read_value-Keeps result p name type s tried))
      λ value s₁ tried'.
        elim value
            as (λ v.
              Tried (Keeps result p) v s₁
              → Ends (λ (r : Bool) s'. IsAt r p s') (loop (still v result) s₁)) [
                | none ↦ λ t. rest false s₁ (unsure p s₁)
                | some u ↦ λ t. rest result s₁ t
              ]
          tried'

-- The entries of an array. Where the result is true the file is read beyond the start; where it
-- is false nothing is known.
array_loop-Ends :
    (p left : ℕ) (result : Bool) (s : Parser)
    → IsAt result p s
    → Ends (λ (r : Bool) s'. IsAt r p s') (array_loop left result s)
unfolding array_loop Ends
array_loop-Ends p zero result s at = at
array_loop-Ends p (suc left) result s at =
    bind-Ends _ _ _ _ s (attempt-Ends _ read_key s (read_key-Keeps result p s at)) λ key s₁ tried.
      array_entry-Ends p (array_loop left) result key s₁ tried (array_loop-Ends p left)

require-Ends :
    (sure test : Bool) (p : ℕ) (s : Parser) → IsAt sure p s → Ends (Keeps sure p) (require test s)
unfolding Ends
require-Ends sure true p s at = at
require-Ends sure false p s at = tt

require_sure-Ends :
    (sure : Bool) (p : ℕ) (s : Parser) → IsAt sure p s → Ends (Keeps true p) (require sure s)
unfolding Ends
require_sure-Ends true p s at = at
require_sure-Ends false p s at = tt

read_array-Ends : (p : ℕ) (s : Parser) → IsAt true p s → Ends (Keeps true p) (read_array s)
unfolding read_array
read_array-Ends p s at = bind-Ends _ _ _ _ s (read-Keeps true p 4 s at) λ count s₁ at₁.
    bind-Ends _ _ _ _ s₁ (array_loop-Ends p (htonl (load count)) true s₁ at₁) λ result s₂ at₂.
      bind-Ends _ _ _ _ s₂ (read-Keeps result p 3 s₂ at₂) λ marker s₃ at₃.
        bind-Ends _ _ _ _ s₃ (require-Ends result (fast_hton3 (load marker) == 9) p s₃ at₃)
          λ u s₄ at₄. require_sure-Ends result p s₄ at₄

read_item-Ends : (p type : ℕ) (s : Parser) → IsAt true p s → Ends (Keeps true p) (read_item type s)
unfolding read_item
read_item-Ends p type s at =
    if-Ends _ (type == 0) _ _ s (read_skipped-Keeps true p _ s (read-Keeps true p 8 s at)) (
      if-Ends _ (type == 1) _ _ s (read_skipped-Keeps true p _ s (read-Keeps true p 1 s at)) (
        if-Ends _ (type == 2) _ _ s (read_skipped-Keeps true p _ s (read_string-Keeps true p s at))
          (if-Ends _ (type == 8) _ _ s (read_array-Ends p s at) (require-Ends true _ p s at))))

current-place : (h : Handler) → is_read h.mode ≡ true → current_file h ≡ place h
unfolding current_file
current-place h reads = if_true _ _ _ reads

position-Ends :
    {B : Type 0} (R : B → Parser → Type 0) (f : ℕ → Step B) (s : Parser)
    → Ends R (f (current_file s.file) s)
    → Ends R ((position >>= f) s)
unfolding ◌>>=◌ then_do
position-Ends R f s ends = ends

abbrev Anything : Unit {0} → Parser → Type 0
Anything u s = Unit

-- The loop from a position on, its fuel above what is left of the tag.
script_loop-Ends :
    (fuel end_pos p : ℕ) (s : Parser)
    → IsAt true p s
    → 1 ≤ fuel
    → end_pos < p + fuel
    → Ends Anything (script_loop fuel end_pos s)
unfolding script_loop Ends
script_loop-Ends zero end_pos p s at some_fuel enough = absurd (omega arith)
script_loop-Ends (suc fuel) end_pos p s at some_fuel enough =
    let cur = current_file s.file in
    let same : cur ≡ place s.file = current-place s.file (at.reads refl) in
    let further : p ≤ cur = omega (arith, same, at.beyond refl) in
    let here : IsAt true cur s = record { reads = at.reads; beyond = λ e. omega (arith, same) } in
    position-Ends Anything _ s (elim (Bool-cases (ltb cur end_pos)) [
      | inl more ↦
          let left : cur < end_pos = ltb→lt cur end_pos more in
          subst (λ (m : Step (Unit {0})). Ends Anything (m s)) (sym (if_true _ _ _ more))
            (bind-Ends _ _ _ _ s (read-Ends true cur 1 s here) λ type s₁ at₁.
              bind-Ends _ _ _ _ s₁ (read_item-Ends (cur + 1) (byte_of type) s₁ at₁) λ u s₂ at₂.
                script_loop-Ends fuel end_pos (cur + 1) s₂ at₂ (omega (arith, left, further))
                  (omega (arith, further)))
      | inr none_left ↦
          subst (λ (m : Step (Unit {0})). Ends Anything (m s)) (sym (if_false _ _ _ none_left)) tt
    ])

-- On a file open for reading, whatever its state and the tag, parseScriptData ends: the fuel that
-- its loop is given is enough.
pub parse_script_data-Ends :
    (tag : Tag) (s : Parser)
    → is_read s.file.mode ≡ true
    → parse_script_data tag s ≢ Outcome.out_of_fuel
unfolding parse_script_data Ends
parse_script_data-Ends tag s reads e =
    let cur = current_file s.file in
    let same = current-place s.file reads in
    let here : IsAt true cur s = record { reads = λ t. reads; beyond = λ t. omega (arith, same) } in
    subst (Ends Anything) e (
      position-Ends Anything _ s (
        script_loop-Ends (tag.data_size + 1) (cur + tag.data_size) cur s here (omega arith)
          (omega arith)))
