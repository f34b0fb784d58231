-- ===== src/Tcp/Json/Frames.antt =====
-- What `parseTaskJsonData` makes of a text behind its length, whole or cut off.
use rtsp_server.Base.{
  ℕ, zero, suc, ◌+◌, ◌-◌, ◌≤◌, ◌<◌, ◌≡◌, refl, ap, ◌∙◌, Bool, true, false, List, [], ◌∷◌, ◌++◌,
  some, arith, ltb, lt→ltb, le→ltb, lt→leb, length, take, length-append, length-take, ap₂, ◌≢◌,
  wrap32, byte0, byte1, byte2, byte3,
}
use rtsp_server.Tcp.Cacher.{verdict}
use rtsp_server.Tcp.Json.{
  max_json_size, load_size, lacks_brace, stop, json_round, json_loop, parse_task_json_data,
}

-- A text behind its length: what `parseTaskJsonData` looks for.
abbrev pub json_frame : List ℕ → List ℕ
json_frame text =
    byte3 (length text) ∷ byte2 (length text) ∷ byte1 (length text) ∷ byte0 (length text) ∷ text

pub record IsJsonFrame (x : List ℕ) : Type 0 where
  pub text : List ℕ
  pub framed : x ≡ json_frame (b'{' ∷ text)
  pub short : length text < max_json_size

load_size-json_frame :
    (text rest : List ℕ)
    → length text ≤ max_json_size
    → load_size (json_frame text ++ rest) 0 ≡ some (length text)
unfolding load_size
load_size-json_frame text rest h = ap some (omega arith)

-- A round where the bytes of the length and of the text's start are there.
json_round_at :
    (d : List ℕ) (size : ℕ)
    → 5 ≤ length d
    → load_size d 0 ≡ some size
    → size ≤ max_json_size
    → lacks_brace d 0 ≡ some false
    → json_round d 0 ≡ some (stop (ltb (size + 3) (length d)) (size + 3))
unfolding json_round
json_round_at d size long load le brace = rw (
  lt→leb (length d) 0 (omega arith),
  lt→leb (length d) 4 (omega arith),
  load,
  le→ltb max_json_size size le,
  brace,
  end,
)
  where
    end : wrap32 (0 + 4 + size - 1) ≡ size + 3
    end = omega arith

lacks_brace_opened :
    (a b c d : ℕ) (rest : List ℕ) → lacks_brace (a ∷ b ∷ c ∷ d ∷ b'{' ∷ rest) 0 ≡ some false
unfolding lacks_brace
lacks_brace_opened a b c d [] = refl
lacks_brace_opened a b c d (x ∷ rest) = ground arith

loop_of_round :
    (fuel : ℕ) (d : List ℕ) (valid : Bool) (end : ℕ)
    → fuel ≢ 0
    → json_round d 0 ≡ some (stop valid end)
    → json_loop fuel d 0 0 ≡ some (verdict valid 0 end 0)
unfolding json_loop
loop_of_round zero d valid end h r = absurd (h refl)
loop_of_round (suc fuel) d valid end h r = rw r

parse_of_round :
    (d : List ℕ) (valid : Bool) (end : ℕ)
    → json_round d 0 ≡ some (stop valid end)
    → parse_task_json_data d ≡ some (verdict valid 0 end 0)
unfolding parse_task_json_data
parse_of_round d valid end r = loop_of_round (length d + 1) d valid end (omega arith) r

-- Whatever follows a frame, the frame is found.
pub parse-json_frame :
    (text rest : List ℕ)
    → length text < max_json_size
    → parse_task_json_data (json_frame (b'{' ∷ text) ++ rest)
      ≡ some (verdict true 0 (length text + 4) 0)
parse-json_frame text rest h = parse_of_round d true (length text + 4) (
    json_round_at d (suc (length text)) (omega arith)
      (load_size-json_frame (b'{' ∷ text) rest (omega arith)) (omega arith)
      (lacks_brace_opened _ _ _ _ (text ++ rest))
    ∙ ap some (ap₂ stop whole (omega arith)))
  where
    d : List ℕ
    d = json_frame (b'{' ∷ text) ++ rest

    whole : ltb (suc (length text) + 3) (length d) ≡ true
    whole = lt→ltb _ (length d) (omega (arith, length-append text rest))

-- Of a frame that is not yet whole, nothing is found and nothing thrown away.
pub parse-take-json_frame :
    (text : List ℕ) (k : ℕ)
    → length text < max_json_size
    → k < length text + 5
    → (end : ℕ) × (parse_task_json_data (take k (json_frame (b'{' ∷ text)))
        ≡ some (verdict false 0 end 0))
unfolding json_round load_size
parse-take-json_frame text zero h lt = (0, parse_of_round _ false 0 refl)
parse-take-json_frame text (suc zero) h lt = (0, parse_of_round _ false 0 refl)
parse-take-json_frame text (suc (suc zero)) h lt = (0, parse_of_round _ false 0 refl)
parse-take-json_frame text (suc (suc (suc zero))) h lt = (0, parse_of_round _ false 0 refl)
parse-take-json_frame text (suc (suc (suc (suc zero)))) h lt = (0, parse_of_round _ false 0 refl)
parse-take-json_frame text (suc (suc (suc (suc (suc k))))) h lt = (
  length text + 4,
  parse_of_round d false (length text + 4) (
      json_round_at d (suc (length text)) (omega arith)
        (load_size-json_frame (b'{' ∷ text) [] (omega arith)) (omega arith)
        (lacks_brace_opened _ _ _ _ (take k text))
      ∙ ap some (ap₂ stop part (omega arith))),
)
  where
    d : List ℕ
    d = take (suc (suc (suc (suc (suc k))))) (json_frame (b'{' ∷ text))

    part : ltb (suc (length text) + 3) (length d) ≡ false
    part = le→ltb _ (length d) (omega (arith, length-take k text))
