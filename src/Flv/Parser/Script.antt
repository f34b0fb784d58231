-- ===== src/Flv/Parser/Script.antt =====
-- flvParser::parseScriptData: a value of the script tag after the other; of an array, the duration
-- is kept. The floating point values are the words of their bits.
use rtsp_server.Base.{
  ℕ, Option, zero, suc, ◌+◌, Bool, true, false, ◌&&◌, ◌||◌, List, [], ◌∷◌, none, some, ltb, ◌==◌,
  if◌then◌else◌, load, htonl, htons, codes,
}
use rtsp_server.Flv.Format.{fast_hton3, fast_htonll}
use rtsp_server.Flv.Steps.{
  Step, pure, ◌>>=◌, ◌>>◌, modify, exhausted, attempt, require, read, byte_of, position,
}
use rtsp_server.Flv.Parser.{Tag}

unfoldable pub same_bytes : List ℕ → List ℕ → Bool
same_bytes [] [] = true
same_bytes (x ∷ xs) (y ∷ ys) = (x == y) && same_bytes xs ys
same_bytes xs ys = false

-- A string with its length in front.
unfoldable pub read_string : Step (List ℕ)
read_string = do size ← read 2; read (htons (load size))

-- A double; a key that is the duration keeps it.
unfoldable pub read_double : List ℕ → Step (Unit {0})
read_double name = do
  bytes ← read 8
  if same_bytes name (codes "duration")
      then (modify λ s. record s { duration = fast_htonll (load bytes) })
      else pure tt

unfoldable pub read_skipped : Step (List ℕ) → Step (Unit {0})
read_skipped m = do bytes ← m; pure tt

-- A value of an array, by its type; the other types have nothing read.
unfoldable pub read_value : List ℕ → ℕ → Step (Unit {0})
read_value name type =
    if type == 0
    then read_double name
    else if type == 1
    then read_skipped (read 1)
    else if type == 2
    then read_skipped read_string
    else pure tt

-- A key of an array, and the type of its value.
unfoldable pub read_key : Step (List ℕ × ℕ)
read_key = do name ← read_string; type ← read 1; pure (name, byte_of type)

-- `result` after a value.
unfoldable pub still : Option (Unit {0}) → Bool → Bool
still none result = false
still (some u) result = result

-- What follows a key of an array, with the loop over the other entries: a key that is not read
-- ends the loop, a value that is not read does not.
unfoldable pub array_entry : (Bool → Step Bool) → Bool → Option (List ℕ × ℕ) → Step Bool
array_entry rest result none = pure false
array_entry rest result (some (name, type)) = do
  value ← attempt (read_value name type)
  rest (still value result)

-- The entries of an array with some to go; the Boolean is `result`.
unfoldable pub array_loop : ℕ → Bool → Step Bool
array_loop zero result = pure result
array_loop (suc left) result = do key ← attempt read_key; array_entry (array_loop left) result key

-- An array: its end is read whatever became of its entries.
unfoldable pub read_array : Step (Unit {0})
read_array = do
  count ← read 4
  result ← array_loop (htonl (load count)) true
  end_marker ← read 3
  require (fast_hton3 (load end_marker) == 9)
  require result

-- A value outside an array; of the types from 3 to 12 but 8 nothing is read, and 9 and those
-- above are refused.
unfoldable pub read_item : ℕ → Step (Unit {0})
read_item type =
    if type == 0
    then read_skipped (read 8)
    else if type == 1
    then read_skipped (read 1)
    else if type == 2
    then read_skipped read_string
    else if type == 8
    then read_array
    else require (ltb type 8 || ((ltb 9 type) && ltb type 13))

-- The loop over the values, up to the end of the tag. The fuel is the number of rounds left; a
-- round that goes on has read a byte.
unfoldable pub script_loop : ℕ → ℕ → Step (Unit {0})
script_loop zero end_pos = exhausted
script_loop (suc fuel) end_pos = do
  cur ← position
  if ltb cur end_pos
      then (do type ← read 1; read_item (byte_of type); script_loop fuel end_pos)
      else pure tt

-- parseScriptData
unfoldable pub parse_script_data : Tag → Step (Unit {0})
parse_script_data tag = do start ← position; script_loop (tag.data_size + 1) (start + tag.data_size)
