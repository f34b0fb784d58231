-- ===== src/Tests/Cacher.antt =====
-- Cachers and their manager at concrete bytes.
use rtsp_server.Base.{
  ℕ, ◌≤◌, ◌<◌, ◌≡◌, ◌⊎◌, refl, true, List, [], ◌∷◌, none, some, arith, drop, find, put, erase,
  read_block, write_block,
}
use rtsp_server.Tcp.Cacher.{
  Cacher, done, refused, contents, append_buffer, copy_in, get_buffer, get_valid_buffer,
}
use rtsp_server.Tcp.Cacher.Append.{IsValid, Fits, Appends, append_buffer_cases}
use rtsp_server.Tcp.Cacher.Take.{Takes, get_buffer_cases}
use rtsp_server.Tcp.Cacher.Drain.{drain, Refines, get_valid_buffer-Refines}
use rtsp_server.Tcp.Json.Total.{json_framer}
use rtsp_server.Tcp.Manager.{
  Manager, cacher_of, append, get, remove_cacher, appends, gets, run, step,
}
use rtsp_server.Tcp.Manager.Isolation.{held, run-find, append_after_remove}

abbrev zeros : ℕ → ℕ
zeros i = 0

-- The frame of `{}` and two bytes more, behind a byte that was handed out.
abbrev filled : Cacher
filled = record {
  max_buf_size = 12;
  data_buf = 9 ∷ 0 ∷ 0 ∷ 0 ∷ 2 ∷ b'{' ∷ b'}' ∷ 0 ∷ 0 ∷ 7 ∷ 7 ∷ 7 ∷ [];
  data_size = 8;
  cur = 1;
}

filled-IsValid : IsValid filled
filled-IsValid = record { block = refl; fits = omega arith; small = omega arith }

get_valid_buffer-Refines_example :
    Refines
      (drain 9 json_framer.analyze (contents filled))
      (get_valid_buffer json_framer.analyze filled)
    × (((packets : List (List ℕ)) × (c' : Cacher) × (get_valid_buffer json_framer.analyze filled
            ≡ some (packets, c')))
        ⊎ ((get_valid_buffer json_framer.analyze filled ≡ none)
            × (k : ℕ) × (k < 8)
            × (json_framer.analyze (drop k (contents filled)) ≡ none)))
get_valid_buffer-Refines_example = get_valid_buffer-Refines json_framer filled-IsValid

abbrev more : List ℕ
more = 1 ∷ 2 ∷ 3 ∷ 4 ∷ []

append_buffer_cases_example :
    (Fits filled more × Appends filled more (append_buffer zeros filled more))
    ⊎ ((¬ Fits filled more) × (append_buffer zeros filled more ≡ some (refused, filled)))
append_buffer_cases_example = append_buffer_cases zeros more filled-IsValid (omega arith)

get_buffer_cases_example :
    ((0 < 6) × (6 ≤ 8) × Takes filled 6 true (get_buffer filled true 6 true))
    ⊎ ((◌≡◌ {A = ℕ} 6 0 ⊎ (8 < 6)) × (get_buffer filled true 6 true ≡ some (refused, [], filled)))
get_buffer_cases_example = get_buffer_cases 6 true filled-IsValid

abbrev two : Manager
two = (4, filled) ∷ (5, filled) ∷ []

-- Socket 5 once two bytes have come and one is taken.
abbrev after : Manager
after =
    (4, filled)
    ∷ (
      5,
      record filled {
        data_buf = 9 ∷ 0 ∷ 0 ∷ 0 ∷ 2 ∷ b'{' ∷ b'}' ∷ 0 ∷ 0 ∷ 1 ∷ 2 ∷ 7 ∷ [];
        data_size = 9;
        cur = 2;
      },
    )
    ∷ []

after_calls : run zeros two (appends 5 (1 ∷ 2 ∷ []) ∷ gets 5 true 1 true ∷ []) ≡ some after
unfolding run step append get cacher_of append_buffer copy_in get_buffer find put read_block
    write_block
after_calls = refl

run-find_example : find 4 after ≡ find 4 two
run-find_example =
    run-find zeros two (appends 5 (1 ∷ 2 ∷ []) ∷ gets 5 true 1 true ∷ []) 4
      (omega arith, (omega arith, tt)) after_calls

abbrev left : Manager
left = (5, filled) ∷ []

left_after_remove : run zeros (remove_cacher two 4) (gets 5 true 20 true ∷ []) ≡ some left
unfolding run step get remove_cacher get_buffer find erase put
left_after_remove = refl

append_after_remove_example :
    (m₂ : Manager) × (append zeros left 4 more ≡ some (done, m₂)) × (held m₂ 4 ≡ more)
append_after_remove_example =
    append_after_remove zeros two 4 (gets 5 true 20 true ∷ []) more (omega arith, tt)
      left_after_remove (omega arith)
