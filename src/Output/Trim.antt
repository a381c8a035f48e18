-- ===== src/Output/Trim.antt =====
-- `trim_output` and the part of `publish_output` that keeps the output, of
-- apps/server/src/session/runtime.rs.
use devhatch.Prelude.{ℕ, zero, suc, ◌+◌, ◌-◌, ◌*◌, List, ◌++◌, if◌then◌else◌, leb, length, drop}
use devhatch.Output.Utf8.{is_char_boundary}

abbrev pub output_limit : ℕ
output_limit = 512 * 1024

abbrev pub output_high_water : ℕ
output_high_water = 640 * 1024

-- The `while` loop; `start` is a boundary at the end of the text at the latest, so the length of
-- the text is enough fuel.
unfoldable pub next_boundary : ℕ → List ℕ → ℕ → ℕ
next_boundary zero output start = start
next_boundary (suc fuel) output start =
    let rest = next_boundary fuel output (start + 1) in
    if is_char_boundary output start then start else rest

-- `trim_output` with its two constants as arguments.
unfoldable pub trim : (limit high_water : ℕ) → List ℕ → List ℕ
trim limit high_water output =
    if leb (length output) high_water
    then output
    else drop (next_boundary (length output) output (length output - limit)) output

unfoldable pub trim_output : List ℕ → List ℕ
unfolding trim
trim_output output = trim output_limit output_high_water output

-- The output after `publish_output` with the bytes of the text `data`.
unfoldable pub publish : List ℕ → List ℕ → List ℕ
publish output data_bytes = trim_output (output ++ data_bytes)
