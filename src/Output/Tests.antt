-- ===== src/Output/Tests.antt =====
-- Runs of the trimming, and the theorem at a concrete input.
use devhatch.Prelude.{◌∷◌, [], ◌≡◌, refl}
use devhatch.Output.Utf8.{encode_all, encode, is_char_boundary}
use devhatch.Output.Trim.{trim, output_limit, output_high_water, next_boundary}
use devhatch.Output.Retained.{Retains, publish_all, Retains-publish_all}

-- Three two-byte characters and a limit inside the second.
trim_inside : trim 3 5 (encode_all (0xe9 ∷ 0xe8 ∷ 0xea ∷ [])) ≡ encode_all (0xea ∷ [])
unfolding trim encode_all encode next_boundary is_char_boundary
trim_inside = refl

trim_at_boundary : trim 4 5 (encode_all (0xe9 ∷ 0xe8 ∷ 0xea ∷ [])) ≡ encode_all (0xe8 ∷ 0xea ∷ [])
unfolding trim encode_all encode next_boundary is_char_boundary
trim_at_boundary = refl

Retains-publish_all_example :
    Retains output_limit output_high_water
      (0x41 ∷ 0xe9 ∷ 0x42 ∷ [])
      (publish_all [] ((0x41 ∷ 0xe9 ∷ []) ∷ (0x42 ∷ []) ∷ []))
Retains-publish_all_example = Retains-publish_all ((0x41 ∷ 0xe9 ∷ []) ∷ (0x42 ∷ []) ∷ [])
