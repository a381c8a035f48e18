-- ===== src/Skillink/Tests.antt =====
-- Runs of `validate_slug` and `build_plan`.
use devhatch.Prelude.{
  list_eq, ℕ, ◌≤◌, ◌≡◌, refl, ◌↔◌, Bool, true, false, not, ◌&&◌, some, List, [], ◌∷◌, any, all,
  length, ◌==◌, nat_eq, string_eq, option_eq, codes,
}
use devhatch.Skillink.OrderedMap.{collect, insert, get, filter_map}
use devhatch.Skillink.Plan.{ExistingSkill, DiscoveredSkill, SyncItem, build_plan, update_of}
use devhatch.Skillink.Partition.{
  added, removed, updated, has_changed, is_there, is_found, build_plan-partition,
}
use devhatch.Skillink.Slug.{validate_slug, is_word, join_from}
use devhatch.Skillink.Grammar.{validate_slug_iff}

double_dash_test : validate_slug (codes "a--b") ≡ false
unfolding validate_slug
double_dash_test = refl

validate_slug_iff_example : (validate_slug (codes "code-review-2") ≡ true) ↔ (
    (length (codes "code-review-2") ≤ 64)
    × (word : List ℕ) × (words : List (List ℕ)) × (all is_word (word ∷ words) ≡ true)
    × (codes "code-review-2" ≡ join_from word words))
validate_slug_iff_example = validate_slug_iff (codes "code-review-2")

abbrev existing_test : List ExistingSkill
existing_test =
    record { id = "1"; slug = "b"; description = "x"; relative_path = "skills/b" }
    ∷ record { id = "2"; slug = "a"; description = "x"; relative_path = "skills/a" }
    ∷ []

abbrev discovered_test : List DiscoveredSkill
discovered_test =
    record { slug = "a"; description = "y"; relative_path = "skills/a" }
    ∷ record { slug = "c"; description = "z"; relative_path = "skills/c" }
    ∷ []

update_test :
    (build_plan "r" (some "h") "h" existing_test discovered_test).update
    ≡ record { id = some "2"; slug = "a"; relative_path = "skills/a" } ∷ []
unfolding build_plan collect insert get filter_map update_of
update_test = refl

abbrev is_at_c : SyncItem → Bool
is_at_c item = item.relative_path == "skills/c"

build_plan-partition_example :
    (any is_at_c (build_plan "r" (some "h") "h" existing_test discovered_test).add
      ≡ any
          (λ s. is_at_c (added s) && not (is_there s.relative_path existing_test))
          discovered_test)
    × (any is_at_c (build_plan "r" (some "h") "h" existing_test discovered_test).remove
        ≡ any
            (λ o. is_at_c (removed o) && not (is_found o.relative_path discovered_test))
            existing_test)
    × (any is_at_c (build_plan "r" (some "h") "h" existing_test discovered_test).update
        ≡ any
            (λ s.
              any
                (λ o.
                  o.relative_path == s.relative_path
                  && (has_changed (some "h") "h" o s && is_at_c (updated o s)))
                existing_test)
            discovered_test)
build_plan-partition_example =
    build_plan-partition "r" (some "h") "h" existing_test discovered_test is_at_c refl refl
