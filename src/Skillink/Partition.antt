-- ===== src/Skillink/Partition.antt =====
-- What a plan adds, updates and removes.
use devhatch.Prelude.{
  any_ext, any-keep, nodup, any-map, list_eq, any_ext, String, ◌≡◌, refl, ap, ◌∙◌, Bool, true,
  false, not, ◌&&◌, ◌||◌, Option, none, some, List, if◌then◌else◌, is_some_and, any, keep, ◌==◌,
  nat_eq, string_eq, option_eq, arith,
}
use devhatch.Skillink.OrderedMap.{
  any-filter_map, same, collect, get, has, any-collect, nodup-collect, is_some_and-get,
}
use devhatch.Skillink.Plan.{
  ExistingSkill, DiscoveredSkill, SyncItem, old_path, new_path, add_item, update_item, remove_item,
  metadata_changed, update_of, build_plan,
}

-- The pairs that an update is for.
abbrev pub to_update : (same_commit : Bool) → ExistingSkill → DiscoveredSkill → Bool
to_update same_commit o s = not same_commit || metadata_changed o s

module _ (same_commit : Bool) (existing : List ExistingSkill) (q : SyncItem → Bool)
    (d : nodup (same old_path) existing ≡ true) where
  is_some_and-update_of :
      (s : DiscoveredSkill)
      → is_some_and (update_of same_commit (collect old_path existing) s) q
        ≡ any
            (λ o.
              o.relative_path == s.relative_path
              && (to_update same_commit o s && q (update_item o s)))
            existing
  unfolding update_of
  is_some_and-update_of s =
      through (get old_path s.relative_path (collect old_path existing))
      ∙ is_some_and-get old_path s.relative_path
          (λ o. to_update same_commit o s && q (update_item o s)) (collect old_path existing)
          (nodup-collect old_path existing d)
      ∙ any-collect old_path
          (λ o.
            o.relative_path == s.relative_path
            && (to_update same_commit o s && q (update_item o s)))
          existing d
    where
      by_test :
          (b : Bool) (o : ExistingSkill)
          → is_some_and (if b then some (update_item o s) else none) q ≡ (b && q (update_item o s))
      by_test true o = refl
      by_test false o = refl

      through :
          (o : Option ExistingSkill)
          → is_some_and
              (elim o [
                | none ↦ none
                | some o ↦ if to_update same_commit o s then some (update_item o s) else none
              ])
              q
            ≡ is_some_and o (λ o. to_update same_commit o s && q (update_item o s))
      through none = refl
      through (some o) = by_test (to_update same_commit o s) o

-- What is asked of a plan, without its definitions: the items, and when a skill has changed.
abbrev pub added : DiscoveredSkill → SyncItem
added s = record { id = none; slug = s.slug; relative_path = s.relative_path }

abbrev pub removed : ExistingSkill → SyncItem
removed o = record { id = some o.id; slug = o.slug; relative_path = o.relative_path }

abbrev pub updated : ExistingSkill → DiscoveredSkill → SyncItem
updated o s = record { id = some o.id; slug = s.slug; relative_path = s.relative_path }

abbrev pub has_changed :
    (old_commit : Option String) → (new_commit : String) → ExistingSkill → DiscoveredSkill → Bool
has_changed none new_commit o s = true
has_changed (some old_commit) new_commit o s =
    not (old_commit == new_commit && (o.slug == s.slug && o.description == s.description))

abbrev pub is_there : String → List ExistingSkill → Bool
is_there path existing = any (λ o. o.relative_path == path) existing

abbrev pub is_found : String → List DiscoveredSkill → Bool
is_found path discovered = any (λ s. s.relative_path == path) discovered

abbrev pub distinct_old : List ExistingSkill → Bool
distinct_old existing = nodup (λ a b. a.relative_path == b.relative_path) existing

abbrev pub distinct_new : List DiscoveredSkill → Bool
distinct_new discovered = nodup (λ a b. a.relative_path == b.relative_path) discovered

to_update-has_changed :
    (old_commit : Option String) (new_commit : String) (o : ExistingSkill) (s : DiscoveredSkill)
    → to_update (is_some_and old_commit (λ c. c == new_commit)) o s
      ≡ has_changed old_commit new_commit o s
to_update-has_changed none new_commit o s = refl
to_update-has_changed (some c) new_commit o s =
    not_all (c == new_commit) (o.slug == s.slug) (o.description == s.description)
  where
    not_all : (a b c : Bool) → (not a || (not b || not c)) ≡ not (a && (b && c))
    not_all a b c = ground arith

-- For skills with distinct paths, before and after: an item is added exactly for a skill that is found
-- at a path where none was; it is removed exactly for a skill that was at a path where none is found;
-- and it is updated exactly for a skill that is found where one was, under the identifier of that
-- one and with the new slug, if the commit is another or the slug or the description differs.
pub build_plan-partition :
    (repository_id : String) (old_commit : Option String) (new_commit : String)
    (existing : List ExistingSkill) (discovered : List DiscoveredSkill) (q : SyncItem → Bool)
    → distinct_old existing ≡ true
    → distinct_new discovered ≡ true
    → (any q (build_plan repository_id old_commit new_commit existing discovered).add
        ≡ any (λ s. q (added s) && not (is_there s.relative_path existing)) discovered)
      × (any q (build_plan repository_id old_commit new_commit existing discovered).remove
          ≡ any (λ o. q (removed o) && not (is_found o.relative_path discovered)) existing)
      × (any q (build_plan repository_id old_commit new_commit existing discovered).update
          ≡ any
              (λ s.
                any
                  (λ o.
                    o.relative_path == s.relative_path
                    && (has_changed old_commit new_commit o s && q (updated o s)))
                  existing)
              discovered)
unfolding build_plan
build_plan-partition repository_id old_commit new_commit existing discovered q d e =
    let old = collect old_path existing in
    let new = collect new_path discovered in
    let same_commit = is_some_and old_commit (λ c. c == new_commit) in
    (
      any-map q add_item (keep (λ s. not (has old_path s.relative_path old)) new)
          ∙ any-keep (λ s. q (add_item s)) (λ s. not (has old_path s.relative_path old)) new
          ∙ any_ext (λ s. q (add_item s) && not (has old_path s.relative_path old))
              (λ s. q (add_item s) && not (has old_path s.relative_path existing)) new
              (λ s.
                ap (λ b. q (add_item s) && not b)
                  (any-collect old_path (λ o. o.relative_path == s.relative_path) existing d))
          ∙ any-collect new_path
              (λ s. q (add_item s) && not (has old_path s.relative_path existing)) discovered e,
      any-map q remove_item (keep (λ o. not (has new_path o.relative_path new)) old)
          ∙ any-keep (λ o. q (remove_item o)) (λ o. not (has new_path o.relative_path new)) old
          ∙ any_ext (λ o. q (remove_item o) && not (has new_path o.relative_path new))
              (λ o. q (remove_item o) && not (has new_path o.relative_path discovered)) old
              (λ o.
                ap (λ b. q (remove_item o) && not b)
                  (any-collect new_path (λ s. s.relative_path == o.relative_path) discovered e))
          ∙ any-collect old_path
              (λ o. q (remove_item o) && not (has new_path o.relative_path discovered)) existing d,
      any-filter_map (update_of same_commit old) q new
          ∙ any_ext (λ s. is_some_and (update_of same_commit old s) q)
              (λ s.
                any
                  (λ o.
                    o.relative_path == s.relative_path
                    && (to_update same_commit o s && q (update_item o s)))
                  existing)
              new (is_some_and-update_of same_commit existing q d)
          ∙ any-collect new_path
              (λ s.
                any
                  (λ o.
                    o.relative_path == s.relative_path
                    && (to_update same_commit o s && q (update_item o s)))
                  existing)
              discovered e
          ∙ any_ext _ _ discovered (λ s.
            any_ext
              (λ o.
                o.relative_path == s.relative_path
                && (to_update same_commit o s && q (update_item o s)))
              (λ o.
                o.relative_path == s.relative_path
                && (has_changed old_commit new_commit o s && q (updated o s)))
              existing
              (λ o.
                ap (λ b. o.relative_path == s.relative_path && (b && q (updated o s)))
                  (to_update-has_changed old_commit new_commit o s))),
    )
