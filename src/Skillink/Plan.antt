-- ===== src/Skillink/Plan.antt =====
-- `build_plan` of crates/skillink/src/repository/plan.rs.
use devhatch.Prelude.{
  map, is_empty, list_eq, String, Bool, not, ◌&&◌, ◌||◌, Option, none, some, List, if◌then◌else◌,
  is_some_and, keep, ◌==◌, nat_eq, string_eq, option_eq,
}
use devhatch.Skillink.OrderedMap.{filter_map, collect, get, has}

pub record ExistingSkill : Type 0 where
  pub id : String
  pub slug : String
  pub description : String
  pub relative_path : String

pub record DiscoveredSkill : Type 0 where
  pub slug : String
  pub description : String
  pub relative_path : String

pub record SyncItem : Type 0 where
  pub id : Option String
  pub slug : String
  pub relative_path : String

pub record SyncPlan : Type 0 where
  pub repository_id : String
  pub old_commit : Option String
  pub new_commit : String
  pub noop : Bool
  pub add : List SyncItem
  pub update : List SyncItem
  pub remove : List SyncItem

abbrev pub old_path : ExistingSkill → String
old_path o = o.relative_path

abbrev pub new_path : DiscoveredSkill → String
new_path s = s.relative_path

abbrev pub sync_item : Option String → String → String → SyncItem
sync_item id slug relative_path = record { id = id; slug = slug; relative_path = relative_path }

abbrev pub add_item : DiscoveredSkill → SyncItem
add_item s = sync_item none s.slug s.relative_path

abbrev pub update_item : ExistingSkill → DiscoveredSkill → SyncItem
update_item o s = sync_item (some o.id) s.slug s.relative_path

abbrev pub remove_item : ExistingSkill → SyncItem
remove_item o = sync_item (some o.id) o.slug o.relative_path

abbrev pub metadata_changed : ExistingSkill → DiscoveredSkill → Bool
metadata_changed o s = not (o.slug == s.slug) || not (o.description == s.description)

-- What the closure of `update` gives.
unfoldable pub update_of :
    (same_commit : Bool) → List ExistingSkill → DiscoveredSkill → Option SyncItem
update_of same_commit old s = elim (get old_path s.relative_path old) [
  | none ↦ none
  | some o ↦ if not same_commit || metadata_changed o s then some (update_item o s) else none
]

unfoldable pub build_plan :
    String
    → (old_commit : Option String) → (new_commit : String) → List ExistingSkill
    → List DiscoveredSkill
    → SyncPlan
unfolding update_of
build_plan repository_id old_commit new_commit existing discovered =
    let same_commit = is_some_and old_commit (λ c. c == new_commit) in
    let old = collect old_path existing in
    let new = collect new_path discovered in
    let add = map add_item (keep (λ s. not (has old_path s.relative_path old)) new) in
    let update = filter_map (update_of same_commit old) new in
    let remove = map remove_item (keep (λ o. not (has new_path o.relative_path new)) old) in
    record {
      repository_id = repository_id;
      old_commit = old_commit;
      new_commit = new_commit;
      noop = same_commit && is_empty add && is_empty update && is_empty remove;
      add = add;
      update = update;
      remove = remove;
    }
