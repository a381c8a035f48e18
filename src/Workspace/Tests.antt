-- ===== src/Workspace/Tests.antt =====
-- Runs of the workspaces.
use devhatch.Prelude.{
  is_whitespace, trim_start, trim_end, utf16_len, list_eq, ℕ, zero, suc, String, ◌≡◌, refl, sym, ap,
  ◌∙◌, inl, inr, true, false, not, ◌||◌, Option, none, some, List, [], ◌∷◌, arith, ltb, Bool-cases,
  all, length, ◌==◌, nat_eq, string_eq, option_eq, codes, any, ◌&&◌,
}
use devhatch.Session.{terminal, agent}
use devhatch.Registry.IndexMap.{same_key}
use devhatch.Workspace.Tables.{
  MemberIdentity, WorkspaceRow, MemberRow, Database, is_of, workspace_exists, member_belongs,
  load_members,
}
use devhatch.Workspace.Operations.{
  find_in_transaction, Workspace, is_among, reconcile_transaction, create_workspace,
  update_workspace, delete_workspace,
}
use devhatch.Workspace.Members.{remove_member, attach_session, attach_new, fallback, next_position}
use devhatch.Workspace.Invariant.{IsConsistent}
use devhatch.Workspace.Singletons.{has_row, AreFresh, AreDistinct}
use devhatch.Workspace.Reconciled.{Reconciles, reconcile_transaction-Reconciles}
use devhatch.Workspace.Created.{Creates, create_workspace-Creates}
use devhatch.Workspace.Deleted.{Deletes, delete_workspace-Deletes}
use devhatch.Workspace.Updated.{Updates, update_workspace-Updates, update_workspace_refused}
use devhatch.Workspace.Fallback.{same_row, fallback_next, next_le}
use devhatch.Workspace.Removed.{Removes, remove_member-Removes}
use devhatch.Workspace.Position.{next_position_above}
use devhatch.Workspace.Attached.{attach_session-Attaches, attach_new-Attaches, Attaches}
use devhatch.Workspace.Handlers.{create, update}
use devhatch.Workspace.Answers.{CreateOutcome, is_acceptable, create_answer}
use devhatch.Workspace.UpdateAnswers.{UpdateOutcome, trimmed, is_updatable, update_answer}

abbrev agent_of : String → MemberIdentity
agent_of id = record { kind = agent; id = id }

abbrev terminal_of : String → MemberIdentity
terminal_of id = record { kind = terminal; id = id }

-- A workspace with an active agent "a" and a terminal "t", and an empty one.
abbrev full_row : WorkspaceRow
full_row = record {
  id = "w1";
  name = some (119 ∷ []);
  active_session = some (agent_of "a");
  created_at = 1;
  updated_at = 5;
}

abbrev empty_row : WorkspaceRow
empty_row = record { id = "w2"; name = none; active_session = none; created_at = 2; updated_at = 2 }

abbrev rows_test : List MemberRow
rows_test =
    record { member = agent_of "a"; workspace_id = "w1"; position = 0 }
    ∷ record { member = terminal_of "t"; workspace_id = "w1"; position = 3 }
    ∷ []

abbrev db_test : Database
db_test = record { workspaces = full_row ∷ empty_row ∷ []; workspace_sessions = rows_test }

IsConsistent-db_test : IsConsistent db_test
unfolding workspace_exists member_belongs same_key
IsConsistent-db_test = record {
  sound = record { ids = refl; keys = refl; positions = refl; owned = refl; named = refl };
  active = refl;
}

-- Identifiers of growing length.
abbrev uuid_test : ℕ → String
uuid_test zero = "n"
uuid_test (suc n) = String.◌∷◌ "n" (uuid_test n)

length-uuid_test : (n : ℕ) → length (codes (uuid_test n)) ≡ suc n
length-uuid_test zero = refl
length-uuid_test (suc n) = ap suc (length-uuid_test n)

distinct_test : AreDistinct uuid_test
distinct_test m k h = elim (Bool-cases (uuid_test m == uuid_test k)) [
  | inl e ↦
      let same =
        sym (length-uuid_test m)
        ∙ ap (λ s. length (codes s)) ((string_eq.same_iff (uuid_test m) (uuid_test k)).0 e)
        ∙ length-uuid_test k in
      absurd (omega arith)
  | inr e ↦ e
]

abbrev head_code : List ℕ → ℕ
head_code [] = 0
head_code (c ∷ cs) = c

head-uuid_test : (n : ℕ) → head_code (codes (uuid_test n)) ≡ 110
head-uuid_test zero = refl
head-uuid_test (suc n) = refl

differs_test : (s : String) (n : ℕ) → head_code (codes s) ≡ 119 → (s == uuid_test n) ≡ false
differs_test s n h = elim (Bool-cases (s == uuid_test n)) [
  | inl e ↦
      let same =
        sym h
        ∙ ap (λ x. head_code (codes x)) ((string_eq.same_iff s (uuid_test n)).0 e)
        ∙ head-uuid_test n in
      absurd (omega arith)
  | inr e ↦ e
]

fresh_test : AreFresh uuid_test 0 db_test.workspaces
unfolding workspace_exists
fresh_test k h = rw (differs_test "w1" k refl, differs_test "w2" k refl) refl

-- The terminal has ended, and there is a new agent.
abbrev eligible_test : List MemberIdentity
eligible_test = agent_of "a" ∷ agent_of "b" ∷ terminal_of "c" ∷ []

reconcile_transaction-Reconciles_example :
    (db' : Database) × (reconcile_transaction 9 uuid_test eligible_test
        (some (terminal_of "c"))
        db_test
      ≡ some db')
    × Reconciles eligible_test (some (terminal_of "c")) db_test db'
unfolding same_key
reconcile_transaction-Reconciles_example =
    reconcile_transaction-Reconciles 9 uuid_test eligible_test (some (terminal_of "c")) db_test
      IsConsistent-db_test refl refl distinct_test fresh_test

create_workspace-Creates_example :
    (db' : Database) × (w : Workspace) × (create_workspace 9 "w3" none
        (terminal_of "t" ∷ agent_of "b" ∷ [])
        db_test
      ≡ some (db', w))
    × Creates "w3" none (terminal_of "t" ∷ agent_of "b" ∷ []) db_test db' w
unfolding workspace_exists same_key
create_workspace-Creates_example =
    create_workspace-Creates 9 "w3" none (terminal_of "t" ∷ agent_of "b" ∷ []) db_test
      IsConsistent-db_test refl refl refl

delete_workspace-Deletes_example :
    (db' : Database) × (delete_workspace "w1" db_test
      ≡ some (db', some (load_members "w1" rows_test)))
    × Deletes "w1" db_test db'
unfolding workspace_exists
delete_workspace-Deletes_example = delete_workspace-Deletes "w1" db_test IsConsistent-db_test refl

update_workspace-Updates_example :
    (db' : Database) × (w : Workspace) × (update_workspace 9 "w1" none
        (some (some (terminal_of "t")))
        db_test
      ≡ some (db', some w))
    × Updates 9 "w1" none (some (some (terminal_of "t"))) db_test db' w
unfolding workspace_exists member_belongs same_key
update_workspace-Updates_example =
    update_workspace-Updates 9 "w1" none (some (some (terminal_of "t"))) db_test
      IsConsistent-db_test refl refl

update_workspace_refused_example :
    update_workspace 9 "w2" none (some (some (terminal_of "t"))) db_test ≡ none
unfolding workspace_exists member_belongs same_key
update_workspace_refused_example =
    update_workspace_refused 9 "w2" none (some (some (terminal_of "t"))) db_test
      IsConsistent-db_test refl refl

remove_member-Removes_example :
    (db' : Database) × (w : Option Workspace) × (remove_member 9 (agent_of "a") db_test
      ≡ some (db', w))
    × Removes (agent_of "a") db_test db'
remove_member-Removes_example = remove_member-Removes 9 (agent_of "a") db_test IsConsistent-db_test

fallback_next_example :
    (r : MemberRow) × (fallback "w1" 1 rows_test ≡ some r.member)
    × (any (λ x. same_row r x && is_of "w1" x) rows_test ≡ true)
    × (all (λ x. not (is_of "w1" x) || next_le 1 r.position x.position) rows_test ≡ true)
fallback_next_example = fallback_next "w1" 1 rows_test refl

next_position_above_example :
    all (λ r. not (is_of "w1" r) || ltb r.position (next_position "w1" rows_test)) rows_test ≡ true
next_position_above_example = next_position_above "w1" rows_test

attach_session-Attaches_example :
    (db' : Database) × (w : Workspace) × (attach_session 9 uuid_test "w3" eligible_test
        (some "w2")
        (terminal_of "c")
        db_test
      ≡ some (db', some w))
    × IsConsistent db'
    × ((x : MemberIdentity) → has_row db'.workspace_sessions x ≡ is_among eligible_test x)
    × (member_belongs db'.workspace_sessions "w2" (terminal_of "c") ≡ true)
    × (find_in_transaction "w2" db' ≡ some w)
    × (w.id ≡ "w2")
    × (w.active_session ≡ some (terminal_of "c"))
unfolding workspace_exists same_key has_row
attach_session-Attaches_example =
    attach_session-Attaches 9 uuid_test "w3" "w2" eligible_test (terminal_of "c") db_test
      IsConsistent-db_test refl refl distinct_test fresh_test refl refl refl

attach_new-Attaches_example :
    (db' : Database) × (w : Workspace) × (attach_new 9 "w3" (terminal_of "c") db_test
      ≡ some (db', some w))
    × Attaches "w3" (terminal_of "c") db_test db' w
unfolding workspace_exists same_key has_row
attach_new-Attaches_example =
    attach_new-Attaches 9 "w3" (terminal_of "c") db_test IsConsistent-db_test refl refl refl

create_answer_example :
    CreateOutcome "w3"
      (some (32 ∷ 97 ∷ []))
      (agent_of "b" ∷ [])
      db_test
      (is_acceptable eligible_test (some (32 ∷ 97 ∷ [])) (agent_of "b" ∷ []))
      (create 9 "w3" eligible_test (some (32 ∷ 97 ∷ [])) (agent_of "b" ∷ []) db_test)
unfolding workspace_exists
create_answer_example =
    create_answer 9 "w3" eligible_test (some (32 ∷ 97 ∷ [])) (agent_of "b" ∷ []) db_test
      IsConsistent-db_test refl

update_answer_example :
    UpdateOutcome 9 "w1"
      (trimmed (some (some (97 ∷ 32 ∷ []))))
      (some (some (agent_of "a")))
      db_test
      (is_updatable eligible_test "w1" db_test
        (some (some (97 ∷ 32 ∷ [])))
        (some (some (agent_of "a"))))
      (update 9 "w1" eligible_test
        (some (some (97 ∷ 32 ∷ [])))
        (some (some (agent_of "a")))
        db_test)
update_answer_example =
    update_answer 9 "w1" eligible_test db_test IsConsistent-db_test (some (some (97 ∷ 32 ∷ [])))
      (some (some (agent_of "a")))

-- Both requests are accepted.
accepted_test :
    (is_acceptable eligible_test (some (32 ∷ 97 ∷ [])) (agent_of "b" ∷ []) ≡ true)
    × (is_updatable eligible_test "w1" db_test
          (some (some (97 ∷ 32 ∷ [])))
          (some (some (agent_of "a")))
        ≡ true)
unfolding same_key workspace_exists member_belongs is_whitespace trim_start trim_end utf16_len
accepted_test = (refl, refl)
