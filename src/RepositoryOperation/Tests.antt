-- ===== src/RepositoryOperation/Tests.antt =====
-- Runs that the program's own tests make, and the theorems at concrete inputs.
use devhatch.Prelude.{◌≡◌, refl, none, some, [], ◌∷◌}
use devhatch.RepositoryOperation.Defs.{
  add, sync, Operation, State, initial, Progress, starts, deletes, reports, finishes,
  begin_deletion, step, run,
}
use devhatch.RepositoryOperation.Exclusion.{IsExclusive, run-initial-IsExclusive}
use devhatch.RepositoryOperation.Revision.{Counts, step-Counts, Continues, step-Continues}

abbrev syncing : State
syncing = run initial (starts sync (some "repo-a") "op" ∷ [])

abbrev received : Progress
received = record {
  stage = "receiving";
  progress = 60;
  downloaded_bytes = some 100;
  total_bytes = some 200;
}

abbrev resolving : Progress
resolving = record {
  stage = "resolving";
  progress = 50;
  downloaded_bytes = none;
  total_bytes = none;
}

-- The deletion of the repository that is synchronised is refused, that of another is not.
refused_deletion : begin_deletion (some "repo-a") "d" syncing ≡ none
unfolding run step begin_deletion
refused_deletion = refl

reported : (run syncing (reports "op" received ∷ reports "op" resolving ∷ [])).revision ≡ 3
unfolding run step
reported = refl

late_report : (run syncing (finishes "op" ∷ reports "op" received ∷ [])).operation ≡ none
unfolding run step
late_report = refl

run-initial-IsExclusive_example : IsExclusive (
    run initial
      (deletes (some "repo-a") "d" ∷ starts add none "op" ∷ starts sync (some "repo-b") "op" ∷ []))
run-initial-IsExclusive_example =
    run-initial-IsExclusive
      (deletes (some "repo-a") "d" ∷ starts add none "op" ∷ starts sync (some "repo-b") "op" ∷ [])
      (tt, ((λ _. refl), ((λ h. cc), tt)))

step-Counts_example : Counts syncing (step syncing (reports "op" received))
step-Counts_example = step-Counts syncing (reports "op" received)

abbrev queued : Operation
queued = record {
  id = "op";
  kind = sync;
  repository_id = some "repo-a";
  stage = "queued";
  progress = 0;
  downloaded_bytes = none;
  total_bytes = none;
}

queued_runs : syncing.operation ≡ some queued
unfolding run step
queued_runs = refl

step-Continues_example :
    Continues queued (finishes "other") (step syncing (finishes "other")).operation
step-Continues_example = step-Continues syncing queued (finishes "other") queued_runs
