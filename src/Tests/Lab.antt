-- ===== src/Tests/Lab.antt =====
-- Concrete histories of the run state, and the theorems of Lab at them.
use fqdn_forge.Base.{
  String, ◌≡◌, ◌≢◌, refl, not, Option, none, some, [], arith, str_eq, eq_iff, false≢true,
}
use fqdn_forge.BTreeMap.{get, insert, set}
use fqdn_forge.Model.Collector.{CollectorSubmission}
use fqdn_forge.Lab.State.{RunSession, RunSessionStatus, RunStateError, MutableLabState}
use fqdn_forge.Lab.Exec.{Platform, ok, err}
use fqdn_forge.Lab.Lifecycle.{FreshIds, new_session, create_run_with_seed}
use fqdn_forge.Lab.Submission.{freeze_submission, digest_of, takes_submission}
use fqdn_forge.Lab.Step.{
  creates, claims_index, cancels, freezes, initial, after, Reach, start, step,
}
use fqdn_forge.Lab.Isolation.{after_other}
use fqdn_forge.Lab.Kept.{Survives}
use fqdn_forge.Lab.Frozen.{after-frozen}
use fqdn_forge.Lab.Payload.{freeze-held_by_other, freeze-accepted}
use fqdn_forge.Lab.Invariant.Rules.{IsWellFormed, held}
use fqdn_forge.Lab.Invariant.History.{Reach-IsWellFormed}

-- Every text but the empty one is a UUID, and a submission is encoded by its target domain.
abbrev pub platform : Platform
platform = record { is_uuid = λ t. not (str_eq t ""); to_json = λ s. some s.target_domain }

abbrev ids : String → FreshIds
ids k = record { run_id = k; access_token = "token" }

abbrev acme : CollectorSubmission
acme = record {
  schema_version = "1";
  collector = record { name = "lens"; version = "1" };
  target_domain = "acme.test";
  source_statuses = [];
  findings = [];
}

-- The run "a" is created and submits; the run "b" is created.
abbrev one_run : MutableLabState
one_run = after platform (creates (some 7) "001" none (ids "a") 1) initial

abbrev two_runs : MutableLabState
two_runs = after platform (creates (some 7) "001" none (ids "b") 2) one_run

abbrev submitted : MutableLabState
submitted = after platform (freezes "a" acme 3) two_runs

two_runs-Reach : Reach platform two_runs
unfolding after create_run_with_seed get insert
two_runs-Reach =
    step (creates (some 7) "001" none (ids "b") 2) refl
      (step (creates (some 7) "001" none (ids "a") 1) refl start)

submitted-Reach : Reach platform submitted
submitted-Reach = step (freezes "a" acme 3) tt two_runs-Reach

Reach-IsWellFormed_example : IsWellFormed platform submitted
Reach-IsWellFormed_example = Reach-IsWellFormed submitted-Reach

after_other_example :
    get "b" (after platform (cancels "a" 0 4 5) submitted).runs ≡ get "b" submitted.runs
after_other_example = after_other platform (cancels "a" 0 4 5) submitted "b" (λ h. a_not_b h)
  where
    a_not_b : ◌≢◌ {A = Option String} (some "a") (some "b")
    a_not_b h = ground (arith, h, eq_iff "a" "b")

abbrev submitted_run : RunSession
submitted_run = record (new_session "001" 7 (ids "a") 1) {
  submission = some acme;
  status = RunSessionStatus.submitted;
  last_activity_at = 3;
}

submitted_found : get "a" submitted.runs ≡ some submitted_run
unfolding after create_run_with_seed freeze_submission new_session get insert set
submitted_found = refl

after-frozen_example :
    Survives "a" submitted_run (after platform (claims_index "a" "ct" 3 9) submitted)
unfolding new_session
after-frozen_example =
    after-frozen submitted-Reach "a" submitted_run (claims_index "a" "ct" 3 9) submitted_found refl
      refl tt

b_run : RunSession
b_run = new_session "001" 7 (ids "b") 2

b_found : get "b" submitted.runs ≡ some b_run
unfolding after create_run_with_seed freeze_submission b_run new_session get insert set
b_found = refl

a_not_b : ◌≢◌ {A = String} "a" "b"
a_not_b h = false≢true ((eq_iff "a" "b").1 h)

freeze-held_by_other_example :
    freeze_submission platform "b" acme 4 submitted
    ≡ (err RunStateError.cross_run_submission, submitted)
unfolding digest_of
freeze-held_by_other_example =
    freeze-held_by_other submitted-Reach "b" "a" b_run acme 4 "acme.test" refl b_found refl
      (rw submitted_found) a_not_b

b_found_before : get "b" two_runs.runs ≡ some b_run
unfolding after create_run_with_seed b_run new_session get insert
b_found_before = refl

nothing_held : (k : String) → held platform two_runs.runs k ≢ some "acme.test"
unfolding after create_run_with_seed new_session get insert digest_of
nothing_held k h = ground (arith, h)

freeze-accepted_example :
    ((freeze_submission platform "b" acme 4 two_runs).0 ≡ ok tt)
    × (held platform (freeze_submission platform "b" acme 4 two_runs).1.runs "b" ≡ some "acme.test")
    × (get "acme.test" (freeze_submission platform "b" acme 4 two_runs).1.submitted_payloads
        ≡ some "b")
unfolding b_run new_session
freeze-accepted_example =
    freeze-accepted two_runs-Reach "b" b_run acme 4 "acme.test" refl b_found_before refl refl
      (unfold takes_submission in refl) (λ k _. nothing_held k)
