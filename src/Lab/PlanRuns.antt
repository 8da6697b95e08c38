-- ===== src/Lab/PlanRuns.antt =====
-- The plan runs of `LabState`: register_plan_run, cancel_plan_run, record_plan_source_request and
-- invalidate_plan_runtimes, each up to what it gives to `PlanStore::save_run`.
use fqdn_forge.Base.{
  ℕ, ◌+◌, ◌*◌, ◌^◌, String, Bool, true, false, Option, none, some, List, [], ◌∷◌, ◌++◌, ltb, str_eq,
  if◌then◌else◌, any, length, saturating_add, concat,
}
use fqdn_forge.BTreeMap.{empty, get, insert, set}
use fqdn_forge.Model.Values.{DateTime}
use fqdn_forge.Plan.Settings.{PlanAuthentication, AuthenticationMode}
use fqdn_forge.Plan.Definition.{ExperimentPlan}
use fqdn_forge.Plan.Run.{PlanRun, PlanRunAuditEntry, PlanRequestAuditStep}
use fqdn_forge.Lab.State.{PlanRunRuntime}
use fqdn_forge.Lab.Exec.{Result, ok, err, Exec}
use fqdn_forge.Lab.Capability.{no_capability, run_missing, write_runtime}

-- `PLAN_RUNTIME_CAPABILITY_TTL_SECONDS`, in nanoseconds.
abbrev pub capability_ttl : ℕ
capability_ttl = 300 * 10 ^ 9

abbrev pub max_audit_requests : ℕ
max_audit_requests = 512

abbrev or_plan : Option PlanAuthentication → PlanAuthentication → PlanAuthentication
or_plan none plan = plan
or_plan (some own) plan = own

abbrev is_fake_key : AuthenticationMode → Bool
is_fake_key AuthenticationMode.fake_api_key = true
is_fake_key _ = false

unfoldable pub needs_fake_key : ExperimentPlan → Bool
needs_fake_key plan =
    any (λ source. is_fake_key (or_plan source.authentication plan.authentication).mode)
      plan.sources

-- The two texts that `register_plan_run` draws, and what `PlanStore::save_run` answered.
pub record Registration : Type 0 where
  pub capability_uuid : String
  pub key_uuid : String
  pub saved : Result String Unit

unfoldable pub new_runtime : Registration → PlanRun → DateTime → PlanRunRuntime
unfolding needs_fake_key
new_runtime r run now = record {
  source_capability = concat ("plan-src-" ∷ r.capability_uuid ∷ []);
  fake_api_key =
      if needs_fake_key run.plan_snapshot
      then some (concat ("fake-plan-" ∷ r.key_uuid ∷ []))
      else none;
  expires_at = now + capability_ttl;
  active = true;
  request_counts = empty;
  fault_occurrences = empty;
}

unfoldable pub register_saved : PlanRun → PlanRunRuntime → Result String Unit → Exec String PlanRun
register_saved run runtime (err e) s = (err e, s)
register_saved run runtime (ok _) s = (
  ok run,
  record s {
    plan_runtimes = insert run.manifest.run_id runtime s.plan_runtimes;
    plan_runs = insert run.manifest.run_id run s.plan_runs;
  },
)

unfoldable pub register_plan_run : Registration → PlanRun → DateTime → Exec String PlanRun
unfolding register_saved new_runtime
register_plan_run r run now = register_saved run (new_runtime r run now) r.saved

-- The report of a run whose source access ends, with a line for the reason.
unfoldable pub end_access : String → List String → PlanRun → PlanRun
end_access status failures run = record run {
  report = record run.report {
    source_access_status = status;
    source_access_expires_at = none;
    failures = failures;
  };
}

abbrev pub cancelled_reason : String
cancelled_reason = "local source capability cancelled"

-- The reason is noted once.
unfoldable pub cancel_report : PlanRun → PlanRun
unfolding end_access
cancel_report run =
    end_access "cancelled"
      (if any (λ f. str_eq f cancelled_reason) run.report.failures
        then run.report.failures
        else run.report.failures ++ cancelled_reason ∷ [])
      run

unfoldable pub cancel_found : String → Option PlanRun → Exec String PlanRun
unfolding cancel_report
cancel_found run_id none s = (err (run_missing run_id), s)
cancel_found run_id (some run) s =
    (ok (cancel_report run), record s { plan_runs = set run_id (cancel_report run) s.plan_runs })

unfoldable pub cancel_runtime : String → Option PlanRunRuntime → Exec String PlanRun
unfolding cancel_found
cancel_runtime run_id none s = (err no_capability, s)
cancel_runtime run_id (some runtime) s =
    cancel_found run_id (get run_id s.plan_runs)
      (write_runtime run_id (record runtime { active = false }) s)

unfoldable pub cancel_plan_run : String → Exec String PlanRun
unfolding cancel_runtime
cancel_plan_run run_id s = cancel_runtime run_id (get run_id s.plan_runtimes) s

-- A write to the first entry of a source, in the audit of a run; the audit is bounded.
unfoldable pub push_request :
    String → PlanRequestAuditStep → List PlanRunAuditEntry → List PlanRunAuditEntry
push_request source_id step [] = []
push_request source_id step (entry ∷ rest) =
    if str_eq entry.source_id source_id
    then (if ltb (length entry.actual_requests) max_audit_requests
        then record entry { actual_requests = entry.actual_requests ++ step ∷ [] }
        else entry)
      ∷ rest
    else entry ∷ push_request source_id step rest

unfoldable pub count_request : String → PlanRequestAuditStep → PlanRun → PlanRun
unfolding push_request
count_request source_id step run = record run {
  audit = push_request source_id step run.audit;
  report = record run.report {
    actual_requests = saturating_add run.report.actual_requests 1;
    source_access_status = "active";
  };
}

unfoldable pub record_found :
    String → String → PlanRequestAuditStep → Option PlanRun → Exec String PlanRun
unfolding count_request
record_found run_id source_id step none s = (err (run_missing run_id), s)
record_found run_id source_id step (some run) s =
    if any (λ entry. str_eq entry.source_id source_id) run.audit
    then (
      ok (count_request source_id step run),
      record s { plan_runs = set run_id (count_request source_id step run) s.plan_runs },
    )
    else (err (concat ("PLAN_SOURCE_NOT_FOUND: source " ∷ source_id ∷ " does not exist" ∷ [])), s)

unfoldable pub record_plan_source_request :
    String → String → PlanRequestAuditStep → Exec String PlanRun
unfolding record_found
record_plan_source_request run_id source_id step s =
    record_found run_id source_id step (get run_id s.plan_runs) s
