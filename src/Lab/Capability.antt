-- ===== src/Lab/Capability.antt =====
-- The temporary source capability of a plan run in `LabState`: plan_run_access,
-- authorize_plan_source and consume_plan_fault. The errors are messages.
use fqdn_forge.Base.{
  ℕ, String, Bool, false, ◌&&◌, not, Option, none, some, [], ◌∷◌, leb, str_eq, if◌then◌else◌,
  is_some_and, find, saturating_add, concat,
}
use fqdn_forge.BTreeMap.{get, insert, set}
use fqdn_forge.Model.Values.{DateTime}
use fqdn_forge.Plan.Definition.{PlanSource}
use fqdn_forge.Plan.Run.{PlanRun}
use fqdn_forge.Lab.State.{PlanRunRuntime, PlanRunAccess, PlanSourceRequest, MutableLabState}
use fqdn_forge.Lab.Exec.{Result, ok, err, Exec}

abbrev pub no_capability : String
no_capability = "PLAN_SOURCE_CAPABILITY_UNAVAILABLE: no active local source capability"

abbrev pub capability_over : String
capability_over =
    "PLAN_SOURCE_CAPABILITY_UNAVAILABLE: local source capability is expired or cancelled"

abbrev pub capability_invalid : String
capability_invalid =
    "PLAN_SOURCE_CAPABILITY_INVALID: source capability is missing, stale, or invalid"

abbrev pub run_missing : String → String
run_missing run_id = concat ("PLAN_RUN_NOT_FOUND: plan run " ∷ run_id ∷ " does not exist" ∷ [])

-- `if Utc::now() >= runtime.expires_at { runtime.active = false; }`.
unfoldable pub expire : DateTime → PlanRunRuntime → PlanRunRuntime
expire now runtime =
    if leb runtime.expires_at now then record runtime { active = false } else runtime

-- The write through `plan_runtimes.get_mut(run_id)`.
abbrev pub write_runtime : String → PlanRunRuntime → MutableLabState → MutableLabState
write_runtime run_id runtime s = record s { plan_runtimes = set run_id runtime s.plan_runtimes }

-- What an operation does to the runtime that it has looked up. Each operation first expires it.
abbrev pub OnRuntime : Type 0 → Type 0
OnRuntime A = PlanRunRuntime → Result String A × PlanRunRuntime

unfoldable pub in_runtime :
    {A : Type 0} → String → OnRuntime A → Option PlanRunRuntime → Exec String A
in_runtime run_id body none s = (err no_capability, s)
in_runtime run_id body (some runtime) s =
    let (result, runtime') = body runtime in (result, write_runtime run_id runtime' s)

unfoldable pub access_runtime : String → DateTime → OnRuntime PlanRunAccess
unfolding expire
access_runtime run_id now runtime =
    let runtime' = expire now runtime in
    if not runtime'.active then (err capability_over, runtime') else (
      ok (record {
        run_id = run_id;
        source_capability = runtime'.source_capability;
        fake_api_key = runtime'.fake_api_key;
        expires_at = runtime'.expires_at;
      }),
      runtime',
    )

unfoldable pub plan_run_access : String → DateTime → Exec String PlanRunAccess
unfolding access_runtime in_runtime
plan_run_access run_id now s =
    in_runtime run_id (access_runtime run_id now) (get run_id s.plan_runtimes) s

-- `source.id == source_id && source.enabled`.
abbrev pub is_enabled : String → PlanSource → Bool
is_enabled source_id source = str_eq source.id source_id && source.enabled

-- `and_modify(|count| *count = count.saturating_add(1)).or_insert(1)`.
unfoldable pub next_request : Option ℕ → ℕ
next_request none = 1
next_request (some count) = saturating_add count 1

-- `authorize_plan_source` once the source is found.
unfoldable pub reserve_request : String → PlanRun → Option PlanSource → OnRuntime PlanSourceRequest
unfolding next_request
reserve_request source_id run none runtime = (
  err (concat ("PLAN_SOURCE_NOT_FOUND: enabled source " ∷ source_id ∷ " does not exist" ∷ [])),
  runtime,
)
reserve_request source_id run (some source) runtime =
    let request_number = next_request (get source_id runtime.request_counts) in
    (
      ok (record {
        plan = run.plan_snapshot;
        source = source;
        request_number = request_number;
        fake_api_key = runtime.fake_api_key;
        expires_at = runtime.expires_at;
      }),
      record runtime { request_counts = insert source_id request_number runtime.request_counts },
    )

-- `authorize_plan_source` once the capability is accepted.
unfoldable pub authorize_run : String → String → Option PlanRun → OnRuntime PlanSourceRequest
unfolding reserve_request
authorize_run run_id source_id none runtime = (err (run_missing run_id), runtime)
authorize_run run_id source_id (some run) runtime =
    reserve_request source_id run (find (is_enabled source_id) run.plan_snapshot.sources) runtime

-- `source_capability == Some(runtime.source_capability.as_str())`.
abbrev pub presents : Option String → PlanRunRuntime → Bool
presents source_capability runtime =
    is_some_and source_capability λ c. str_eq c runtime.source_capability

unfoldable pub authorize_runtime :
    String → String → Option String → DateTime → Option PlanRun → OnRuntime PlanSourceRequest
unfolding authorize_run expire
authorize_runtime run_id source_id source_capability now run runtime =
    let runtime' = expire now runtime in
    if not runtime'.active
    then (err capability_over, runtime')
    else if not (presents source_capability runtime')
    then (err capability_invalid, runtime')
    else authorize_run run_id source_id run runtime'

unfoldable pub authorize_plan_source :
    String → String → Option String → DateTime → Exec String PlanSourceRequest
unfolding authorize_runtime in_runtime
authorize_plan_source run_id source_id source_capability now s =
    in_runtime run_id
      (authorize_runtime run_id source_id source_capability now (get run_id s.plan_runs))
      (get run_id s.plan_runtimes) s
