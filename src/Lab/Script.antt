-- ===== src/Lab/Script.antt =====
-- `claim_fault_script_step` of `LabState`: the declarative fault script of a run, step by step.
use fqdn_forge.Base.{
  ℕ, ◌+◌, String, Bool, true, false, not, Option, none, some, List, [], ◌∷◌, ltb, str_eq,
  if◌then◌else◌, is_some_and, any, get_elem?, concat, decimal,
}
use fqdn_forge.BTreeMap.{BTreeMap, get}
use fqdn_forge.Model.Values.{DateTime}
use fqdn_forge.Model.Scenario.{FaultScriptStep, FaultScriptStage}
use fqdn_forge.Lab.State.{RunSession, RunStateError, FaultScriptClaim}
use fqdn_forge.Lab.Exec.{Result, ok, err, Exec, OnRun, Platform, with_run, takes_requests}

-- The request that is held against the script.
pub record ScriptRequest : Type 0 where
  pub stage : FaultScriptStage
  pub endpoint_id : String
  pub query : BTreeMap String
  pub client_virtual_wait_ms : ℕ

abbrev pub same_stage : FaultScriptStage → FaultScriptStage → Bool
same_stage FaultScriptStage.source FaultScriptStage.source = true
same_stage FaultScriptStage.proxy FaultScriptStage.proxy = true
same_stage _ _ = false

-- `step.query.iter().any(|(key, value)| query.get(key) != Some(value))`.
unfoldable pub query_differs : BTreeMap String → BTreeMap String → Bool
query_differs wanted query = any (λ e. not (is_some_and (get e.0 query) (λ v. str_eq v e.1))) wanted

-- What the request is told about the step at the cursor, before the cursor moves.
unfoldable pub judge_step : ScriptRequest → FaultScriptStep → FaultScriptClaim
unfolding query_differs
judge_step r step =
    if not (same_stage step.stage r.stage)
    then FaultScriptClaim.unscripted
    else if not (str_eq step.endpoint r.endpoint_id)
    then FaultScriptClaim.unexpected
        (concat ("expected endpoint " ∷ step.endpoint ∷ " for step " ∷ step.id ∷ []))
    else if query_differs step.query r.query
    then FaultScriptClaim.unexpected (concat ("request query does not match step " ∷ step.id ∷ []))
    else if ltb r.client_virtual_wait_ms step.minimum_virtual_wait_ms
    then FaultScriptClaim.unexpected (
        concat (
          "step "
          ∷ step.id
          ∷ " requires at least "
          ∷ decimal step.minimum_virtual_wait_ms
          ∷ "ms virtual wait"
          ∷ []))
    else FaultScriptClaim.matched step

-- Only a match moves the cursor.
unfoldable pub advance : DateTime → FaultScriptClaim → RunSession → RunSession
advance now (FaultScriptClaim.matched step) run = record run {
  fault_script_cursor = run.fault_script_cursor + 1;
  last_activity_at = now;
}
advance now _ run = run

-- The step at the cursor is judged; past the end nothing is expected any more.
unfoldable pub claim_at :
    ScriptRequest
    → DateTime
    → RunSession
    → Option FaultScriptStep
    → Result RunStateError FaultScriptClaim × RunSession
unfolding judge_step advance
claim_at r now run none = (ok (FaultScriptClaim.unexpected "fault script exhausted"), run)
claim_at r now run (some step) = let claim = judge_step r step in (ok claim, advance now claim run)

unfoldable pub claim_step : List FaultScriptStep → ScriptRequest → DateTime → OnRun FaultScriptClaim
unfolding claim_at takes_requests
claim_step script r now run =
    if takes_requests run.status
    then claim_at r now run (get_elem? script run.fault_script_cursor)
    else (err RunStateError.run_not_accepting_source_requests, run)

-- Without a script nothing is looked up, the run id included.
unfoldable pub claim_fault_script_step :
    Platform
    → String
    → List FaultScriptStep
    → ScriptRequest
    → DateTime
    → Exec RunStateError FaultScriptClaim
unfolding claim_step with_run
claim_fault_script_step x run_id [] r now s = (ok FaultScriptClaim.unscripted, s)
claim_fault_script_step x run_id (step ∷ rest) r now s =
    with_run x run_id (claim_step (step ∷ rest) r now) s
