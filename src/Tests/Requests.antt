-- ===== src/Tests/Requests.antt =====
-- Concrete requests, and the theorems about reply indices, fault scripts and quotas at them.
use fqdn_forge.Base.{
  ℕ, ◌≤◌, ◌≡◌, ◌↔◌, refl, true, false, none, some, List, [], ◌∷◌, arith, take, get_elem?,
}
use fqdn_forge.BTreeMap.{get, insert}
use fqdn_forge.Model.Scenario.{
  FaultScriptStep, FaultScriptStage, ProxyFault, QuotaProfile, QuotaScope, RetryAfterMode,
}
use fqdn_forge.Lab.State.{RunSession, FaultScriptClaim, QuotaDecision}
use fqdn_forge.Lab.Exec.{ok, takes_requests}
use fqdn_forge.Lab.Script.{ScriptRequest, claim_step}
use fqdn_forge.Lab.Quota.{apply_quota}
use fqdn_forge.Lab.Lifecycle.{new_session}
use fqdn_forge.Lab.Claims.{claim_all, answers_for, claim_all-in_order}
use fqdn_forge.Lab.ScriptOrder.{Fits, run_script, run_script-eq-take, claim_step-matched_iff}
use fqdn_forge.Lab.Budget.{AllOrNothing, apply_quota-AllOrNothing}
use fqdn_forge.Lab.Allowance.{request, granted, granted-eq-allowance}

run : RunSession
run = new_session "001" 7 (record { run_id = "a"; access_token = "token" }) 1

run_takes : takes_requests run.status ≡ true
unfolding takes_requests run new_session
run_takes = refl

-- Three requests for an endpoint of two replies, with one for another endpoint in between.
claim_all-in_order_example :
    answers_for "ct" (claim_all (λ e. 2) (("ct", 1) ∷ ("pdns", 2) ∷ ("ct", 3) ∷ ("ct", 4) ∷ []) run)
    ≡ ok (some 0) ∷ ok (some 1) ∷ ok none ∷ []
unfolding run new_session get
claim_all-in_order_example =
    claim_all-in_order (λ e. 2) "ct" (("ct", 1) ∷ ("pdns", 2) ∷ ("ct", 3) ∷ ("ct", 4) ∷ []) run
      run_takes

abbrev first_step : FaultScriptStep
first_step = record {
  id = "s1";
  stage = FaultScriptStage.source;
  endpoint = "ct";
  query = [];
  response_index = some 0;
  minimum_virtual_wait_ms = 0;
  expect_quota_rate_limited = false;
  proxy_fault = ProxyFault.no_fault;
  required = true;
}

abbrev second_step : FaultScriptStep
second_step = record first_step { id = "s2"; minimum_virtual_wait_ms = 500 }

abbrev ask : ℕ → ScriptRequest
ask wait = record {
  stage = FaultScriptStage.source;
  endpoint_id = "ct";
  query = [];
  client_virtual_wait_ms = wait;
}

-- The second request comes too early for its step, the third does not.
script_test :
    (run_script
      (first_step ∷ second_step ∷ [])
      ((ask 0, 1) ∷ (ask 100, 2) ∷ (ask 500, 3) ∷ [])
      run).0
    ≡ first_step ∷ second_step ∷ []
unfolding run_script run new_session
script_test = refl

run_script-eq-take_example :
    ((run_script (first_step ∷ second_step ∷ []) ((ask 0, 1) ∷ []) run).0
      ≡ take
          (run_script (first_step ∷ second_step ∷ []) ((ask 0, 1) ∷ []) run).1.fault_script_cursor
          (first_step ∷ second_step ∷ []))
    × ((run_script (first_step ∷ second_step ∷ []) ((ask 0, 1) ∷ []) run).1.fault_script_cursor ≤ 2)
unfolding run new_session
run_script-eq-take_example =
    run_script-eq-take (first_step ∷ second_step ∷ []) ((ask 0, 1) ∷ []) run refl

claim_step-matched_iff_example :
    ((claim_step (first_step ∷ []) (ask 0) 1 run).0 ≡ ok (FaultScriptClaim.matched first_step)) ↔ (
      (get_elem? (first_step ∷ []) run.fault_script_cursor ≡ some first_step)
      × Fits (ask 0) first_step)
claim_step-matched_iff_example =
    claim_step-matched_iff (first_step ∷ []) (ask 0) 1 run first_step run_takes

abbrev per_source : QuotaProfile
per_source = record {
  scope = QuotaScope.per_source;
  success_limit = 2;
  exhausted_status = 429;
  retry_after_mode = RetryAfterMode.seconds;
  retry_after_ms = 1000;
  recover_after_virtual_ms = none;
}

abbrev global : QuotaProfile
global = record per_source { scope = QuotaScope.global_run; success_limit = 5 }

apply_quota-AllOrNothing_example :
    (decisions : List QuotaDecision) × ((apply_quota
        (request "ct" "k" 0)
        (per_source ∷ global ∷ [])
        run).0
      ≡ ok decisions)
    × AllOrNothing
        (request "ct" "k" 0)
        (per_source ∷ global ∷ [])
        run
        decisions
        (apply_quota (request "ct" "k" 0) (per_source ∷ global ∷ []) run).1
apply_quota-AllOrNothing_example =
    apply_quota-AllOrNothing (request "ct" "k" 0) (per_source ∷ global ∷ []) run run_takes

-- Of four requests two are let through, as many as the source has.
granted-eq-allowance_example :
    granted "ct" "k" (per_source ∷ global ∷ []) (0 ∷ 0 ∷ 9000 ∷ 0 ∷ []) run ≡ 2
unfolding run new_session get
granted-eq-allowance_example =
    granted-eq-allowance "ct" "k" (per_source ∷ global ∷ []) (0 ∷ 0 ∷ 9000 ∷ 0 ∷ []) run
      ((refl, omega arith), ((refl, omega arith), tt)) run_takes

granted_test : granted "ct" "k" (per_source ∷ global ∷ []) (0 ∷ 0 ∷ 9000 ∷ 0 ∷ []) run ≡ 2
unfolding granted run new_session get insert
granted_test = refl
