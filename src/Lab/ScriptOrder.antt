-- ===== src/Lab/ScriptOrder.antt =====
-- The steps that `claim_fault_script_step` matches, over any sequence of requests.
use mathlib.Core.List.{append_assoc, append-nil}
use fqdn_forge.Base.{
  ℕ, zero, suc, ◌≤◌, ◌≡◌, refl, sym, ap, ◌∙◌, inl, inr, true, false, Option, none, some, List, [],
  ◌∷◌, ◌++◌, arith, take, get_elem?, length, Bool-cases, eq_iff, ◌↔◌, subst, of_some, String, All,
  is_some_and-str_eq,
}
use fqdn_forge.BTreeMap.{BTreeMap, get}
use fqdn_forge.Model.Values.{DateTime}
use fqdn_forge.Model.Scenario.{FaultScriptStep, FaultScriptStage}
use fqdn_forge.Lab.State.{RunSession, RunStateError, FaultScriptClaim}
use fqdn_forge.Lab.Exec.{Result, ok, err, takes_requests}
use fqdn_forge.Lab.Script.{
  ScriptRequest, same_stage, query_differs, judge_step, advance, claim_at, claim_step,
}

-- The step that a request matched, if it matched one.
abbrev pub matched_of : Result RunStateError FaultScriptClaim → List FaultScriptStep
matched_of (ok (FaultScriptClaim.matched step)) = step ∷ []
matched_of (ok (FaultScriptClaim.unscripted)) = []
matched_of (ok (FaultScriptClaim.unexpected reason)) = []
matched_of (err e) = []

-- The matched steps in order, and the session at the end.
unfoldable pub run_script :
    List FaultScriptStep
    → List (ScriptRequest × DateTime)
    → RunSession
    → List FaultScriptStep × RunSession
unfolding claim_step
run_script script [] run = ([], run)
run_script script ((r, now) ∷ rest) run =
    let (answer, run') = claim_step script r now run in
    let (steps, last) = run_script script rest run' in (matched_of answer ++ steps, last)

ok_inj :
    {a b : FaultScriptClaim} → ◌≡◌ {A = Result RunStateError FaultScriptClaim} (ok a) (ok b) → a ≡ b
ok_inj h = cc

take-suc :
    {A : Type 0} (n : ℕ) (xs : List A) (a : A)
    → get_elem? xs n ≡ some a
    → (take (suc n) xs ≡ take n xs ++ a ∷ []) × (suc n ≤ length xs)
take-suc n [] a h = absurd (cc h)
take-suc zero (x ∷ xs) a h = (ground arith, ground arith)
take-suc (suc n) (x ∷ xs) a h = ground (arith, take-suc n xs a h)

-- The request is the one that the step waits for: its boundary, its endpoint, every query value of
-- the step, and a long enough wait.
pub record Fits (r : ScriptRequest) (step : FaultScriptStep) : Type 0 where
  pub stage : step.stage ≡ r.stage
  pub endpoint : step.endpoint ≡ r.endpoint_id
  pub query : All (λ e. get e.0 r.query ≡ some e.1) step.query
  pub wait : step.minimum_virtual_wait_ms ≤ r.client_virtual_wait_ms

same_stage_iff : (a b : FaultScriptStage) → (same_stage a b ≡ true) ↔ (a ≡ b)
same_stage_iff FaultScriptStage.source FaultScriptStage.source = ((λ h. refl), λ h. refl)
same_stage_iff FaultScriptStage.proxy FaultScriptStage.proxy = ((λ h. refl), λ h. refl)
same_stage_iff FaultScriptStage.source FaultScriptStage.proxy = ((λ h. cc), λ h. cc)
same_stage_iff FaultScriptStage.proxy FaultScriptStage.source = ((λ h. cc), λ h. cc)

-- The query does not differ exactly when it has every value that is wanted, under its key.
query_differs_iff :
    (wanted query : BTreeMap String)
    → (query_differs wanted query ≡ false) ↔ All (λ e. get e.0 query ≡ some e.1) wanted
unfolding query_differs
query_differs_iff [] query = ((λ h. tt), λ h. refl)
query_differs_iff ((k, v) ∷ rest) query =
    ground (arith, is_some_and-str_eq (get k query) v, query_differs_iff rest query)

judge_step-matched :
    (r : ScriptRequest) (step m : FaultScriptStep)
    → judge_step r step ≡ FaultScriptClaim.matched m
    → (step ≡ m) × Fits r step
unfolding judge_step
judge_step-matched r step m h = (
  ground (arith, h),
  record {
    stage = (same_stage_iff step.stage r.stage).0 (ground (arith, h));
    endpoint = ground (arith, h, eq_iff step.endpoint r.endpoint_id);
    query = (query_differs_iff step.query r.query).0 (ground (arith, h));
    wait = ground (arith, h);
  },
)

judge_step-Fits :
    (r : ScriptRequest) (step : FaultScriptStep)
    → Fits r step
    → judge_step r step ≡ FaultScriptClaim.matched step
unfolding judge_step
judge_step-Fits r step f =
    let stage = (same_stage_iff step.stage r.stage).1 f.stage in
    let query = (query_differs_iff step.query r.query).1 f.query in
    ground (arith, stage, f.endpoint, query, f.wait, eq_iff step.endpoint r.endpoint_id)

-- The cursor stands behind the steps that were matched, and inside the script.
abbrev Behind : List FaultScriptStep → List FaultScriptStep → RunSession → RunSession → Type 0
Behind script steps run last =
    (take last.fault_script_cursor script ≡ take run.fault_script_cursor script ++ steps)
    × (last.fault_script_cursor ≤ length script)

module _ (script : List FaultScriptStep) (r : ScriptRequest) (now : DateTime) (run : RunSession)
    (inside : run.fault_script_cursor ≤ length script) where
  same : Behind script [] run run
  same = (sym (append-nil _), inside)

  advance-Behind :
      (step : FaultScriptStep)
      → get_elem? script run.fault_script_cursor ≡ some step
      → (c : FaultScriptClaim) → judge_step r step ≡ c
      → Behind script (matched_of (ok c)) run (advance now c run)
  unfolding advance
  advance-Behind step at FaultScriptClaim.unscripted e = same
  advance-Behind step at (FaultScriptClaim.unexpected reason) e = same
  advance-Behind step at (FaultScriptClaim.matched m) e =
      ground
        (arith, (judge_step-matched r step m e).0, take-suc run.fault_script_cursor script step at)

  claim_at-Behind :
      (o : Option FaultScriptStep)
      → get_elem? script run.fault_script_cursor ≡ o
      → Behind script (matched_of (claim_at r now run o).0) run (claim_at r now run o).1
  unfolding claim_at
  claim_at-Behind none at = same
  claim_at-Behind (some step) at = advance-Behind step at (judge_step r step) refl

  claim_step-Behind :
      Behind script (matched_of (claim_step script r now run).0) run (claim_step script r now run).1
  unfolding claim_step
  claim_step-Behind = elim (Bool-cases (takes_requests run.status)) [
    | inl e ↦ rw (e, claim_step) (claim_at-Behind (get_elem? script run.fault_script_cursor) refl)
    | inr e ↦ rw (e, claim_step) same
  ]

run_script-Behind :
    (script : List FaultScriptStep) (requests : List (ScriptRequest × DateTime)) (run : RunSession)
    → run.fault_script_cursor ≤ length script
    → Behind script (run_script script requests run).0 run (run_script script requests run).1
unfolding run_script
run_script-Behind script [] run inside = (sym (append-nil _), inside)
run_script-Behind script ((r, now) ∷ rest) run inside =
    let one = claim_step-Behind script r now run inside in
    let run' = (claim_step script r now run).1 in
    let more = run_script-Behind script rest run' one.1 in
    (
      more.0
          ∙ ap (λ l. l ++ (run_script script rest run').0) one.0
          ∙ append_assoc (take run.fault_script_cursor script)
              (matched_of (claim_step script r now run).0) (run_script script rest run').0,
      more.1,
    )

-- Over any sequence of requests to a fresh session, the steps that were matched are the first steps
-- of the script, in the script's order and each once, as many as the cursor says.
pub run_script-eq-take :
    (script : List FaultScriptStep) (requests : List (ScriptRequest × DateTime)) (run : RunSession)
    → run.fault_script_cursor ≡ 0
    → ((run_script script requests run).0
        ≡ take (run_script script requests run).1.fault_script_cursor script)
      × ((run_script script requests run).1.fault_script_cursor ≤ length script)
run_script-eq-take script requests run start =
    let b = run_script-Behind script requests run (rw start (omega arith)) in
    (sym (b.0 ∙ ap (λ n. take n script ++ (run_script script requests run).0) start), b.1)

-- In a session that takes requests, a request matches a step exactly when the cursor stands at that
-- step, the request comes at its boundary and to its endpoint, it has every query value of the step
-- under its key, and it waited at least as long as the step asks.
pub claim_step-matched_iff :
    (script : List FaultScriptStep) (r : ScriptRequest) (now : DateTime) (run : RunSession)
    (step : FaultScriptStep)
    → takes_requests run.status ≡ true
    → ((claim_step script r now run).0 ≡ ok (FaultScriptClaim.matched step))
      ↔ ((get_elem? script run.fault_script_cursor ≡ some step) × Fits r step)
unfolding claim_step
claim_step-matched_iff script r now run step taken =
    rw (taken, claim_step) (matched_iff (get_elem? script run.fault_script_cursor))
  where
    matched_iff :
        (o : Option FaultScriptStep)
        → ((claim_at r now run o).0 ≡ ok (FaultScriptClaim.matched step))
          ↔ ((o ≡ some step) × Fits r step)
    matched_iff none = (λ h. cc, λ h. absurd (cc h.0))
    matched_iff (some found) = (
      λ h.
          let (e, f) = judge_step-matched r found step (ok_inj h) in
          (ap some e, subst (Fits r) e f),
      λ (e, f). ap ok (
          judge_step-Fits r found (subst (Fits r) (sym (of_some e)) f)
          ∙ ap FaultScriptClaim.matched (of_some e)),
    )
