-- ===== src/Lab/Kept.antt =====
-- What the operations leave of a session that takes no requests any more.
use fqdn_forge.Base.{
  ℕ, String, ◌≡◌, refl, inl, inr, false, none, some, List, map, is_some, Bool-cases,
}
use fqdn_forge.BTreeMap.{get}
use fqdn_forge.Model.Audit.{AuditRecord}
use fqdn_forge.Model.Scenario.{FaultScriptStep, QuotaProfile}
use fqdn_forge.Model.Report.{RunReport}
use fqdn_forge.Lab.State.{RunSession, ResponseMetrics, MutableLabState}
use fqdn_forge.Lab.Exec.{OnRun, takes_requests}
use fqdn_forge.Lab.Requests.{claim_index, append_record, update_metrics, with_metrics, answers}
use fqdn_forge.Lab.Script.{ScriptRequest, claim_step}
use fqdn_forge.Lab.Quota.{QuotaRequest, apply_quota}
use fqdn_forge.Lab.Lifecycle.{cancel_run}
use fqdn_forge.Lab.Submission.{complete}
use fqdn_forge.Lab.Invariant.Sessions.{map-update_last}

-- A record with its transport metrics blanked out.
abbrev pub unmeasured : AuditRecord → AuditRecord
unmeasured r = record r {
  wire_bytes = 0;
  decoded_bytes = 0;
  response_digest = none;
  content_encoding = none;
  compression_limit_violation = none;
  transfer_mode = none;
  chunk_count = 0;
  transport_fault = none;
}

-- The submission, the audit but for transport metrics, the counters, the cursor and the capability
-- are as they were.
pub record Kept (run run' : RunSession) : Type 0 where
  pub submission : run'.submission ≡ run.submission
  pub audit : map unmeasured run'.audit ≡ map unmeasured run.audit
  pub replies : run'.response_counts ≡ run.response_counts
  pub quotas : run'.quota_counts ≡ run.quota_counts
  pub cursor : run'.fault_script_cursor ≡ run.fault_script_cursor
  pub capability : run'.access_token ≡ run.access_token

pub Kept-refl : (run : RunSession) → Kept run run
Kept-refl run = record {
  submission = refl;
  audit = refl;
  replies = refl;
  quotas = refl;
  cursor = refl;
  capability = refl;
}

-- The session `k` is there, and has kept its submission from `run`.
pub record Survives (k : String) (run : RunSession) (s : MutableLabState) : Type 0 where
  pub run' : RunSession
  pub found : get k s.runs ≡ some run'
  pub kept : Kept run run'

-- A body that keeps the session at hand.
abbrev pub KeepsRun : {A : Type 0} → OnRun A → RunSession → Type 0
KeepsRun body run = Kept run (body run).1

pub update_metrics-Kept : (m : ResponseMetrics) (run : RunSession) → KeepsRun (update_metrics m) run
unfolding update_metrics with_metrics
update_metrics-Kept m run = record {
  submission = refl;
  audit = map-update_last unmeasured (with_metrics m) (answers m) (λ r. refl) run.audit;
  replies = refl;
  quotas = refl;
  cursor = refl;
  capability = refl;
}

-- A closed session turns every source request and every cancellation away, unchanged.
module _ (run : RunSession) (shut : takes_requests run.status ≡ false) where
  pub claim_index-Kept : (e : String) (n now : ℕ) → KeepsRun (claim_index e n now) run
  unfolding claim_index
  claim_index-Kept e n now = rw (shut, claim_index) (Kept-refl run)

  pub append_record-Kept : (a : AuditRecord) (now : ℕ) → KeepsRun (append_record a now) run
  unfolding append_record
  append_record-Kept a now = elim (Bool-cases (is_some run.submission)) [
    | inl e ↦ rw (e, append_record) (Kept-refl run)
    | inr e ↦ rw (e, shut, append_record) (Kept-refl run)
  ]

  pub claim_step-Kept :
      (script : List FaultScriptStep) (r : ScriptRequest) (now : ℕ)
      → KeepsRun (claim_step script r now) run
  unfolding claim_step
  claim_step-Kept script r now = rw (shut, claim_step) (Kept-refl run)

  pub apply_quota-Kept :
      (r : QuotaRequest) (profiles : List QuotaProfile) → KeepsRun (apply_quota r profiles) run
  unfolding apply_quota
  apply_quota-Kept r profiles = rw (shut, apply_quota) (Kept-refl run)

  pub cancel_run-Kept : (w timestamp now : ℕ) → KeepsRun (cancel_run w timestamp now) run
  unfolding cancel_run
  cancel_run-Kept w timestamp now = rw (shut, cancel_run) (Kept-refl run)

pub complete-Kept :
    (report : RunReport) (now : ℕ) (run : RunSession) → KeepsRun (complete report now) run
unfolding complete
complete-Kept report now run = record {
  submission = refl;
  audit = refl;
  replies = refl;
  quotas = refl;
  cursor = refl;
  capability = refl;
}
