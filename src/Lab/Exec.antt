-- ===== src/Lab/Exec.antt =====
-- An operation of `LabState` holds the lock from its first to its last step, so it is one function
-- from the state to a result and the state that it leaves, also where it fails.
pub use fqdn_forge.Base.{Result, ok, err}
use fqdn_forge.Base.{String, Bool, true, false, Option, none, some, if◌then◌else◌}
use fqdn_forge.BTreeMap.{get, set}
use fqdn_forge.Model.Collector.{CollectorSubmission}
use fqdn_forge.Lab.State.{RunSession, RunSessionStatus, RunStateError, MutableLabState}

abbrev pub Exec : Type 0 → Type 0 → Type 0
Exec E A = MutableLabState → Result E A × MutableLabState

-- What an operation does to the session that it has looked up.
abbrev pub OnRun : Type 0 → Type 0
OnRun A = RunSession → Result RunStateError A × RunSession

-- The third-party functions that the operations call: whether `Uuid::parse_str` accepts a text, and
-- what `serde_json::to_string` makes of a submission.
pub record Platform : Type 0 where
  pub is_uuid : String → Bool
  pub to_json : CollectorSubmission → Option String

-- `validate_run_id(run_id)?`.
unfoldable pub validate_run_id : Platform → String → Result RunStateError Unit
validate_run_id x run_id = if x.is_uuid run_id then ok tt else err RunStateError.invalid_run_id

-- `runs.get_mut(run_id).ok_or(UnknownRun)?` and the body after it.
unfoldable pub in_run : {A : Type 0} → String → OnRun A → Option RunSession → Exec RunStateError A
in_run run_id body none s = (err RunStateError.unknown_run, s)
in_run run_id body (some run) s =
    let (result, run') = body run in (result, record s { runs = set run_id run' s.runs })

unfoldable pub with_run : {A : Type 0} → Platform → String → OnRun A → Exec RunStateError A
unfolding validate_run_id in_run
with_run x run_id body s = elim (validate_run_id x run_id) [
  | ok _ ↦ in_run run_id body (get run_id s.runs) s
  | err e ↦ (err e, s)
]

-- `matches!(run.status, Active | Reset)`.
unfoldable pub takes_requests : RunSessionStatus → Bool
takes_requests RunSessionStatus.active = true
takes_requests RunSessionStatus.reset = true
takes_requests _ = false
