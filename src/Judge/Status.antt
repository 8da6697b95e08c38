-- ===== src/Judge/Status.antt =====
-- The statuses of the sources, and the run status that the judge derives from them.
use fqdn_forge.Base.{
  String, Bool, true, false, ◌&&◌, ◌||◌, not, List, [], ◌∷◌, ◌==◌, ltb, if◌then◌else◌, eq_by,
  is_some_and, keep, all, length,
}
use fqdn_forge.BTreeMap.{BTreeMap, get, values}
use fqdn_forge.Model.Collector.{SourceStatus, SourceStatus-discrete}
use fqdn_forge.Model.Truth.{RunStatus}

-- `matches!(status, Success | Succeeded | Completed)`.
abbrev pub is_success : SourceStatus → Bool
is_success SourceStatus.success = true
is_success SourceStatus.succeeded = true
is_success SourceStatus.completed = true
is_success _ = false

-- `*status == SourceStatus::Cancelled`.
abbrev pub is_cancelled : SourceStatus → Bool
is_cancelled SourceStatus.cancelled = true
is_cancelled _ = false

abbrev pub is_empty : {A : Type 0} → List A → Bool
is_empty [] = true
is_empty (x ∷ xs) = false

unfoldable pub derive_run_status : BTreeMap SourceStatus → RunStatus
derive_run_status statuses =
    let success = length (keep is_success (values statuses)) in
    if not (is_empty statuses) && all is_cancelled (values statuses)
    then RunStatus.cancelled
    else if success == length statuses
    then RunStatus.success
    else if ltb 0 success
    then RunStatus.partial_success
    else RunStatus.failure

unfoldable pub source_status_equivalent : SourceStatus → SourceStatus → Bool
unfolding SourceStatus-discrete
source_status_equivalent actual expected =
    is_success actual && is_success expected || eq_by SourceStatus-discrete actual expected

-- One entry of the actual statuses, held against the expected ones.
unfoldable pub status_expected : BTreeMap SourceStatus → String × SourceStatus → Bool
unfolding source_status_equivalent
status_expected expected (source, actual) =
    is_some_and (get source expected) λ wanted. source_status_equivalent actual wanted

unfoldable pub source_statuses_match : BTreeMap SourceStatus → BTreeMap SourceStatus → Bool
unfolding status_expected
source_statuses_match actual expected =
    length actual == length expected && all (status_expected expected) actual
