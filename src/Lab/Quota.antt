-- ===== src/Lab/Quota.antt =====
-- `evaluate_quota` of `LabState`: all quota scopes of one source request, at once.
use fqdn_forge.Base.{
  ℕ, ◌-◌, String, Bool, false, ◌&&◌, not, List, [], ◌∷◌, map, leb, if◌then◌else◌, is_some_and, all,
  saturating_add, concat,
}
use fqdn_forge.BTreeMap.{BTreeMap, get, insert}
use fqdn_forge.Model.Scenario.{QuotaScope, QuotaProfile}
use fqdn_forge.Lab.State.{RunStateError, QuotaDecision}
use fqdn_forge.Lab.Exec.{ok, err, Exec, OnRun, Platform, with_run, takes_requests}
use fqdn_forge.Lab.Requests.{or_default}

unfoldable pub quota_key : QuotaScope → String → String → String
quota_key QuotaScope.per_source endpoint_id credential_identity =
    concat ("source:" ∷ endpoint_id ∷ [])
quota_key QuotaScope.per_key endpoint_id credential_identity =
    concat ("key:" ∷ endpoint_id ∷ ":" ∷ credential_identity ∷ [])
quota_key QuotaScope.global_run endpoint_id credential_identity = "global"

-- Who asks, and how long the client says that it has waited.
pub record QuotaRequest : Type 0 where
  pub endpoint_id : String
  pub credential_identity : String
  pub client_virtual_wait_ms : ℕ

abbrev pub key_of : QuotaRequest → QuotaProfile → String
key_of r profile = quota_key profile.scope r.endpoint_id r.credential_identity

-- The budget is used up, and the client has waited long enough to have it back.
unfoldable pub recovered : QuotaRequest → QuotaProfile → ℕ → Bool
recovered r profile used =
    leb profile.success_limit used
    && is_some_and profile.recover_after_virtual_ms
        (λ minimum. leb minimum r.client_virtual_wait_ms)

-- What counts as used: nothing after a recovery.
unfoldable pub used_now : QuotaRequest → QuotaProfile → ℕ → ℕ
unfolding recovered
used_now r profile used = if recovered r profile used then 0 else used

-- One round of the first loop, on the counter as it stands. `saturating_sub` is `-` on ℕ.
unfoldable pub decide_from : QuotaRequest → QuotaProfile → ℕ → QuotaDecision
unfolding used_now
decide_from r profile count =
    let used = used_now r profile count in
    let remaining_before = profile.success_limit - used in
    let rate_limited = leb profile.success_limit used && not (recovered r profile count) in
    record {
      profile = profile;
      remaining_before = remaining_before;
      remaining_after = remaining_before - (if rate_limited then 0 else 1);
      consumed = not rate_limited;
      rate_limited = rate_limited;
    }

unfoldable pub decide : QuotaRequest → BTreeMap ℕ → QuotaProfile → QuotaDecision
unfolding decide_from quota_key
decide r counts profile = decide_from r profile (or_default (get (key_of r profile) counts))

-- `permitted`, as the first loop leaves it.
unfoldable pub permitted : List QuotaDecision → Bool
permitted = all λ d. not d.rate_limited

-- The second loop, where every scope permits: profiles and decisions side by side.
unfoldable pub consume :
    QuotaRequest → List QuotaProfile → List QuotaDecision → BTreeMap ℕ → BTreeMap ℕ
consume r [] decisions counts = counts
consume r (p ∷ ps) [] counts = counts
consume r (p ∷ ps) (d ∷ ds) counts =
    consume r ps ds
      (insert (key_of r p) (saturating_add (p.success_limit - d.remaining_before) 1) counts)

-- The other loop, where a scope denies.
unfoldable pub withhold : QuotaDecision → QuotaDecision
withhold d = record d { consumed = false; remaining_after = d.remaining_before }

unfoldable pub apply_quota : QuotaRequest → List QuotaProfile → OnRun (List QuotaDecision)
unfolding decide permitted consume withhold takes_requests
apply_quota r profiles run =
    let decisions = map (decide r run.quota_counts) profiles in
    if not (takes_requests run.status)
    then (err RunStateError.run_not_accepting_source_requests, run)
    else if permitted decisions
    then (ok decisions, record run { quota_counts = consume r profiles decisions run.quota_counts })
    else (ok (map withhold decisions), run)

unfoldable pub evaluate_quota :
    Platform → String → List QuotaProfile → QuotaRequest → Exec RunStateError (List QuotaDecision)
unfolding apply_quota with_run
evaluate_quota x run_id profiles r = with_run x run_id (apply_quota r profiles)
