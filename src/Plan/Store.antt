-- ===== src/Plan/Store.antt =====
-- The operations of `PlanStore` (crates/lab-core/src/plan.rs) that change the stored plans, the
-- shell around them in `LabState` being one call each.
use Prim.Native.String.{len}
use fqdn_forge.Base.{
  ℕ, ◌*◌, String, true, false, not, Option, none, some, List, [], ◌∷◌, map, Result, ok, err, ◌>>=◌,
  ◌>>◌, guard, map_err, ◌==◌, leb, concat, decimal, if◌then◌else◌, saturating_add,
}
use fqdn_forge.BTreeMap.{BTreeMap, get, insert, remove, contains_key}
use fqdn_forge.Model.Values.{DateTime}
use fqdn_forge.Plan.Definition.{PlanStatus, ExperimentPlan}
use fqdn_forge.Plan.Checks.{Issues, safe_identifier}
use fqdn_forge.Plan.Validation.{PlanTools}
use fqdn_forge.Plan.Canonical.{canonicalize_plan}

-- `MAX_PLAN_BYTES`.
abbrev pub max_plan_bytes : ℕ
max_plan_bytes = 1024 * 1024

-- The plans in memory, and the text of each file `<plan_id>.json` of the directory.
pub record PlanStore : Type 0 where
  pub plans : BTreeMap ExperimentPlan
  pub files : BTreeMap String

-- What the file system answers in one operation: the results of the write, the rename and the
-- removal.
pub record PlanIo : Type 0 where
  pub written : Result String Unit
  pub renamed : Result String Unit
  pub removed : Result String Unit

-- An operation that fails leaves the store as it was.
abbrev pub commit :
    {A : Type 0} → PlanStore → Result String (A × PlanStore) → Result String A × PlanStore
commit s (ok (a, s')) = (ok a, s')
commit s (err e) = (err e, s)

abbrev separated : List String → List String
separated [] = []
separated (t ∷ []) = t ∷ []
separated (t ∷ ts) = t ∷ "; " ∷ separated ts

abbrev pub format_plan_issues : Issues → String
format_plan_issues issues = concat (
    separated
      (map (λ issue. concat (issue.code ∷ " " ∷ issue.field ∷ ": " ∷ issue.message ∷ [])) issues))

unfoldable pub canonical : PlanTools → ExperimentPlan → Result String ExperimentPlan
unfolding canonicalize_plan
canonical x plan = map_err format_plan_issues (canonicalize_plan x plan false)

-- `plan_file`, up to the path.
unfoldable pub plan_file : String → Result String Unit
unfolding safe_identifier
plan_file plan_id = guard (safe_identifier plan_id) "PLAN_ID_INVALID: unsafe plan id"

unfoldable pub write_plan_file :
    PlanTools → PlanIo → ExperimentPlan → BTreeMap String → Result String (BTreeMap String)
unfolding plan_file
write_plan_file x io plan files =
    plan_file plan.plan_id
    >> (x.to_vec_pretty plan >>= λ bytes.
        guard (leb (len bytes) max_plan_bytes) "PLAN_TOO_LARGE: plan exceeds the 1 MiB safety limit"
        >> (io.written >> (io.renamed >> ok (insert plan.plan_id bytes files))))

-- The file first, then the map.
unfoldable pub save :
    PlanTools
    → PlanIo
    → String
    → ExperimentPlan
    → PlanStore
    → Result String (ExperimentPlan × PlanStore)
unfolding write_plan_file
save x io plan_id plan s = write_plan_file x io plan s.files >>= λ files.
    ok (plan, record { plans = insert plan_id plan s.plans; files = files })

abbrev pub already_exists : String → String
already_exists plan_id = concat ("PLAN_ALREADY_EXISTS: plan " ∷ plan_id ∷ " already exists" ∷ [])

abbrev pub not_found : String → String
not_found plan_id = concat ("PLAN_NOT_FOUND: plan " ∷ plan_id ∷ " does not exist" ∷ [])

-- The last steps of `create` and `import`.
unfoldable pub add_new :
    PlanTools → PlanIo → PlanStore → ExperimentPlan → Result String (ExperimentPlan × PlanStore)
unfolding save
add_new x io s plan =
    guard (not (contains_key plan.plan_id s.plans)) (already_exists plan.plan_id)
    >> save x io plan.plan_id plan s

unfoldable pub create :
    PlanTools → PlanIo → ExperimentPlan → PlanStore → Result String ExperimentPlan × PlanStore
unfolding canonical add_new
create x io plan s = commit s (canonical x plan >>= add_new x io s)

unfoldable pub try_import :
    PlanTools → PlanIo → ExperimentPlan → PlanStore → Result String (ExperimentPlan × PlanStore)
unfolding canonicalize_plan add_new
try_import x io plan s =
    map_err format_plan_issues (canonicalize_plan x plan true) >>= add_new x io s

unfoldable pub import :
    PlanTools → PlanIo → ExperimentPlan → PlanStore → Result String ExperimentPlan × PlanStore
unfolding try_import
import x io plan s = commit s (try_import x io plan s)

abbrev pub found : String → Option ExperimentPlan → Result String ExperimentPlan
found plan_id none = err (not_found plan_id)
found plan_id (some plan) = ok plan

-- The plan that an update submits, with what the store decides.
unfoldable pub revised : String → ExperimentPlan → DateTime → ExperimentPlan → ExperimentPlan
revised plan_id prior now plan = record plan {
  plan_id = plan_id;
  created_at = prior.created_at;
  revision = saturating_add prior.revision 1;
  updated_at = now;
}

abbrev pub conflict : String → ℕ → ℕ → String
conflict plan_id revision expected = concat (
    "PLAN_REVISION_CONFLICT: plan "
    ∷ plan_id
    ∷ " is revision "
    ∷ decimal revision
    ∷ ", not "
    ∷ decimal expected
    ∷ [])

-- The revision that the caller last saw, if it names one, is the stored one.
abbrev pub check_revision : String → Option ℕ → ℕ → Result String Unit
check_revision plan_id none revision = ok tt
check_revision plan_id (some expected) revision =
    guard (revision == expected) (conflict plan_id revision expected)

unfoldable pub try_update :
    PlanTools
    → PlanIo
    → DateTime
    → String
    → ExperimentPlan
    → Option ℕ
    → PlanStore
    → Result String (ExperimentPlan × PlanStore)
unfolding canonical save revised
try_update x io now plan_id plan expected s = found plan_id (get plan_id s.plans) >>= λ prior.
    check_revision plan_id expected prior.revision
    >> (canonical x (revised plan_id prior now plan) >>= λ c. save x io plan_id c s)

unfoldable pub update_if_revision :
    PlanTools
    → PlanIo
    → DateTime
    → String
    → ExperimentPlan
    → Option ℕ
    → PlanStore
    → Result String ExperimentPlan × PlanStore
unfolding try_update
update_if_revision x io now plan_id plan expected s =
    commit s (try_update x io now plan_id plan expected s)

unfoldable pub update :
    PlanTools
    → PlanIo
    → DateTime
    → String
    → ExperimentPlan
    → PlanStore
    → Result String ExperimentPlan × PlanStore
unfolding update_if_revision
update x io now plan_id plan s = update_if_revision x io now plan_id plan none s

unfoldable pub as_archived : DateTime → ExperimentPlan → ExperimentPlan
as_archived now plan = record plan {
  status = PlanStatus.archived;
  revision = saturating_add plan.revision 1;
  updated_at = now;
}

unfoldable pub try_archive :
    PlanTools → PlanIo → DateTime → String → PlanStore → Result String (ExperimentPlan × PlanStore)
unfolding canonical save as_archived
try_archive x io now plan_id s = found plan_id (get plan_id s.plans) >>= λ plan.
    canonical x (as_archived now plan) >>= λ c. save x io plan_id c s

unfoldable pub archive :
    PlanTools → PlanIo → DateTime → String → PlanStore → Result String ExperimentPlan × PlanStore
unfolding try_archive
archive x io now plan_id s = commit s (try_archive x io now plan_id s)

-- `path.exists()` and the removal of the file.
unfoldable pub remove_file : PlanIo → String → BTreeMap String → Result String (BTreeMap String)
remove_file io plan_id files =
    if contains_key plan_id files then (io.removed >> ok (remove plan_id files)) else ok files

abbrev pub after_removal :
    PlanStore → Result String (BTreeMap String) → Result String Unit × PlanStore
after_removal s (ok files) = (ok tt, record s { files = files })
after_removal s (err e) = (err e, s)

-- The plan leaves the map before its file is removed.
unfoldable pub delete : PlanIo → String → PlanStore → Result String Unit × PlanStore
unfolding remove_file plan_file
delete io plan_id s =
    if contains_key plan_id s.plans
    then after_removal (record s { plans = remove plan_id s.plans })
        (plan_file plan_id >> remove_file io plan_id s.files)
    else (err (not_found plan_id), s)
