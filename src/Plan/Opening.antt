-- ===== src/Plan/Opening.antt =====
-- `PlanStore::open`: the plans of a directory, read and checked again.
use fqdn_forge.Base.{
  ℕ, String, Bool, ◌≡◌, sym, ap, ap₂, ◌∙◌, eq_iff, err-ne-ok, subst, true, inl, inr, Option, none,
  some, List, [], ◌∷◌, arith, Result, ok, err, ◌>>=◌, ◌>>◌, guard, map_err, >>=-eq-ok,
  map_err-eq-ok, ok_inj, leb, concat, str_eq, if◌then◌else◌, is_some_and, Bool-cases,
}
use fqdn_forge.BTreeMap.{BTreeMap, empty, get, insert}
use fqdn_forge.Plan.Definition.{ExperimentPlan}
use fqdn_forge.Plan.Checks.{safe_identifier}
use fqdn_forge.Plan.Validation.{PlanTools}
use fqdn_forge.Plan.Canonical.{canonicalize_plan}
use fqdn_forge.Plan.Accepted.{IsCanonical, canonicalize_plan-IsCanonical}
use fqdn_forge.Plan.Store.{PlanStore, max_plan_bytes, format_plan_issues}
use fqdn_forge.Plan.Promise.{
  AllCanonical, OnDisk, Holds, IsStored, insert-AllCanonical, insert-OnDisk,
}
use fqdn_forge.Plan.Stored.{Step, Step-IsStored}

-- An entry of the directory, with what its path and the calls on it answer.
pub record PlanFile : Type 0 where
  pub extension : Option String
  pub stem : Option String
  pub length : Result String ℕ
  pub contents : Result String String

-- The answers of the file system to `open`.
pub record PlanDirectory : Type 0 where
  pub created : Result String Unit
  pub runs_created : Result String Unit
  pub entries : Result String (List (Result String PlanFile))

-- `path.extension()` is `json`.
unfoldable pub is_json : PlanFile → Bool
is_json file = is_some_and file.extension (λ e. str_eq e "json")

abbrev or_invalid : Option String → Result String String
or_invalid none = err "PLAN_FILE_ID_INVALID: plan file has no UTF-8 identifier"
or_invalid (some stem) = ok stem

-- The last check on a plan that was read, and its insertion.
unfoldable pub insert_read :
    String → BTreeMap ExperimentPlan → ExperimentPlan → Result String (BTreeMap ExperimentPlan)
insert_read stem plans plan =
    guard (str_eq plan.plan_id stem) (
      concat
        ("PLAN_FILE_ID_MISMATCH: plan file " ∷ stem ∷ " contains plan_id " ∷ plan.plan_id ∷ []))
    >> ok (insert plan.plan_id plan plans)

unfoldable pub load_json :
    PlanTools → PlanFile → BTreeMap ExperimentPlan → Result String (BTreeMap ExperimentPlan)
unfolding canonicalize_plan insert_read safe_identifier
load_json x file plans = or_invalid file.stem >>= λ stem.
    guard (safe_identifier stem) "PLAN_FILE_ID_INVALID: plan file identifier is unsafe"
    >> (file.length >>= λ bytes.
        guard (leb bytes max_plan_bytes) "PLAN_TOO_LARGE: plan file exceeds the 1 MiB safety limit"
        >> (file.contents >>= λ contents. x.from_slice contents >>= λ plan.
            map_err format_plan_issues (canonicalize_plan x plan true) >>= λ canonical.
            insert_read stem plans canonical))

unfoldable pub load_file :
    PlanTools → PlanFile → BTreeMap ExperimentPlan → Result String (BTreeMap ExperimentPlan)
unfolding load_json is_json
load_file x file plans = if is_json file then load_json x file plans else ok plans

unfoldable pub load_files :
    PlanTools
    → List (Result String PlanFile)
    → BTreeMap ExperimentPlan
    → Result String (BTreeMap ExperimentPlan)
unfolding load_file
load_files x [] plans = ok plans
load_files x (entry ∷ rest) plans =
    entry >>= λ file. load_file x file plans >>= λ plans'. load_files x rest plans'

-- What a file named `stem` with the extension `json` adds to the texts of the directory.
abbrev pub put_text : Option String → Result String String → BTreeMap String → BTreeMap String
put_text (some stem) (ok text) files = insert stem text files
put_text (some stem) (err e) files = files
put_text none contents files = files

unfoldable pub put_file : PlanFile → BTreeMap String → BTreeMap String
unfolding is_json
put_file file files = if is_json file then put_text file.stem file.contents files else files

-- The texts of the files `<stem>.json` of the directory, whatever they hold.
unfoldable pub directory_files : List (Result String PlanFile) → BTreeMap String → BTreeMap String
unfolding put_file
directory_files [] files = files
directory_files (ok file ∷ rest) files = directory_files rest (put_file file files)
directory_files (err e ∷ rest) files = directory_files rest files

-- `open` only reads: the files are those of the directory.
unfoldable pub open_plans : PlanTools → PlanDirectory → Result String PlanStore
unfolding load_files directory_files
open_plans x d =
    d.created
    >> (d.runs_created
        >> (d.entries >>= λ entries. load_files x entries empty >>= λ plans.
            ok (record { plans = plans; files = directory_files entries empty })))

-- What a file that was read adds to the memory and what it adds to the texts agree.
record Read (x : PlanTools) (file : PlanFile) (plans after : BTreeMap ExperimentPlan) : Type 0 where
  plan : ExperimentPlan
  text : String
  is_canonical : IsCanonical x plan
  named : file.stem ≡ some plan.plan_id
  contents : file.contents ≡ ok text
  held : Holds x plan text
  added : insert plan.plan_id plan plans ≡ after

or_invalid-eq-ok : (o : Option String) (stem : String) → or_invalid o ≡ ok stem → o ≡ some stem
or_invalid-eq-ok none stem h = absurd (err-ne-ok h)
or_invalid-eq-ok (some t) stem h = ap some (ok_inj h)

load_json-Read :
    (x : PlanTools) (file : PlanFile) (plans after : BTreeMap ExperimentPlan)
    → load_json x file plans ≡ ok after
    → Read x file plans after
unfolding load_json insert_read
load_json-Read x file plans after h =
    let (stem, e0, h0) = >>=-eq-ok (or_invalid file.stem) _ h in
    let (u1, e1, h1) = >>=-eq-ok (guard (safe_identifier stem) _) _ h0 in
    let (bytes, e2, h2) = >>=-eq-ok file.length _ h1 in
    let (u3, e3, h3) = >>=-eq-ok (guard (leb bytes max_plan_bytes) _) _ h2 in
    let (text, e4, h4) = >>=-eq-ok file.contents _ h3 in
    let (raw, e5, h5) = >>=-eq-ok (x.from_slice text) _ h4 in
    let (c, e6, h6) = >>=-eq-ok (map_err format_plan_issues (canonicalize_plan x raw true)) _ h5 in
    let (u7, e7, h7) = >>=-eq-ok (guard (str_eq c.plan_id stem) _) _ h6 in
    let accepted : canonicalize_plan x raw true ≡ ok c = map_err-eq-ok format_plan_issues _ e6 in
    let id : c.plan_id ≡ stem = (eq_iff c.plan_id stem).0 (ground (arith, e7)) in
    record {
      plan = c;
      text = text;
      is_canonical = (canonicalize_plan-IsCanonical x raw c true accepted).0;
      named = or_invalid-eq-ok file.stem stem e0 ∙ ap some (sym id);
      contents = e4;
      held = Holds.parsed raw e5 accepted;
      added = ok_inj h7;
    }

-- What the loop keeps.
abbrev Loaded : PlanTools → BTreeMap ExperimentPlan → BTreeMap String → Type 0
Loaded x plans files = AllCanonical x plans × OnDisk x plans files

insert-Loaded :
    (x : PlanTools) (file : PlanFile) (plans after : BTreeMap ExperimentPlan)
    (files : BTreeMap String)
    → Loaded x plans files
    → Read x file plans after
    → Loaded x after (put_text file.stem file.contents files)
insert-Loaded x file plans after files (all, disk) r =
    let put : put_text file.stem file.contents files ≡ insert r.plan.plan_id r.text files =
      ap₂ (λ o c. put_text o c files) r.named r.contents in
    subst (Loaded x after) (sym put) (
      subst (λ m. Loaded x m (insert r.plan.plan_id r.text files)) r.added
        (
          insert-AllCanonical x r.plan plans r.is_canonical all,
          insert-OnDisk x r.plan.plan_id r.text r.plan plans files r.held disk,
        ))

load_file-Loaded :
    (x : PlanTools) (file : PlanFile) (plans after : BTreeMap ExperimentPlan)
    (files : BTreeMap String)
    → Loaded x plans files
    → load_file x file plans ≡ ok after
    → Loaded x after (put_file file files)
unfolding load_file put_file
load_file-Loaded x file plans after files l h = elim (Bool-cases (is_json file)) [
  | inl e ↦
      let done =
        insert-Loaded x file plans after files l
          (load_json-Read x file plans after (ground (arith, e, h))) in
      rw e done
  | inr e ↦
      let same : plans ≡ after = ground (arith, e, h) in rw e (subst (λ m. Loaded x m files) same l)
]

load_files-Loaded :
    (x : PlanTools) (entries : List (Result String PlanFile))
    (plans after : BTreeMap ExperimentPlan) (files : BTreeMap String)
    → Loaded x plans files
    → load_files x entries plans ≡ ok after
    → Loaded x after (directory_files entries files)
unfolding load_files directory_files
load_files-Loaded x [] plans after files l h = subst (λ m. Loaded x m files) (ok_inj h) l
load_files-Loaded x (err e ∷ rest) plans after files l h = absurd (err-ne-ok h)
load_files-Loaded x (ok file ∷ rest) plans after files l h =
    let (next, e1, h1) = >>=-eq-ok (load_file x file plans) _ h in
    load_files-Loaded x rest next after (put_file file files)
      (load_file-Loaded x file plans next files l e1) h1

open_plans-IsStored :
    (x : PlanTools) (d : PlanDirectory) (s : PlanStore) → open_plans x d ≡ ok s → IsStored x s
unfolding open_plans get
open_plans-IsStored x d s h =
    let (u0, e0, h0) = >>=-eq-ok d.created _ h in
    let (u1, e1, h1) = >>=-eq-ok d.runs_created _ h0 in
    let (entries, e2, h2) = >>=-eq-ok d.entries _ h1 in
    let (plans, e3, h3) = >>=-eq-ok (load_files x entries empty) _ h2 in
    let (all, disk) =
      load_files-Loaded x entries empty plans empty ((λ k p g. cc), λ k p g. absurd (cc g)) e3 in
    subst (IsStored x) (ok_inj h3) (record { plans = all; on_disk = disk })

-- A store reached from a directory by operations.
pub data Reach (x : PlanTools) : PlanStore → Type 0 where
  opened : (d : PlanDirectory) (s : PlanStore) → open_plans x d ≡ ok s → Reach x s
  step : (s s' : PlanStore) → Reach x s → Step x s s' → Reach x s'

-- In a store that was opened from a directory and changed by any operations, each plan in memory is
-- canonical, stands under its own identifier, and has a file of that name, whose text was printed for
-- the plan or is read as it by `open`. This holds whatever files the directory had and whatever the
-- file system answered.
pub Reach-IsStored : (x : PlanTools) (s : PlanStore) → Reach x s → IsStored x s
Reach-IsStored x _ (Reach.opened d s h) = open_plans-IsStored x d s h
Reach-IsStored x _ (Reach.step s s' r o) = Step-IsStored x s s' o (Reach-IsStored x s r)
