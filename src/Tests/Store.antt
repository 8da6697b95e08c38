-- ===== src/Tests/Store.antt =====
-- A plan store with one plan, and the theorems about it.
use fqdn_forge.Base.{◌≡◌, refl, false, none, some, [], ◌∷◌, ok, err, arith}
use fqdn_forge.BTreeMap.{get, insert, remove}
use fqdn_forge.BTreeSet.{contains}
use fqdn_forge.Domain.{Host}
use fqdn_forge.Plan.Definition.{ExperimentPlan}
use fqdn_forge.Plan.Validation.{PlanTools}
use fqdn_forge.Plan.Canonical.{canonicalize_plan}
use fqdn_forge.Plan.Store.{PlanStore, PlanIo, conflict, create, update_if_revision, delete}
use fqdn_forge.Plan.Promise.{IsStored}
use fqdn_forge.Plan.Stored.{Step}
use fqdn_forge.Plan.Opening.{PlanDirectory, open_plans, Reach, Reach-IsStored}
use fqdn_forge.Plan.Revisions.{Updated, update_if_revision-eq-ok, lost_update, delete-err}
use fqdn_forge.Tests.Plans.{plan, ct}

abbrev pub submitted : ExperimentPlan
submitted = record plan {
  schema_version = "0.2";
  plan_id = "lab-1";
  target_domain = "Acme.test.";
  sources = record ct { id = "certs" } ∷ [];
  plan_digest = "";
}

abbrev pub stored : ExperimentPlan
stored = record submitted { target_domain = "acme.test"; plan_digest = "acme.test" }

-- The JSON of a plan is its name alone.
abbrev pub tools : PlanTools
tools = record {
  parse_host = λ t. some (Host.domain t);
  to_json = λ p. p.name;
  to_vec_pretty = λ p. ok p.name;
  from_slice = λ text. ok (record stored { name = text });
  stable_digest = λ c. c.target_domain;
}

canonicalized : canonicalize_plan tools submitted false ≡ ok stored
unfolding canonicalize_plan contains
canonicalized = refl

-- A directory with a plan and a file of another kind.
abbrev directory : PlanDirectory
directory = record {
  created = ok tt;
  runs_created = ok tt;
  entries = ok (
      ok (record {
        extension = some "txt";
        stem = some "notes";
        length = ok 5;
        contents = ok "hello";
      })
      ∷ ok (record {
        extension = some "json";
        stem = some "lab-1";
        length = ok 5;
        contents = ok "first";
      })
      ∷ []);
}

abbrev pub io : PlanIo
io = record { written = ok tt; renamed = ok tt; removed = ok tt }

abbrev pub empty_store : PlanStore
empty_store = record { plans = []; files = [] }

abbrev pub one_plan : PlanStore
one_plan = record { plans = ("lab-1", stored) ∷ []; files = ("lab-1", stored.name) ∷ [] }

created : create tools io submitted empty_store ≡ (ok stored, one_plan)
unfolding create canonicalize_plan contains get insert
created = refl

-- The name is changed twice, from the same revision.
abbrev renamed : ExperimentPlan
renamed = record submitted { name = "mine" }

-- The store of the directory.
abbrev first : PlanStore
first = record {
  plans = ("lab-1", record stored { name = "first" }) ∷ [];
  files = ("lab-1", "first") ∷ [];
}

Reach-IsStored_example :
    IsStored tools (update_if_revision tools io 9 "lab-1" renamed (some 1) first).1
unfolding open_plans canonicalize_plan contains insert
Reach-IsStored_example =
    Reach-IsStored tools (update_if_revision tools io 9 "lab-1" renamed (some 1) first).1 (
      Reach.step first (update_if_revision tools io 9 "lab-1" renamed (some 1) first).1
        (Reach.opened directory first refl) (Step.updated io 9 "lab-1" renamed (some 1)))

abbrev updated : ExperimentPlan
updated = record stored { name = "mine"; revision = 2; updated_at = 9 }

abbrev two_revisions : PlanStore
two_revisions = record { plans = ("lab-1", updated) ∷ []; files = ("lab-1", "mine") ∷ [] }

update_if_revision-eq-ok_example : Updated one_plan "lab-1" (some 1) 9 updated two_revisions
unfolding update_if_revision canonicalize_plan contains get insert
update_if_revision-eq-ok_example =
    update_if_revision-eq-ok tools io 9 "lab-1" renamed updated (some 1) one_plan two_revisions refl

lost_update_example :
    update_if_revision tools io 10 "lab-1" submitted (some 1) two_revisions
    ≡ (err (conflict "lab-1" 2 1), two_revisions)
unfolding update_if_revision canonicalize_plan contains get insert
lost_update_example =
    lost_update tools io io 9 10 "lab-1" renamed submitted updated 1 one_plan two_revisions refl
      (omega arith)

-- A file that cannot be removed.
delete-err_example :
    (get "lab-1" (record one_plan { plans = [] }).plans ≡ none)
    × ((record one_plan { plans = [] }).files ≡ one_plan.files)
unfolding delete get remove
delete-err_example =
    delete-err (record io { removed = err "denied" }) "lab-1" "denied" stored one_plan
      (record one_plan { plans = [] }) refl refl
