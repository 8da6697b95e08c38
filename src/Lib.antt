-- ===== src/Lib.antt =====
-- fqdn-forge: a local laboratory that serves scripted data sources to a collector of domain names
-- and judges what the collector submits.
--
-- The program. `crates/lab-core` is the core. `LabState` (state.rs) keeps the runs: the server asks it
-- for the next reply of an endpoint, for the next step of a fault script and for a quota decision,
-- and records each request in the audit of the run; an external collector submits its findings once,
-- and the payload is frozen; then `judge_run` (judge.rs) compares what was collected and what was
-- audited with the truth and the assertions of the scenario (model.rs) and sets the report.
-- `crates/lab-server` carries these operations over HTTP and proxies, and plans (plan.rs) describe
-- temporary laboratories of a user's own.
--
-- Which file models what.
--   Base, BTreeMap, BTreeSet   what the code uses of the standard library: tests, iterators, texts,
--                     `BTreeMap<String, V>` as an association list that `insert` keeps rising (laws of
--                     lookup under insert, remove and a write through `get_mut`), `BTreeSet<String>`.
--                     BTreeMap/Order has the facts on rising lists of keys.
--   Model             the structs and enums of crates/lab-core/src/model.rs that runs and the judge
--                     read: Scenario, Collector, Truth, Audit, Report.
--   Domain            crates/lab-core/src/domain.rs. Names and Scope prove.
--   Plan              crates/lab-core/src/plan.rs. Settings, Definition, Run: the types. Checks and
--                     Validation: validate_plan_fields and what it calls. Canonical: canonicalize_plan and
--                     validate_plan. Store: the operations of PlanStore that change it. Opening:
--                     PlanStore::open. Simulation: one source of simulate_sources with its loop over the
--                     pages. Execution: the rest of simulate_sources, plan_truth, the records of a page
--                     and the texts of the audit. Report: execute_plan_with_mode. The other files of
--                     Plan prove.
--   Lab               crates/lab-core/src/state.rs. State: `MutableLabState` and what it holds. Exec:
--                     `validate_run_id` and the lookup that every operation begins with. Requests:
--                     claim_response_index, matched_request_count, record_request,
--                     set_response_metrics. Script: claim_fault_script_step. Quota: evaluate_quota.
--                     Lifecycle: create_run_with_seed, activate, session, cancel. Submission:
--                     reset_and_rotate, set_report, freeze_submission, delete. Control: the control
--                     audit, the lists, resource_summary. Step: one operation as a step, and the
--                     states reachable by steps. Capability: plan_run_access and
--                     authorize_plan_source. Faults: consume_plan_fault. PlanRuns: the registration,
--                     cancellation and audit of plan runs. Invalidation: invalidate_plan_runtimes.
--                     PlanShell: run_plan_with_mode, replay_plan_run and delete_plan, which use the plan
--                     store and the runs. The other files of Lab prove.
--   Judge             crates/lab-core/src/judge.rs. Input: JudgeInput. Status: derive_run_status and the
--                     comparison of source statuses. Checks: the evidence, filter, request, network,
--                     quota and transport checks. Verdict: the assertions, the failures and the status of
--                     the report. Reports: the summaries of the audit. The other files of Judge prove.
--   Egress            crates/lab-core/src/egress.rs, the guard of the reference runner; the crate url is the
--                     parameter `Urls`.
--   Runner            record_candidate of crates/lab-core/src/runner.rs, with the loop over the records of an
--                     endpoint. Scoped proves.
--   Baseline          the baselines of crates/lab-core/src/v14.rs. Matched proves.
--   Tests             instances at concrete inputs.
--
-- Correspondence. An operation of `LabState` takes the lock for its whole body, so it is one function
-- from a state to a result and a state, and an interleaving of threads is a sequence of operations.
-- `activate` takes the lock twice and is two steps. A clock reading and the identifiers that
-- `Uuid::new_v4` draws are arguments; a new run's identifier is assumed to be unused where a
-- theorem needs it, which `Fresh` of Lab/Step says. `Uuid::parse_str` and `serde_json::to_string` are the
-- fields of the parameter `Platform`, and `>=` of f64 is the parameter `Floats`. Numbers of u64 and usize
-- are natural numbers; `saturating_add` is written out at 2 ^ 64 - 1, and where the code adds with
-- `+` the file says why the sum stays below the bound. Loops over lists are structural, so there is no fuel.
--
-- The plan store. What `fs` and `read_dir` answer is the argument `PlanIo` or `PlanDirectory` of an
-- operation, so the theorems hold for every failure of them; the disk is the texts of the files
-- `<stem>.json`, those of the directory when the store is opened and those that are written afterwards.
-- `Host::parse`, the printer and the reader of a plan's JSON and its hash are the fields of `PlanTools`; the new identifier, the time, the printed date and the digests of a
-- run are those of `Execution`. The loop over the pages of a source is structural in the pages that are
-- left. The sums of a report's counters are those of natural numbers: validation keeps a plan to 32 sources
-- of 1000 pages and the waits to a day, far below the bound of u64.
--
-- Not modelled: `loaded_for_run`, which reads scenario files; the files of plan runs, so that the answer to
-- `save_run` and `load_run` is an argument where the state depends on it; the report's semantic fingerprint,
-- which hashes its JSON; validation of scenarios, the rest of the reference runner; the campaigns, the
-- coverage and the soak runs of v14.rs; the HTTP server, the command line and the console, which are input
-- and output.
pub mod Base
pub mod BTreeMap
pub mod BTreeSet
pub mod Model
pub mod Plan
pub mod Lab
pub mod Judge
pub mod Egress
pub mod Domain
pub mod Runner
pub mod Baseline
pub mod Tests
