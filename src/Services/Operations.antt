-- ===== src/Services/Operations.antt =====
-- ripcord/services.py: `create_flag`, `update_flag`, `delete_flag`, `evaluate_flag`, `list_audit`,
-- `compute_stats`.
--
-- An operation reads the table at one state and commits at another, `now`: what other sessions
-- commit in between is any difference of the two. The flag that comes back is the session's own
-- object, its rules in the request's order; the read after the commit is taken to find it. An INSERT
-- raises no StaleDataError and a DELETE no IntegrityError: those arms are there for the type.
use ripcord.Prelude.{
  ℕ, ◌-◌, String, Bool, false, not, Option, none, some, List, ◌==◌, eqb, is_empty, is_in, length,
  select, take, if◌then◌else◌,
}
use ripcord.Json.{null}
use ripcord.Engine.Spec.{Evaluation}
use ripcord.Engine.Rules.{Context}
use ripcord.Engine.Evaluate.{evaluate}
use ripcord.Models.{Flag, AuditLog}
use ripcord.Schemas.Input.{FlagCreate, FlagUpdate}
use ripcord.Services.Store.{landed, stale, integrity, FlagStore}
use ripcord.Services.Flags.{
  Outcome, done, duplicate_flag, flag_not_found, version_conflict, unknown_pins, unknown_off,
  constraint_violated, flag_from_input, created_entry, effective_variants, effective_pins,
  effective_off, bad_off, updated, updated_entry, deleted_entry, to_spec, given_or,
}

abbrev pub not_found_evaluation : Evaluation
not_found_evaluation = record {
  enabled = false;
  reason = "flag_not_found";
  variant = none;
  value = null;
}

module _ (db : FlagStore) where
  open db use {State, select_flag, select_all, audits, insert_flag, update_flag, delete_flag}

  unfoldable pub create : State → FlagCreate → String → Outcome Flag × State
  create now data' actor =
      elim (insert_flag now (flag_from_input data') (created_entry data' actor)) [
        | landed t ↦ (done (flag_from_input data'), t)
        | stale ↦ (duplicate_flag, now)
        | integrity ↦ (duplicate_flag, now)
      ]

  -- The commit of an update, and its two handlers.
  unfoldable pub commit_update : State → String → Flag → FlagUpdate → String → Outcome Flag × State
  commit_update now key flag data' actor =
      elim (update_flag now flag.version (updated flag data')
        (updated_entry key flag data' actor)) [
          | landed t ↦ (done (updated flag data'), t)
          | stale ↦ (version_conflict data'.version none, now)
          | integrity ↦ (constraint_violated, now)
        ]

  -- The checks of an update against the flag that was read, and its commit.
  unfoldable pub check_update : State → String → Flag → FlagUpdate → String → Outcome Flag × State
  check_update now key flag data' actor =
      let keys = effective_variants flag data' in
      let unknown = select (λ v. not (is_in v keys)) (effective_pins flag data') in
      if not (eqb flag.version data'.version)
      then (version_conflict data'.version (some flag.version), now)
      else if not (is_empty unknown)
      then (unknown_pins unknown, now)
      else if bad_off (effective_off flag data') keys
      then (unknown_off (given_or (effective_off flag data') ""), now)
      else commit_update now key flag data' actor

  unfoldable pub update : State → State → String → FlagUpdate → String → Outcome Flag × State
  update read now key data' actor = elim (select_flag read key) [
    | none ↦ (flag_not_found, now)
    | some flag ↦ check_update now key flag data' actor
  ]

  -- `delete_flag`: the answer is False for a flag that is absent.
  unfoldable pub delete : State → State → String → String → Outcome Bool × State
  delete read now key actor = elim (select_flag read key) [
    | none ↦ (done false, now)
    | some flag ↦ elim (delete_flag now flag.version key (deleted_entry key actor)) [
      | landed t ↦ (done Bool.true, t)
      | stale ↦ (version_conflict flag.version none, now)
      | integrity ↦ (constraint_violated, now)
    ]
  ]

  -- `evaluate_flag`
  unfoldable pub evaluate_flag :
      (String → String) → State → String → String → Option Context → Evaluation
  evaluate_flag md5 s key user_id context = elim (select_flag s key) [
    | none ↦ not_found_evaluation
    | some flag ↦ evaluate md5 (to_spec flag) user_id context
  ]

  unfoldable pub list_audit : State → Option String → ℕ → List AuditLog
  list_audit s none limit = take limit (audits s)
  list_audit s (some key) limit = take limit (select (λ e. e.flag_key == key) (audits s))

  -- Total, enabled and disabled flags.
  unfoldable pub compute_stats : State → ℕ × ℕ × ℕ
  compute_stats s =
      let flags = select_all s in
      let enabled = length (select (λ f. f.enabled) flags) in
      (length flags, enabled, length flags - enabled)
