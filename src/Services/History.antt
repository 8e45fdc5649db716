-- ===== src/Services/History.antt =====
-- ripcord/services.py: the tables that validated requests can lead to. An operation reads the tables
-- at one reachable state and commits at another.
use ripcord.Prelude.{
  String, ◌≡◌, refl, ap, ◌∙◌, sym, true, false, not, none, some, arith, ◌==◌, is_empty, is_in,
  select, Bool-cases, inl, inr, if◌then◌else◌,
}
use mathlib.Core.Path.{subst}
use ripcord.Models.{Flag, loaded}
use ripcord.Schemas.Input.{FlagCreate, FlagUpdate}
use ripcord.Schemas.Validate.{validate_create, validate_update}
use ripcord.Services.Store.{FlagStore}
use ripcord.Services.Flags.{
  done, flag_from_input, effective_variants, effective_pins, effective_off, bad_off,
}
use ripcord.Services.Operations.{create, update, delete, check_update}
use ripcord.Services.Locking.{is_done-cases, update_done, update_failed}
use ripcord.Services.Removal.{create_done, delete_done}
use ripcord.Services.Consistent.{IsConsistent, loaded-IsConsistent, created-IsConsistent}
use ripcord.Services.Updated.{updated-IsConsistent}

module _ (db : FlagStore) where
  open db use {State, select_flag}

  -- The tables after any number of creations, updates and deletions.
  pub data Reachable (start : State) : State → Type 0 where
    begin : Reachable start start
    created :
        {now : State}
        → Reachable start now
        → (data' : FlagCreate) (actor : String) → validate_create data' ≡ none
        → Reachable start (create db now data' actor).1
    updates :
        {read now : State}
        → Reachable start read
        → Reachable start now
        → (key : String) (data' : FlagUpdate) (actor : String) → validate_update data' ≡ none
        → Reachable start (update db read now key data' actor).1
    deleted :
        {read now : State}
        → Reachable start read
        → Reachable start now
        → (key actor : String) → Reachable start (delete db read now key actor).1

  abbrev pub AllConsistent : State → Type 0
  AllConsistent s = (k : String) (flag : Flag) → select_flag s k ≡ some flag → IsConsistent flag

  -- A table with one row changed.
  replace_row :
      (s t : State) (key : String) (row : Flag)
      → ((k : String) → select_flag t k ≡ (if key == k then some row else select_flag s k))
      → IsConsistent row
      → AllConsistent s
      → AllConsistent t
  replace_row s t key row rows c all k flag h = elim (Bool-cases (key == k)) [
    | inl this ↦ subst IsConsistent (some_injective (sym (rows k ∙ rw this refl) ∙ h)) c
    | inr other ↦ all k flag (sym (rows k ∙ rw other refl) ∙ h)
  ]
    where
      some_injective : {a b : Flag} → some a ≡ some b → a ≡ b
      some_injective {a} e = ap (λ o. elim o [ none ↦ a | some x ↦ x ]) e

  check_update-checks :
      (now : State) (key : String) (was : Flag) (data' : FlagUpdate) (actor : String) (flag : Flag)
      → (check_update db now key was data' actor).0 ≡ done flag
      → (is_empty
            (select (λ v. not (is_in v (effective_variants was data'))) (effective_pins was data'))
          ≡ true)
        × (bad_off (effective_off was data') (effective_variants was data') ≡ false)
  unfolding check_update
  check_update-checks now key was data' actor flag h = (ground arith, ground arith)

  update-checks :
      (read now : State) (key : String) (data' : FlagUpdate) (actor : String) (was flag : Flag)
      → select_flag read key ≡ some was
      → (update db read now key data' actor).0 ≡ done flag
      → (check_update db now key was data' actor).0 ≡ done flag
  unfolding update
  update-checks read now key data' actor was flag e h = ground arith

  create-AllConsistent :
      (now : State) (data' : FlagCreate) (actor : String)
      → validate_create data' ≡ none
      → AllConsistent now
      → AllConsistent (create db now data' actor).1
  create-AllConsistent now data' actor valid all = elim (create_done db now data' actor) [
    | inl (_, same) ↦ subst AllConsistent (sym same) all
    | inr (_, _, rows, _) ↦
        replace_row now (create db now data' actor).1 data'.key (loaded (flag_from_input data'))
          rows (loaded-IsConsistent (flag_from_input data') (created-IsConsistent data' valid)) all
  ]

  update-AllConsistent :
      (read now : State) (key : String) (data' : FlagUpdate) (actor : String)
      → validate_update data' ≡ none
      → AllConsistent read
      → AllConsistent now
      → AllConsistent (update db read now key data' actor).1
  update-AllConsistent read now key data' actor valid before all =
      elim (is_done-cases (update db read now key data' actor).0) [
        | inr failed ↦
            subst AllConsistent (sym (update_failed db read now key data' actor failed)) all
        | inl (flag, h) ↦
            let u = update_done db read now key data' actor flag h in
            let (known, good) =
              check_update-checks now key u.was data' actor flag
                (update-checks read now key data' actor u.was flag u.read_it h) in
            let c : IsConsistent flag =
              subst IsConsistent (sym u.result)
                (updated-IsConsistent u.was data' (before key u.was u.read_it) valid known good) in
            replace_row now (update db read now key data' actor).1 key (loaded flag) u.rows
              (loaded-IsConsistent flag c) all
      ]

  delete-AllConsistent :
      (read now : State) (key actor : String)
      → AllConsistent now
      → AllConsistent (delete db read now key actor).1
  delete-AllConsistent read now key actor all = elim (delete_done db read now key actor) [
    | inr (_, same) ↦ subst AllConsistent (sym same) all
    | inl (_, d) ↦ λ k flag h. elim (Bool-cases (key == k)) [
      | inl this ↦ absurd (ground (arith, d.rows k))
      | inr other ↦ all k flag (sym (d.rows k ∙ rw other refl) ∙ h)
    ]
  ]

  -- Every row of a table that validated requests have led to from an empty one, however they
  -- interleave, has distinct variant keys, weights that sum to 100 or no variants, rules and an off
  -- variant that name its variants or nothing, a percentage of at most 100, and a key that is not the
  -- cache's marker.
  pub Reachable-IsConsistent :
      (start s : State) (key : String) (flag : Flag)
      → ((k : String) → select_flag start k ≡ none)
      → Reachable start s
      → select_flag s key ≡ some flag
      → IsConsistent flag
  Reachable-IsConsistent start s key flag empty r = Reachable-AllConsistent r key flag
    where
      Reachable-AllConsistent : {s : State} → Reachable start s → AllConsistent s
      Reachable-AllConsistent begin k f h = absurd (cc (empty k, h))
      Reachable-AllConsistent (created {now} r data' actor valid) k f h =
          create-AllConsistent now data' actor valid (Reachable-AllConsistent r) k f h
      Reachable-AllConsistent (updates {read} {now} p r key data' actor valid) k f h =
          update-AllConsistent read now key data' actor valid (Reachable-AllConsistent p)
            (Reachable-AllConsistent r) k f h
      Reachable-AllConsistent (deleted {read} {now} p r key actor) k f h =
          delete-AllConsistent read now key actor (Reachable-AllConsistent r) k f h
