-- ===== src/Services/Refinement.antt =====
-- ripcord/services.py beside an abstract registry, which knows the version of each flag and who changed
-- what, and in which every change is atomic.
use mathlib.Core.Path.{subst, fun_ext}
use ripcord.Prelude.{
  ℕ, ◌+◌, String, ◌≡◌, refl, ap, ap₂, ◌∙◌, sym, Option, none, some, List, ◌∷◌, map, ◌==◌, inl, inr,
  Bool-cases, if◌then◌else◌,
}
use ripcord.Models.{Flag, AuditLog, loaded}
use ripcord.Schemas.Input.{FlagCreate, FlagUpdate}
use ripcord.Services.Store.{FlagStore}
use ripcord.Services.Flags.{flag_from_input, updated, created_entry, updated_entry, deleted_entry}
use ripcord.Services.Operations.{create, update, delete}
use ripcord.Services.Keyed.{map_option}
use ripcord.Services.Locking.{is_done-cases, update_done, update_failed}
use ripcord.Services.Removal.{create_done, delete_done}
use ripcord.Services.History.{Reachable, begin, created, updates, deleted}

-- The key, the action and the actor of a change.
abbrev pub Record : Type 0
Record = String × String × String

pub record Registry : Type 0 where
  pub versions : String → Option ℕ
  pub log : List Record

-- One flag set, and the change logged.
abbrev pub set : Registry → String → Option ℕ → String → String → Registry
set r key version action actor = record {
  versions = λ k. if key == k then version else r.versions k;
  log = (key, action, actor) ∷ r.log;
}

-- A free key is added at version 1; a flag is bumped to its next version; a flag is removed.
pub data Move (r : Registry) : Registry → Type 0 where
  add : (key actor : String) → r.versions key ≡ none → Move r (set r key (some 1) "created" actor)
  bump :
      (key actor : String) (n : ℕ)
      → r.versions key ≡ some n
      → Move r (set r key (some (n + 1)) "updated" actor)
  remove :
      (key actor : String) (n : ℕ)
      → r.versions key ≡ some n
      → Move r (set r key none "deleted" actor)

pub data Moves (start : Registry) : Registry → Type 0 where
  still : Moves start start
  then_move : {r r' : Registry} → Moves start r → Move r r' → Moves start r'

abbrev version_of : Flag → ℕ
version_of flag = flag.version

abbrev record_of : AuditLog → Record
record_of e = (e.flag_key, e.action, e.actor)

module _ (db : FlagStore) where
  open db use {State, select_flag, audits, delete_flag, delete_guard, select-delete, audits-delete}

  -- What the registry knows of the tables.
  abbrev pub view : State → Registry
  view s = record {
    versions = λ k. map_option (λ flag. flag.version) (select_flag s k);
    log = map (λ e. (e.flag_key, e.action, e.actor)) (audits s);
  }

  view-set :
      (now t : State) (key action actor : String) (row : Option Flag) (entry : AuditLog)
      → record_of entry ≡ (key, action, actor)
      → ((k : String) → select_flag t k ≡ (if key == k then row else select_flag now k))
      → audits t ≡ entry ∷ audits now
      → set (view now) key (map_option (λ flag. flag.version) row) action actor ≡ view t
  view-set now t key action actor row entry named rows logged =
      let versions : (k : String)
          → (if key == k
              then map_option (λ flag. flag.version) row
              else map_option (λ flag. flag.version) (select_flag now k))
            ≡ map_option (λ flag. flag.version) (select_flag t k) =
        λ k. elim (Bool-cases (key == k)) [
          | inl this ↦ rw (rows k, this) refl
          | inr other ↦ rw (rows k, other) refl
        ] in
      let log : (key, action, actor) ∷ map record_of (audits now) ≡ map record_of (audits t) =
        ap (λ e. e ∷ map record_of (audits now)) (sym named) ∙ sym (ap (map record_of) logged) in
      ap₂ (λ v l. record { versions = v; log = l }) (fun_ext versions) log

  create-Moves :
      (start : Registry) (now : State) (data' : FlagCreate) (actor : String)
      → Moves start (view now)
      → Moves start (view (create db now data' actor).1)
  unfolding created_entry loaded flag_from_input
  create-Moves start now data' actor before = elim (create_done db now data' actor) [
    | inl (_, same) ↦ subst (λ s. Moves start (view s)) (sym same) before
    | inr (_, free, rows, logged) ↦ then_move before (
        subst (Move (view now))
          (view-set now (create db now data' actor).1 data'.key "created" actor
            (some (loaded (flag_from_input data'))) (created_entry data' actor) refl rows logged)
          (add data'.key actor (ap (map_option version_of) free)))
  ]

  update-Moves :
      (start : Registry) (read now : State) (key : String) (data' : FlagUpdate) (actor : String)
      → Moves start (view now)
      → Moves start (view (update db read now key data' actor).1)
  unfolding updated_entry loaded updated
  update-Moves start read now key data' actor before =
      elim (is_done-cases (update db read now key data' actor).0) [
        | inr failed ↦
            subst (λ s. Moves start (view s))
              (sym (update_failed db read now key data' actor failed)) before
        | inl (flag, h) ↦
            let u = update_done db read now key data' actor flag h in
            then_move before (
              subst (Move (view now))
                (view-set now (update db read now key data' actor).1 key "updated" actor
                  (some (loaded flag)) (updated_entry key u.was data' actor) refl (u.rows) (u.log))
                (subst (λ n. Move (view now) (set (view now) key (some n) "updated" actor))
                  (ap (λ n. n + 1) (u.current_version ∙ sym u.read_version)
                    ∙ sym (ap version_of u.result))
                  (bump key actor u.current.version (ap (map_option version_of) u.found))))
      ]

  delete-Moves :
      (start : Registry) (read now : State) (key actor : String)
      → Moves start (view now)
      → Moves start (view (delete db read now key actor).1)
  unfolding deleted_entry
  delete-Moves start read now key actor before = elim (delete_done db read now key actor) [
    | inr (_, same) ↦ subst (λ s. Moves start (view s)) (sym same) before
    | inl (_, d) ↦ then_move before (
        subst (Move (view now))
          (view-set now (delete db read now key actor).1 key "deleted" actor none
            (deleted_entry key actor) refl (d.rows) (d.log))
          (remove key actor d.current.version (ap (map_option version_of) d.found)))
  ]

  -- Every history of the tables, in which updates and deletions act on rows that others may have
  -- changed since they were read, is a history of the registry: a sequence of atomic moves, each
  -- made against the version of its moment and logged once, leads from its view of the first
  -- tables to its view of the last.
  pub Reachable-Moves : (start s : State) → Reachable db start s → Moves (view start) (view s)
  Reachable-Moves start s begin = still
  Reachable-Moves start s (created {now} r data' actor valid) =
      create-Moves (view start) now data' actor (Reachable-Moves start now r)
  Reachable-Moves start s (updates {read} {now} p r key data' actor valid) =
      update-Moves (view start) read now key data' actor (Reachable-Moves start now r)
  Reachable-Moves start s (deleted {read} {now} p r key actor) =
      delete-Moves (view start) read now key actor (Reachable-Moves start now r)
