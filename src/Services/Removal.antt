-- ===== src/Services/Removal.antt =====
-- ripcord/services.py: what `create_flag` and `delete_flag` leave of the tables.
use ripcord.Prelude.{
  String, ◌≡◌, ◌≢◌, refl, true, none, some, ◌∷◌, arith, ◌==◌, Option-cases, inl, inr, ◌⊎◌,
  if◌then◌else◌,
}
use ripcord.Models.{Flag, loaded}
use ripcord.Schemas.Input.{FlagCreate}
use ripcord.Services.Store.{FlagStore}
use ripcord.Services.Flags.{done, duplicate_flag, flag_from_input, created_entry, deleted_entry}
use ripcord.Services.Operations.{create, delete}
use ripcord.Services.Locking.{Commit-cases}

module _ (db : FlagStore) where
  open db use {
    State, select_flag, audits, insert_flag, update_flag, delete_flag, select-key, select-insert,
    insert_unique, audits-insert, select-update, update_guard, audits-update, select-delete,
    delete_guard, audits-delete,
  }

  -- Creating a flag succeeds only if its key was free; it then leaves the new row and one audit
  -- entry, and every other flag as it was. A failure changes nothing.
  pub create_done :
      (now : State) (data' : FlagCreate) (actor : String)
      → ((create db now data' actor).0 ≡ duplicate_flag) × ((create db now data' actor).1 ≡ now)
        ⊎ (((create db now data' actor).0 ≡ done (flag_from_input data'))
            × (select_flag now data'.key ≡ none)
            × ((k : String)
                → select_flag (create db now data' actor).1 k ≡ (
                    if data'.key == k
                    then some (loaded (flag_from_input data'))
                    else select_flag now k))
            × (audits (create db now data' actor).1 ≡ created_entry data' actor ∷ audits now))
  unfolding create flag_from_input
  create_done now data' actor =
      elim (Commit-cases (insert_flag now (flag_from_input data') (created_entry data' actor))) [
        | inr other ↦ inl (ground arith, ground arith)
        | inl (t, e) ↦
            let flag = flag_from_input data' in
            let entry = created_entry data' actor in
            let state : (create db now data' actor).1 ≡ t = ground arith in
            inr (
              ground arith,
              insert_unique now t flag entry e,
              rw state (λ k. select-insert now t flag entry k e),
              rw state (audits-insert now t flag entry e),
            )
      ]

  -- What a deletion that removes a flag did: it had read a row of the version that its commit found,
  -- and it leaves the table without the flag and one more audit entry, which names it.
  pub record IsDeleted (read now t : State) (key actor : String) : Type 0 where
    pub was : Flag
    pub read_it : select_flag read key ≡ some was
    pub current : Flag
    pub found : select_flag now key ≡ some current
    pub same_version : current.version ≡ was.version
    pub rows : (k : String) → select_flag t k ≡ (if key == k then none else select_flag now k)
    pub log : audits t ≡ deleted_entry key actor ∷ audits now
    pub names :
        ((deleted_entry key actor).flag_key ≡ key)
        × ((deleted_entry key actor).action ≡ "deleted")
        × ((deleted_entry key actor).actor ≡ actor)

  -- A deletion answers that it removed the flag exactly when it did, and then the row at its commit
  -- had the version that it had read, the flag is gone, every other flag is as it was, and one audit
  -- entry, which names the flag, the action and the actor, is added. With any other answer, for a
  -- flag that is absent or was changed since it was read, nothing changes.
  pub delete_done :
      (read now : State) (key actor : String)
      → (((delete db read now key actor).0 ≡ done true)
          × IsDeleted read now (delete db read now key actor).1 key actor)
        ⊎ (((delete db read now key actor).0 ≢ done true)
            × ((delete db read now key actor).1 ≡ now))
  unfolding delete
  delete_done read now key actor = elim (Option-cases (select_flag read key)) [
    | inl e ↦ inr (λ h. absurd (ground arith), ground arith)
    | inr (was, e) ↦
        elim (Commit-cases (delete_flag now was.version key (deleted_entry key actor))) [
          | inr other ↦ inr (λ h. absurd (ground arith), ground arith)
          | inl (t, c) ↦
              let entry = deleted_entry key actor in
              let state : (delete db read now key actor).1 ≡ t = ground arith in
              let (current, found, at) = delete_guard now t was.version key entry c in
              inl (
                ground arith,
                rw state (record {
                  was = was;
                  read_it = e;
                  current = current;
                  found = found;
                  same_version = at;
                  rows = λ k. select-delete now t was.version key k entry c;
                  log = audits-delete now t was.version key entry c;
                  names = unfold deleted_entry in (refl, refl, refl);
                }),
              )
        ]
  ]
