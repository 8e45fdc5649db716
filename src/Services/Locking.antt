-- ===== src/Services/Locking.antt =====
-- ripcord/services.py: optimistic locking and the audit trail of `update_flag`.
use ripcord.Prelude.{
  ◌+◌, String, ◌≡◌, refl, sym, ap, ◌∙◌, Bool, true, false, none, some, ◌∷◌, arith, ◌==◌, eq_refl,
  Option-cases, inl, inr, ◌⊎◌, if◌then◌else◌,
}
use ripcord.Models.{Flag, loaded}
use ripcord.Schemas.Input.{FlagUpdate}
use ripcord.Services.Store.{Commit, landed, stale, integrity, FlagStore}
use ripcord.Services.Flags.{Outcome, done, updated, updated_entry}
use ripcord.Services.Operations.{commit_update, check_update, update}

abbrev pub is_done {ℓ} : {A : Type ℓ} → Outcome A → Bool
is_done (done _) = true
is_done _ = false

pub is_done-cases {ℓ} :
    {A : Type ℓ} (o : Outcome A) → ((a : A) × (o ≡ done a)) ⊎ (is_done o ≡ false)
is_done-cases (done a) = inl (a, refl)
is_done-cases _ = inr refl

pub Commit-cases {ℓ} :
    {S : Type ℓ} (c : Commit S) → ((s : S) × (c ≡ landed s)) ⊎ ((c ≡ stale) ⊎ (c ≡ integrity))
Commit-cases (landed s) = inl (s, refl)
Commit-cases stale = inr (inl refl)
Commit-cases integrity = inr (inr refl)

module _ (db : FlagStore) where
  open db use {
    State, select_flag, audits, insert_flag, update_flag, delete_flag, select-key, select-insert,
    insert_unique, audits-insert, select-update, update_guard, audits-update, select-delete,
    delete_guard, audits-delete,
  }

  -- What a successful update did: the request's version is the one that the commit found, the row is
  -- the updated one, and one entry is added to the audit log.
  pub record IsUpdated (read now t : State) (key : String) (data' : FlagUpdate) (actor : String)
      (flag : Flag) : Type 0 where
    pub was : Flag
    pub read_it : select_flag read key ≡ some was
    pub read_version : was.version ≡ data'.version
    pub current : Flag
    pub found : select_flag now key ≡ some current
    pub current_version : current.version ≡ data'.version
    pub result : flag ≡ updated was data'
    pub next_version : flag.version ≡ current.version + 1
    pub rows :
        (k : String)
        → select_flag t k ≡ (if key == k then some (loaded flag) else select_flag now k)
    pub log : audits t ≡ updated_entry key was data' actor ∷ audits now
    pub names :
        ((updated_entry key was data' actor).flag_key ≡ key)
        × ((updated_entry key was data' actor).action ≡ "updated")
        × ((updated_entry key was data' actor).actor ≡ actor)

  commit_update_done :
      (now : State) (key : String) (was : Flag) (data' : FlagUpdate) (actor : String) (flag : Flag)
      → (commit_update db now key was data' actor).0 ≡ done flag
      → (flag ≡ updated was data')
        × (update_flag now was.version (updated was data') (updated_entry key was data' actor)
            ≡ landed (commit_update db now key was data' actor).1)
  unfolding commit_update
  commit_update_done now key was data' actor flag h =
      elim (Commit-cases
        (update_flag now was.version (updated was data') (updated_entry key was data' actor))) [
          | inl (t, e) ↦ (ground arith, ground arith)
          | inr other ↦ absurd (ground arith)
        ]

  check_update_done :
      (now : State) (key : String) (was : Flag) (data' : FlagUpdate) (actor : String) (flag : Flag)
      → (check_update db now key was data' actor).0 ≡ done flag
      → (was.version ≡ data'.version)
        × (check_update db now key was data' actor ≡ commit_update db now key was data' actor)
  unfolding check_update
  check_update_done now key was data' actor flag h = (ground arith, ground arith)

  -- An update that succeeds was made against the version that the table still had at its commit: no
  -- change in between is overwritten. It leaves the updated row, with the version after the one that
  -- the commit found, every other flag as it was, and one more audit entry, which names the flag, the
  -- action and the actor.
  pub update_done :
      (read now : State) (key : String) (data' : FlagUpdate) (actor : String) (flag : Flag)
      → (update db read now key data' actor).0 ≡ done flag
      → IsUpdated read now (update db read now key data' actor).1 key data' actor flag
  unfolding update
  update_done read now key data' actor flag h = elim (Option-cases (select_flag read key)) [
    | inl e ↦ absurd (ground arith)
    | inr (was, e) ↦
        let h' : (check_update db now key was data' actor).0 ≡ done flag = ground arith in
        let (version, same) = check_update_done now key was data' actor flag h' in
        let (result, committed) =
          commit_update_done now key was data' actor flag (ap (λ r. r.0) (sym same) ∙ h') in
        let t = (commit_update db now key was data' actor).1 in
        let state : (update db read now key data' actor).1 ≡ t =
          ground (arith, ap (λ r. r.1) same) in
        let id : was.key ≡ key = select-key read key was e in
        let name : (updated was data').key ≡ key = unfold updated in id in
        let (current, found, at) =
          update_guard now t was.version (updated was data') (updated_entry key was data' actor)
            committed in
        rw state (record {
          was = was;
          read_it = e;
          read_version = version;
          current = current;
          found = ap (select_flag now) (sym name) ∙ found;
          current_version = at ∙ version;
          result = result;
          next_version =
              ap (λ f. f.version) result
              ∙ (unfold updated in ap (λ n. n + 1) (version ∙ sym (at ∙ version)));
          names = unfold updated_entry in (refl, refl, refl);
          rows = λ k.
              select-update now t was.version (updated was data')
                (updated_entry key was data' actor) k committed
              ∙ ap (λ n. if n == k then some (loaded (updated was data')) else select_flag now k)
                  name
              ∙ ap (λ f. if key == k then some (loaded f) else select_flag now k) (sym result);
          log =
              audits-update now t was.version (updated was data')
                (updated_entry key was data' actor) committed;
        })
  ]

  -- An update that does not succeed leaves the tables as they are, the audit log included.
  pub update_failed :
      (read now : State) (key : String) (data' : FlagUpdate) (actor : String)
      → is_done (update db read now key data' actor).0 ≡ false
      → (update db read now key data' actor).1 ≡ now
  unfolding update check_update commit_update
  update_failed read now key data' actor h = elim (Option-cases (select_flag read key)) [
    | inl e ↦ ground arith
    | inr (was, e) ↦
        elim (Commit-cases
          (update_flag now was.version (updated was data') (updated_entry key was data' actor))) [
            | inl (t, c) ↦ ground arith
            | inr other ↦ ground arith
          ]
  ]

  -- Of two updates made against one version of a flag, whatever the second one had read, only the
  -- first can succeed.
  pub update_once :
      (read now read' : State) (key : String) (first second : FlagUpdate) (actor actor' : String)
      (flag : Flag)
      → (update db read now key first actor).0 ≡ done flag
      → second.version ≡ first.version
      → is_done (update db read' (update db read now key first actor).1 key second actor').0 ≡ false
  unfolding loaded
  update_once read now read' key first second actor actor' flag h same =
      let t = (update db read now key first actor).1 in
      let u = update_done read now key first actor flag h in
      let bumped : flag.version ≡ first.version + 1 =
        u.next_version ∙ ap (λ n. n + 1) u.current_version in
      elim (is_done-cases (update db read' t key second actor').0) [
        | inr failed ↦ failed
        | inl (flag', h') ↦
            let v = update_done read' t key second actor' flag' h' in
            let there : some (loaded flag) ≡ some v.current =
              sym (u.rows key ∙ rw eq_refl refl) ∙ v.found in
            let version : flag.version ≡ v.current.version =
              ap (λ o. elim o [ none ↦ 0 | some f ↦ f.version ]) there in
            absurd (omega (arith, v.current_version))
      ]
