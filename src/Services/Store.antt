-- ===== src/Services/Store.antt =====
-- The tables of flags and of audit entries behind SQLAlchemy, as ripcord/services.py uses them. One
-- call stands for what a session flushes and commits together.
use ripcord.Prelude.{
  ℕ, String, ◌≡◌, Option, none, some, List, ◌∷◌, map, true, find?, is_distinct, ◌==◌, if◌then◌else◌,
}
use ripcord.Models.{Flag, AuditLog, loaded}

-- How a commit ends: it lands, StaleDataError, or IntegrityError. The last two are rolled back.
pub data Commit {ℓ} (S : Type ℓ) : Type ℓ where
  landed : S → Commit S
  stale integrity : Commit S

pub record FlagStore : Type 1 where
  pub State : Type 0
  -- `select(Flag).where(Flag.key == key)` in a fresh session
  pub select_flag : State → String → Option Flag
  -- `select(Flag).order_by(Flag.key)`
  pub select_all : State → List Flag
  -- the audit entries, newest first
  pub audits : State → List AuditLog
  -- INSERT of a flag and of its entry
  pub insert_flag : State → Flag → AuditLog → Commit State
  -- UPDATE ... WHERE version = :old, and the entry
  pub update_flag : State → ℕ → Flag → AuditLog → Commit State
  -- DELETE ... WHERE version = :old, and the entry
  pub delete_flag : State → ℕ → String → AuditLog → Commit State
  pub select-key :
      (s : State) (k : String) (flag : Flag) → select_flag s k ≡ some flag → flag.key ≡ k
  -- a table of distinct keys
  pub select_all-select :
      (s : State) (k : String) → find? (λ f. f.key == k) (select_all s) ≡ select_flag s k
  pub select_all_distinct : (s : State) → is_distinct (map (λ f. f.key) (select_all s)) ≡ true
  pub select-insert :
      (s t : State) (flag : Flag) (entry : AuditLog) (k : String)
      → insert_flag s flag entry ≡ landed t
      → select_flag t k ≡ (if flag.key == k then some (loaded flag) else select_flag s k)
  -- the unique index on `flags.key`
  pub insert_unique :
      (s t : State) (flag : Flag) (entry : AuditLog)
      → insert_flag s flag entry ≡ landed t
      → select_flag s flag.key ≡ none
  pub audits-insert :
      (s t : State) (flag : Flag) (entry : AuditLog)
      → insert_flag s flag entry ≡ landed t
      → audits t ≡ entry ∷ audits s
  pub select-update :
      (s t : State) (old : ℕ) (flag : Flag) (entry : AuditLog) (k : String)
      → update_flag s old flag entry ≡ landed t
      → select_flag t k ≡ (if flag.key == k then some (loaded flag) else select_flag s k)
  -- the guard that `version_id_col` adds
  pub update_guard :
      (s t : State) (old : ℕ) (flag : Flag) (entry : AuditLog)
      → update_flag s old flag entry ≡ landed t
      → (current : Flag) × (select_flag s flag.key ≡ some current) × (current.version ≡ old)
  pub audits-update :
      (s t : State) (old : ℕ) (flag : Flag) (entry : AuditLog)
      → update_flag s old flag entry ≡ landed t
      → audits t ≡ entry ∷ audits s
  pub select-delete :
      (s t : State) (old : ℕ) (key k : String) (entry : AuditLog)
      → delete_flag s old key entry ≡ landed t
      → select_flag t k ≡ (if key == k then none else select_flag s k)
  pub delete_guard :
      (s t : State) (old : ℕ) (key : String) (entry : AuditLog)
      → delete_flag s old key entry ≡ landed t
      → (current : Flag) × (select_flag s key ≡ some current) × (current.version ≡ old)
  pub audits-delete :
      (s t : State) (old : ℕ) (key : String) (entry : AuditLog)
      → delete_flag s old key entry ≡ landed t
      → audits t ≡ entry ∷ audits s
