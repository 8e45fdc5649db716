-- ===== src/Auth/Store.antt =====
-- ripcord/models.py, `ApiKey`, and what the program uses of the session on its table. A time is a
-- number of microseconds.
use ripcord.Prelude.{ℕ, String, ◌≡◌, Option, none, some, List, ◌==◌, if◌then◌else◌}

pub record ApiKey : Type 0 where
  pub key_id : String
  pub secret_hash : String
  pub name : String
  pub scopes : List String
  pub created_at : ℕ
  pub last_used_at : Option ℕ
  pub revoked_at : Option ℕ

-- The table of keys behind SQLAlchemy. A commit that fails is rolled back and raises: `none`.
pub record KeyStore : Type 1 where
  pub State : Type 0
  -- `select(ApiKey).where(ApiKey.key_id == key_id)` with `scalar_one_or_none`
  pub select_key : State → String → Option ApiKey
  -- `select(ApiKey).order_by(ApiKey.id)`
  pub select_all : State → List ApiKey
  -- `add` of a new row, and a commit
  pub insert : State → ApiKey → Option State
  -- a commit with one changed row
  pub update : State → ApiKey → Option State
  pub select-key_id :
      (s : State) (k : String) (row : ApiKey) → select_key s k ≡ some row → row.key_id ≡ k
  pub select-insert :
      (s t : State) (row : ApiKey) (k : String)
      → insert s row ≡ some t
      → select_key t k ≡ (if row.key_id == k then some row else select_key s k)
  -- the unique index on `key_id`
  pub insert_unique :
      (s t : State) (row : ApiKey) → insert s row ≡ some t → select_key s row.key_id ≡ none
  pub select-update :
      (s t : State) (old row : ApiKey) (k : String)
      → select_key s row.key_id ≡ some old
      → update s row ≡ some t
      → select_key t k ≡ (if row.key_id == k then some row else select_key s k)
