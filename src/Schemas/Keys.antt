-- ===== src/Schemas/Keys.antt =====
-- ripcord/schemas.py: `ApiKeyCreate` and its validator; ripcord/cli.py shares the check of the scopes.
use ripcord.Prelude.{String, not, Option, none, some, List, select, is_empty, is_in, if◌then◌else◌}
use ripcord.Auth.Scopes.{all_scopes}
use ripcord.Schemas.Validate.{Invalid, unknown_scope, check_field, has_length, or_check}

pub record ApiKeyCreate : Type 0 where
  pub name : String
  pub scopes : List String

-- `set(value) - ALL_SCOPES`: the message alone sorts it.
unfoldable pub unknown_scopes : List String → List String
unknown_scopes scopes = select (λ s. not (is_in s all_scopes)) scopes

-- `_known_scopes`
unfoldable pub known_scopes : List String → Option Invalid
unfolding unknown_scopes
known_scopes scopes =
    if is_empty (unknown_scopes scopes) then none else some (unknown_scope (unknown_scopes scopes))

unfoldable pub validate_key : ApiKeyCreate → Option Invalid
validate_key payload =
    or_check (check_field "name" (has_length 128 payload.name)) (
      or_check (check_field "scopes" (not (is_empty payload.scopes))) (known_scopes payload.scopes))
