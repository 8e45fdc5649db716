-- ===== src/Auth/Scopes.antt =====
-- ripcord/auth.py: the scopes, what they imply, and `Principal`. A frozenset is the list of its
-- members.
use ripcord.Prelude.{
  String, ◌≡◌, refl, Bool, ◌&&◌, ◌||◌, Option, none, List, [], ◌∷◌, ◌++◌, arith, ◌==◌, is_in,
  if◌then◌else◌,
}

abbrev pub scope_flags_read : String
scope_flags_read = "flags:read"

abbrev pub scope_flags_write : String
scope_flags_write = "flags:write"

abbrev pub scope_sdk : String
scope_sdk = "sdk"

abbrev pub scope_admin : String
scope_admin = "admin"

abbrev pub all_scopes : List String
all_scopes = scope_flags_read ∷ scope_flags_write ∷ scope_sdk ∷ scope_admin ∷ []

-- `_IMPLIED.get(scope, frozenset())`
unfoldable pub implied : String → List String
implied scope = if scope == scope_admin then all_scopes else []

pub record Principal : Type 0 where
  pub name : String
  pub scopes : List String
  pub key_id : Option String

-- The loop of `effective_scopes`, over the scopes that are left.
unfoldable pub add_implied : List String → List String → List String
add_implied effective [] = effective
add_implied effective (scope ∷ scopes) = add_implied (effective ++ implied scope) scopes

unfoldable pub effective_scopes : Principal → List String
effective_scopes p = add_implied p.scopes p.scopes

unfoldable pub has : Principal → String → Bool
has p scope = is_in scope (effective_scopes p)

abbrev pub anonymous : Principal
anonymous = record { name = "anonymous"; scopes = all_scopes; key_id = none }

is_in-append : (s : String) (xs ys : List String) → is_in s (xs ++ ys) ≡ (is_in s xs || is_in s ys)
is_in-append s [] ys = refl
is_in-append s (x ∷ xs) ys = ground (arith, is_in-append s xs ys)

is_in-add_implied :
    (s : String) (effective scopes : List String)
    → is_in s (add_implied effective scopes)
      ≡ (is_in s effective || (is_in scope_admin scopes && is_in s all_scopes))
unfolding add_implied implied
is_in-add_implied s effective [] = ground arith
is_in-add_implied s effective (scope ∷ scopes) = ground (
  arith,
  is_in-add_implied s (effective ++ implied scope) scopes,
  is_in-append s effective (implied scope),
)

-- A scope is held when it was granted, or when `admin` was granted and it is a known scope.
pub has_lem :
    (p : Principal) (scope : String)
    → has p scope ≡ (is_in scope p.scopes || (is_in scope_admin p.scopes && is_in scope all_scopes))
unfolding has effective_scopes
has_lem p scope = is_in-add_implied scope p.scopes p.scopes
