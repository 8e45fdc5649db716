-- ===== src/Sdk/Client.antt =====
-- ripcord/sdk/client.py: `RipcordClient`'s copy of the ruleset, its refresh and its three reads.
use ripcord.Prelude.{
  ℕ, String, Bool, ◌||◌, Option, none, some, List, [], ◌∷◌, eqb, is_some, if◌then◌else◌,
}
use ripcord.Prelude.Dict
use ripcord.Prelude.Dict.{Dict}
use ripcord.Json.{Json}
use ripcord.Engine.Spec.{FlagSpec}
use ripcord.Engine.Rules.{Context}
use ripcord.Engine.Evaluate.{evaluate}
use ripcord.Services.Payload.{◌>>=◌, at, as_text, spec_from_json}

-- What `GET /ruleset` brings: its status, whether `raise_for_status` raises on it, and what `json()`
-- returns, where `none` is an exception.
pub record Response : Type 0 where
  pub status_code : ℕ
  pub is_error : Bool
  pub json : Option (List Json)

-- `{item["key"]: _spec_from_json(item) for item in ...}`, over the items that are left.
unfoldable pub flags_from : List Json → Dict FlagSpec → Option (Dict FlagSpec)
flags_from [] flags = some flags
flags_from (item ∷ rest) flags = do
  key ← at item "key" >>= as_text
  spec ← spec_from_json item
  flags_from rest (Dict.put flags key spec)

-- `or` the last-known-good copy.
abbrev pub or_old : Dict FlagSpec → Option (Dict FlagSpec) → Dict FlagSpec
or_old old none = old
or_old old (some flags) = flags

-- The copy after `refresh`; `none` is a request that raises.
unfoldable pub refresh : Dict FlagSpec → Option Response → Dict FlagSpec
refresh flags none = flags
refresh flags (some response) =
    if eqb response.status_code 401 || eqb response.status_code 403
    then flags
    else if response.is_error
    then flags
    else or_old flags (response.json >>= (λ items. flags_from items []))

-- `x if x is not None else default`
abbrev pub or_default {ℓ} : {A : Type ℓ} → Option A → Option A → Option A
or_default none default = default
or_default (some x) default = some x

module _ (md5 : String → String) (flags : Dict FlagSpec) where
  unfoldable pub is_enabled : String → String → Option Context → Bool → Bool
  is_enabled flag_key user_id context default = elim (Dict.get flags flag_key) [
    | none ↦ default
    | some spec ↦ (evaluate md5 spec user_id context).enabled
  ]

  unfoldable pub variant : String → String → Option Context → Option String → Option String
  variant flag_key user_id context default = elim (Dict.get flags flag_key) [
    | none ↦ default
    | some spec ↦ or_default (evaluate md5 spec user_id context).variant default
  ]

  unfoldable pub value : String → String → Option Context → Json → Json
  value flag_key user_id context default = elim (Dict.get flags flag_key) [
    | none ↦ default
    | some spec ↦
        let result = evaluate md5 spec user_id context in
        if is_some result.variant then result.value else default
  ]
