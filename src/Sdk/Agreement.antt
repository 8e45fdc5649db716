-- ===== src/Sdk/Agreement.antt =====
-- ripcord/sdk/client.py beside ripcord/services.py: the reads of a client after a refresh, and the
-- server's evaluation.
use ripcord.Prelude.{
  String, ◌≡◌, refl, ap, ◌∙◌, sym, true, false, Option, none, some, List, [], ◌∷◌, map, is_distinct,
  is_some, Option-cases, inl, inr, if◌then◌else◌,
}
use ripcord.Prelude.Dict
use ripcord.Prelude.Dict.{Dict}
use ripcord.Json.{Json, null, get_field}
use ripcord.Engine.Spec.{FlagSpec}
use ripcord.Engine.Rules.{Context}
use ripcord.Engine.Evaluate.{evaluate}
use ripcord.Engine.Served.{evaluate-ServesFrom}
use ripcord.Models.{Flag}
use ripcord.Services.Store.{FlagStore}
use ripcord.Services.Flags.{to_spec}
use ripcord.Services.Operations.{evaluate_flag}
use ripcord.Services.Payload.{Codec, at, flag_json}
use ripcord.Services.Keyed.{map_option, put_all, get-put_all}
use ripcord.Services.RoundTrip.{stored_spec, spec_from_json-flag_json, evaluate-stored_spec}
use ripcord.Sdk.Client.{Response, flags_from, refresh, or_default, is_enabled, variant, value}

pub at-flag_json :
    (codec : Codec) (flag : Flag) → at (flag_json codec flag) "key" ≡ some (Json.str flag.key)
unfolding flag_json get_field
at-flag_json codec flag = refl

flags_from-map :
    (codec : Codec) (flags : List Flag) (d : Dict FlagSpec)
    → flags_from (map (flag_json codec) flags) d ≡ some (put_all (stored_spec) flags d)
unfolding flags_from
flags_from-map codec [] d = refl
flags_from-map codec (flag ∷ flags) d =
    rw (at-flag_json codec flag, spec_from_json-flag_json codec flag)
      (flags_from-map codec flags (Dict.put d flag.key (stored_spec flag)))

-- The value of an evaluation that serves no variant is null.
value-none :
    (md5 : String → String) (flag : FlagSpec) (user : String) (context : Option Context)
    → (if is_some (evaluate md5 flag user context).variant
        then (evaluate md5 flag user context).value
        else null)
      ≡ (evaluate md5 flag user context).value
value-none md5 flag user context = elim (evaluate-ServesFrom md5 flag user context) [
  | inl (absent, nothing) ↦ rw absent (sym nothing)
  | inr (v, _, given, _) ↦ rw given refl
]

or_default-none {ℓ} : {A : Type ℓ} (o : Option A) → or_default o none ≡ o
or_default-none none = refl
or_default-none (some x) = refl

-- The response that carries the ruleset of a table.
abbrev pub ruleset_response : Codec → List Flag → Response
ruleset_response codec flags = record {
  status_code = 200;
  is_error = false;
  json = some (map (flag_json codec) flags);
}

module _ (db : FlagStore) (codec : Codec) where
  open db use {State, select_flag, select_all, select_all-select, select_all_distinct}

  abbrev pub fetched : Dict FlagSpec → State → Dict FlagSpec
  fetched old t = refresh old (some (ruleset_response codec (select_all t)))

  get-fetched :
      (old : Dict FlagSpec) (t : State) (key : String)
      → Dict.get (fetched old t) key ≡ map_option (stored_spec) (select_flag t key)
  unfolding refresh
  get-fetched old t key = rw (flags_from-map codec (select_all t) []) (
      get-put_all (stored_spec) (select_all t) key (select_all_distinct t)
      ∙ ap (map_option (stored_spec)) (select_all-select t key))

  -- Any copy that has what the table holds under a key agrees with the server on that flag.
  pub copy-evaluate_flag :
      (md5 : String → String) (copy : Dict FlagSpec) (t : State) (key user : String)
      (context : Option Context)
      → Dict.get copy key ≡ map_option (stored_spec) (select_flag t key)
      → ((flag : Flag)
          → select_flag t key ≡ some flag
          → is_distinct (map (λ v. v.key) flag.variants) ≡ true)
      → (is_enabled md5 copy key user context false
          ≡ (evaluate_flag db md5 t key user context).enabled)
        × (variant md5 copy key user context none
            ≡ (evaluate_flag db md5 t key user context).variant)
        × (value md5 copy key user context null ≡ (evaluate_flag db md5 t key user context).value)
  unfolding is_enabled variant value evaluate_flag
  copy-evaluate_flag md5 copy t key user context got distinct =
      elim (Option-cases (select_flag t key)) [
        | inl gone ↦ rw (is_enabled, variant, value, got, gone, evaluate_flag) (refl, refl, refl)
        | inr (flag, found) ↦
            let same : evaluate md5 (stored_spec flag) user context
                ≡ evaluate md5 (to_spec flag) user context =
              evaluate-stored_spec md5 flag user context (distinct flag found) in
            rw (is_enabled, variant, value, got, found, evaluate_flag, same)
              (
                refl,
                or_default-none (evaluate md5 (to_spec flag) user context).variant,
                value-none md5 (to_spec flag) user context,
              )
      ]

  -- After a refresh that fetched the ruleset of the table, whatever the client held before, its three
  -- reads with the defaults give what the server's evaluation on that table gives, if the keys of
  -- the flag's variants are distinct.
  pub refresh-evaluate_flag :
      (md5 : String → String) (old : Dict FlagSpec) (t : State) (key user : String)
      (context : Option Context)
      → ((flag : Flag)
          → select_flag t key ≡ some flag
          → is_distinct (map (λ v. v.key) flag.variants) ≡ true)
      → (is_enabled md5 (fetched old t) key user context false
          ≡ (evaluate_flag db md5 t key user context).enabled)
        × (variant md5 (fetched old t) key user context none
            ≡ (evaluate_flag db md5 t key user context).variant)
        × (value md5 (fetched old t) key user context null
            ≡ (evaluate_flag db md5 t key user context).value)
  refresh-evaluate_flag md5 old t key user context distinct =
      copy-evaluate_flag md5 (fetched old t) t key user context (get-fetched old t key) distinct
