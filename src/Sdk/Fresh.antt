-- ===== src/Sdk/Fresh.antt =====
-- ripcord/sdk/client.py beside ripcord/api/realtime.py: the copy that a client fills from the texts that
-- `get_ruleset` answers with.
use ripcord.Prelude.{
  String, ◌≡◌, refl, ap, ◌∙◌, sym, Bool, false, ◌||◌, Option, some, List, [], ◌∷◌, map, is_in, All,
  arith, ◌==◌, eq_iff, Option-cases, Bool-cases, inl, inr, if◌then◌else◌,
}
use ripcord.Prelude.Dict
use ripcord.Prelude.Dict.{Dict, get-put, get-empty}
use ripcord.Engine.Spec.{FlagSpec}
use ripcord.Models.{Flag}
use ripcord.Services.Store.{FlagStore}
use ripcord.Services.Payload.{Codec, ◌>>=◌, traverse, flag_json, flag_payload}
use ripcord.Services.Keyed.{map_option}
use ripcord.Services.RoundTrip.{stored_spec, spec_from_json-flag_json}
use ripcord.Sdk.Client.{Response, flags_from}
use ripcord.Sdk.Agreement.{at-flag_json}

-- The response that carries texts of JSON in an array.
abbrev pub texts_response : Codec → List String → Response
texts_response codec texts = record {
  status_code = 200;
  is_error = false;
  json = traverse (codec.loads) texts;
}

module _ (db : FlagStore) (codec : Codec) where
  open db use {State, select_flag, select-key}

  -- An entry whose text is the payload of the flag that the table has under its key.
  abbrev pub IsEntry : State → String × String → Type 0
  IsEntry t e = (flag : Flag) × (select_flag t e.0 ≡ some flag) × (e.1 ≡ flag_payload codec flag)

  -- The copy from entries of the table, on top of another.
  abbrev pub flags_of : List (String × String) → Dict FlagSpec → Option (Dict FlagSpec)
  flags_of es d = traverse (codec.loads) (map (λ e. e.1) es) >>= (λ items. flags_from items d)

  flags_of-cons :
      (key text : String) (es : List (String × String)) (d : Dict FlagSpec) (flag : Flag)
      → text ≡ flag_payload codec flag
      → flags_of ((key, text) ∷ es) d ≡ flags_of es (Dict.put d flag.key (stored_spec flag))
  unfolding flag_payload flags_from
  flags_of-cons key text es d flag same =
      elim (Option-cases (traverse (codec.loads) (map (λ e. e.1) es))) [
        | inl e ↦ rw (same, codec.loads-dumps (flag_json codec flag), e) refl
        | inr (js, e) ↦
            rw
              (
                same,
                codec.loads-dumps (flag_json codec flag),
                e,
                at-flag_json codec flag,
                spec_from_json-flag_json codec flag,
              )
              refl
      ]

  put_entry :
      (t : State) (key k : String) (later : Bool) (d : Dict FlagSpec) (flag : Flag)
      → flag.key ≡ key
      → select_flag t key ≡ some flag
      → (if later
          then map_option (stored_spec) (select_flag t k)
          else Dict.get (Dict.put d flag.key (stored_spec flag)) k)
        ≡ (if key == k || later then map_option (stored_spec) (select_flag t k) else Dict.get d k)
  put_entry t key k later d flag id found = elim (Bool-cases (key == k)) [
    | inl here ↦
        let there : select_flag t k ≡ some flag =
          ap (select_flag t) (sym ((eq_iff key k).0 here)) ∙ found in
        let put : Dict.get (Dict.put d flag.key (stored_spec flag)) k ≡ some (stored_spec flag) =
          get-put d flag.key k (stored_spec flag) ∙ rw (id, here) refl in
        rw (put, here, there) (ground arith)
    | inr other ↦ rw (get-put d flag.key k (stored_spec flag), id, other) refl
  ]

  -- The copy has what the table holds under the keys of the entries, whatever their order.
  pub get-flags_of :
      (t : State) (es : List (String × String)) (d : Dict FlagSpec) (k : String)
      → All (IsEntry t) es
      → (copy : Dict FlagSpec) × (flags_of es d ≡ some copy)
        × (Dict.get copy k ≡ (
            if is_in k (map (λ e. e.0) es)
            then map_option (stored_spec) (select_flag t k)
            else Dict.get d k))
  unfolding flags_from
  get-flags_of t [] d k h = (d, refl, refl)
  get-flags_of t ((key, text) ∷ es) d k ((flag, found, same), h) =
      let (copy, filled, got) = get-flags_of t es (Dict.put d flag.key (stored_spec flag)) k h in
      let id : flag.key ≡ key = select-key t key flag found in
      (
        copy,
        flags_of-cons key text es d flag same ∙ filled,
        got ∙ put_entry t key k (is_in k (map (λ e. e.0) es)) d flag id found,
      )
