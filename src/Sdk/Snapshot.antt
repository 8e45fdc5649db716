-- ===== src/Sdk/Snapshot.antt =====
-- ripcord/sdk/client.py, ripcord/api/realtime.py, ripcord/cache.py and ripcord/services.py together: a client
-- that refreshes from `get_ruleset`, through the cache, beside the server's evaluation on the table.
use mathlib.Core.Path.{subst}
use ripcord.Prelude.{
  String, ◌≡◌, refl, ap, ◌∙◌, sym, true, false, none, some, List, [], map, is_in, is_some, All,
  arith, ◌==◌, Option-cases, Bool-cases, inl, inr,
}
use ripcord.Prelude.Dict
use ripcord.Prelude.Dict.{Dict, get-empty}
use ripcord.Engine.Spec.{FlagSpec}
use ripcord.Auth.Verify.{Reply, ok, error}
use ripcord.Cache.Redis.{Redis}
use ripcord.Cache.Ruleset.{
  Written, complete_field, ruleset_key, values_except, read_flag, read_ruleset, write_ruleset,
  read_epoch,
}
use ripcord.Cache.System.{Answers}
use ripcord.Services.Store.{FlagStore}
use ripcord.Services.Payload.{Codec, ruleset_mapping}
use ripcord.Services.Keyed.{map_option}
use ripcord.Services.Cached.{Moments, get-table}
use ripcord.Services.RoundTrip.{stored_spec}
use ripcord.Api.Ruleset.{values, after_write, get_ruleset, build_ruleset, serve_ruleset}
use ripcord.Sdk.Client.{refresh}
use ripcord.Sdk.Fresh.{IsEntry, flags_of, get-flags_of, texts_response}
use ripcord.Sdk.Entries.{
  flag_entries, values_except-select, get-absent, get-missing, read_flag-absent, cached-IsEntry,
  built-IsEntry,
}

module _ (redis : Redis) (db : FlagStore) (codec : Codec) where
  open redis use {hget, hgetall, hgetall-hget}
  open db use {State, select_flag, select_all}

  -- The texts are those of entries of the table, and no flag of the table is left out.
  pub record IsSnapshot (t : State) (key : String) (texts : List String) : Type 0 where
    pub entries : List (String × String)
    pub texts-entries : texts ≡ map (λ e. e.1) entries
    pub sound : All (IsEntry db codec t) entries
    pub complete : is_in key (map (λ e. e.0) entries) ≡ false → select_flag t key ≡ none

  refresh-flags_of :
      (old copy : Dict FlagSpec) (entries : List (String × String))
      → flags_of db codec entries [] ≡ some copy
      → refresh old (some (texts_response codec (map (λ e. e.1) entries))) ≡ copy
  unfolding refresh
  refresh-flags_of old copy entries h = rw h refl

  pub get-snapshot :
      (old : Dict FlagSpec) (t : State) (key : String) (texts : List String)
      → IsSnapshot t key texts
      → Dict.get (refresh old (some (texts_response codec texts))) key
        ≡ map_option (stored_spec) (select_flag t key)
  get-snapshot old t key texts snap =
      let (copy, filled, got) = get-flags_of db codec t snap.entries [] key snap.sound in
      ap (λ ts. Dict.get (refresh old (some (texts_response codec ts))) key) snap.texts-entries
      ∙ ap (λ d. Dict.get d key) (refresh-flags_of old copy snap.entries filled)
      ∙ got
      ∙ elim (Bool-cases (is_in key (map (λ e. e.0) snap.entries))) [
        | inl there ↦ rw there refl
        | inr missing ↦
            rw missing (get-empty key ∙ sym (ap (map_option (stored_spec)) (snap.complete missing)))
      ]

  absent-table :
      (t : State) (key : String)
      → Dict.get (ruleset_mapping codec (select_all t) []) key ≡ none
      → select_flag t key ≡ none
  absent-table t key h = elim (Option-cases (select_flag t key)) [
    | inl gone ↦ gone
    | inr (flag, found) ↦ absurd (ground (arith, get-table redis db codec (λ x. x) t key))
  ]

  read_ruleset_cases :
      (s : redis.State) (texts : List String)
      → read_ruleset redis s ≡ some texts
      → (texts ≡ values_except complete_field (hgetall s ruleset_key))
        × (is_some (Dict.get (hgetall s ruleset_key) complete_field) ≡ true)
  unfolding read_ruleset
  read_ruleset_cases s texts h = ground arith

  cached-IsSnapshot :
      (s : redis.State) (t : State) (key : String) (texts : List String)
      → ((k : String)
          → (complete_field == k) ≡ false
          → Answers (read_flag redis s k) (Dict.get (ruleset_mapping codec (select_all t) []) k))
      → All (λ e. hget s ruleset_key e.0 ≡ some e.1) (hgetall s ruleset_key)
      → (complete_field == key) ≡ false
      → read_ruleset redis s ≡ some texts
      → IsSnapshot t key texts
  cached-IsSnapshot s t key texts agrees listed plain served = record {
    entries = flag_entries (hgetall s ruleset_key);
    texts-entries =
        (read_ruleset_cases s texts served).0 ∙ values_except-select (hgetall s ruleset_key);
    sound = cached-IsEntry redis db codec s t agrees listed;
    complete = λ missing. absent-table t key (
        subst (λ a. Answers a (Dict.get (ruleset_mapping codec (select_all t) []) key))
          (read_flag-absent redis db codec s key
            (sym (hgetall-hget s ruleset_key key)
              ∙ get-absent (hgetall s ruleset_key) key plain missing)
            (ap is_some (sym (hgetall-hget s ruleset_key complete_field))
              ∙ (read_ruleset_cases s texts served).1))
          (agrees key plain));
  }

  built-IsSnapshot :
      (t : State) (key : String)
      → IsSnapshot t key (values (ruleset_mapping codec (select_all t) []))
  built-IsSnapshot t key = record {
    entries = ruleset_mapping codec (select_all t) [];
    texts-entries = refl;
    sound = built-IsEntry redis db codec t;
    complete = λ missing.
        absent-table t key (get-missing (ruleset_mapping codec (select_all t) []) key missing);
  }

  after_write-ok :
      (w : Written) (texts answer : List String) → after_write w texts ≡ ok answer → answer ≡ texts
  after_write-ok Written.landed texts answer h = ground arith
  after_write-ok Written.superseded texts answer h = ground arith
  after_write-ok Written.raised texts answer h = absurd (cc)

  get_ruleset-built :
      (m : Moments redis.State db.State) (s second : redis.State)
      → m.first ≡ some s
      → read_ruleset redis s ≡ none
      → m.second ≡ some second
      → (get_ruleset redis db codec m).0
        ≡ after_write
            (write_ruleset redis m.watched m.last m.touched
              (ruleset_mapping codec (select_all m.table) [])
              (some (read_epoch redis second))).0
            (values (ruleset_mapping codec (select_all m.table) []))
  unfolding get_ruleset serve_ruleset build_ruleset
  get_ruleset-built m s second read cold counted =
      ap
        (λ o.
          (elim o as (λ _. Reply (List String) × redis.State) [
            | none ↦ (error 500, m.last)
            | some c ↦ serve_ruleset redis db codec (read_ruleset redis c) m
          ]).0)
        read
      ∙ ap (λ c. (serve_ruleset redis db codec c m).0) cold
      ∙ ap (λ o. (build_ruleset redis db codec o m).0) counted

  -- What `get_ruleset` answers is a snapshot of the table at its query, if the cache that it reads
  -- first agrees with that table.
  pub answered-IsSnapshot :
      (m : Moments redis.State db.State) (key : String) (texts : List String)
      → ((s : redis.State)
          → m.first ≡ some s
          → (k : String) → (complete_field == k) ≡ false
          → Answers
              (read_flag redis s k)
              (Dict.get (ruleset_mapping codec (select_all m.table) []) k))
      → ((s : redis.State)
          → m.first ≡ some s
          → All (λ e. hget s ruleset_key e.0 ≡ some e.1) (hgetall s ruleset_key))
      → (complete_field == key) ≡ false
      → (get_ruleset redis db codec m).0 ≡ ok texts
      → IsSnapshot m.table key texts
  unfolding get_ruleset serve_ruleset build_ruleset
  answered-IsSnapshot m key texts agrees listed plain answered = elim (Option-cases m.first) [
    | inl raised ↦ absurd (ground arith)
    | inr (s, read) ↦ elim (Option-cases (read_ruleset redis s)) [
      | inr (cached, hot) ↦
          let same : cached ≡ texts = ground arith in
          cached-IsSnapshot s m.table key texts (agrees s read) (listed s read) plain
            (hot ∙ ap some same)
      | inl cold ↦ elim (Option-cases m.second) [
        | inl lost ↦ absurd (ground arith)
        | inr (second, counted) ↦
            let mapping = ruleset_mapping codec (select_all m.table) [] in
            let w =
              (write_ruleset redis m.watched m.last m.touched mapping
                (some (read_epoch redis second))).0 in
            let built : after_write w (values mapping) ≡ ok texts =
              sym (get_ruleset-built m s second read cold counted) ∙ answered in
            subst (IsSnapshot m.table key) (sym (after_write-ok w (values mapping) texts built))
              (built-IsSnapshot m.table key)
      ]
    ]
  ]
