-- ===== src/Services/Cached.antt =====
-- ripcord/services.py: `evaluate_flag_cached`, beside `evaluate_flag`.
use ripcord.Prelude.{
  String, ◌≡◌, refl, ap, ◌∙◌, Bool, true, Option, none, some, List, [], ◌∷◌, map, is_distinct,
  Option-cases, inl, inr,
}
use ripcord.Prelude.Dict
use ripcord.Prelude.Dict.{Dict, get-put, get-empty}
use ripcord.Engine.Spec.{Evaluation}
use ripcord.Engine.Rules.{Context}
use ripcord.Engine.Evaluate.{evaluate}
use ripcord.Cache.Redis.{Redis}
use ripcord.Cache.Ruleset.{CachedFlag, hit, absent, cold, read_flag, read_epoch, write_ruleset}
use ripcord.Cache.System.{Answers}
use ripcord.Models.{Flag}
use ripcord.Services.Store.{FlagStore}
use ripcord.Services.Operations.{not_found_evaluation, evaluate_flag}
use ripcord.Services.Payload.{Codec, flag_payload, ruleset_mapping, spec_from_payload}
use ripcord.Services.Keyed.{map_option, put_all, get-put_all}
use ripcord.Services.RoundTrip.{spec_from_payload-flag_payload, evaluate-stored_spec}

-- What a request finds at each of its awaits: the cache at `read_flag` and at `read_epoch`, where
-- `none` is a read that raises; the table at the query; the cache at WATCH and at EXEC, and whether
-- the counter was written in between.
pub record Moments (C D : Type 0) : Type 0 where
  pub first : Option C
  pub second : Option C
  pub table : D
  pub watched : C
  pub last : C
  pub touched : Bool

-- What `evaluate_flag_cached` makes of a read of the cache that raised.
abbrev pub or_cold : Option CachedFlag → CachedFlag
or_cold none = cold
or_cold (some answer) = answer

module _ (redis : Redis) (db : FlagStore) (codec : Codec) (md5 : String → String) where
  -- `evaluate(spec_from_payload(payload), user_id, context)`; `none` is an exception.
  unfoldable pub evaluate_payload : String → String → Option Context → Option Evaluation
  evaluate_payload payload user_id context =
      map_option (λ spec. evaluate md5 spec user_id context) (spec_from_payload codec payload)

  -- The answer from what a rebuild has read.
  unfoldable pub answer_from : Dict String → String → String → Option Context → Option Evaluation
  answer_from mapping key user_id context = elim (Dict.get mapping key) [
    | none ↦ some not_found_evaluation
    | some payload ↦ evaluate_payload payload user_id context
  ]

  -- The part after a cold cache: the answer, and the cache that the rebuild leaves.
  unfoldable pub rebuild :
      Moments redis.State db.State
      → String
      → String
      → Option Context
      → Option Evaluation × redis.State
  rebuild m key user_id context =
      let mapping = ruleset_mapping codec (db.select_all m.table) [] in
      let epoch = map_option (read_epoch redis) m.second in
      (
        answer_from mapping key user_id context,
        (write_ruleset redis m.watched m.last m.touched mapping epoch).1,
      )

  -- What is done with the answer of `read_flag`.
  unfoldable pub serve_answer :
      CachedFlag
      → Moments redis.State db.State
      → String
      → String
      → Option Context
      → Option Evaluation × redis.State
  serve_answer (hit payload) m key user_id context =
      (evaluate_payload payload user_id context, m.last)
  serve_answer absent m key user_id context = (some not_found_evaluation, m.last)
  serve_answer cold m key user_id context = rebuild m key user_id context

  unfoldable pub evaluate_flag_cached :
      Moments redis.State db.State
      → String
      → String
      → Option Context
      → Option Evaluation × redis.State
  evaluate_flag_cached m key user_id context =
      serve_answer (or_cold (map_option (λ s. read_flag redis s key) m.first)) m key user_id context

ruleset_mapping-put_all :
    (codec : Codec) (flags : List Flag) (d : Dict String)
    → ruleset_mapping codec flags d ≡ put_all (flag_payload codec) flags d
unfolding ruleset_mapping
ruleset_mapping-put_all codec [] d = refl
ruleset_mapping-put_all codec (flag ∷ flags) d =
    ruleset_mapping-put_all codec flags (Dict.put d flag.key (flag_payload codec flag))

module _ (redis : Redis) (db : FlagStore) (codec : Codec) (md5 : String → String) where
  open db use {select_flag, select_all, select_all-select, select_all_distinct}

  -- The mapping that a rebuild publishes has the payload of each flag of the table, and no other.
  pub get-table :
      (t : db.State) (key : String)
      → Dict.get (ruleset_mapping codec (select_all t) []) key
        ≡ map_option (flag_payload codec) (select_flag t key)
  get-table t key =
      ap (λ d. Dict.get d key) (ruleset_mapping-put_all codec (select_all t) [])
      ∙ get-put_all (flag_payload codec) (select_all t) key (select_all_distinct t)
      ∙ ap (map_option (flag_payload codec)) (select_all-select t key)

  evaluate_payload-flag :
      (t : db.State) (key user : String) (context : Option Context) (flag : Flag)
      → select_flag t key ≡ some flag
      → is_distinct (map (λ v. v.key) flag.variants) ≡ true
      → evaluate_payload redis db codec md5 (flag_payload codec flag) user context
        ≡ some (evaluate_flag db md5 t key user context)
  unfolding evaluate_payload evaluate_flag
  evaluate_payload-flag t key user context flag found d =
      rw (found, evaluate_flag, spec_from_payload-flag_payload codec flag)
        (ap some (evaluate-stored_spec md5 flag user context d))

  pub answer_from-table :
      (t : db.State) (key user : String) (context : Option Context)
      → ((flag : Flag)
          → select_flag t key ≡ some flag
          → is_distinct (map (λ v. v.key) flag.variants) ≡ true)
      → answer_from redis db codec md5 (ruleset_mapping codec (select_all t) []) key user context
        ≡ some (evaluate_flag db md5 t key user context)
  unfolding answer_from evaluate_flag
  answer_from-table t key user context distinct = elim (Option-cases (select_flag t key)) [
    | inl gone ↦ rw (get-table t key, answer_from, gone, evaluate_flag) refl
    | inr (flag, found) ↦
        rw (get-table t key, answer_from, found)
          (evaluate_payload-flag t key user context flag found (distinct flag found))
  ]

  -- The answer is what the table's mapping holds.
  pub serve_answer-table :
      (answer : CachedFlag) (m : Moments redis.State db.State) (key user : String)
      (context : Option Context)
      → Answers answer (Dict.get (ruleset_mapping codec (select_all m.table) []) key)
      → (serve_answer redis db codec md5 answer m key user context).0
        ≡ answer_from redis db codec md5
            (ruleset_mapping codec (select_all m.table) [])
            key
            user
            context
  unfolding serve_answer answer_from rebuild
  serve_answer-table (hit payload) m key user context same = rw (same, answer_from) refl
  serve_answer-table absent m key user context same = rw (same, answer_from) refl
  serve_answer-table cold m key user context same = refl

  -- A request that finds an answer of the cache which agrees with the table, a cold cache, or a cache
  -- that cannot be read at all, is answered, without an error, as `evaluate_flag` answers it from the
  -- table, if the keys of the flag's variants are distinct.
  pub evaluate_flag_cached_lem :
      (m : Moments redis.State db.State) (key user : String) (context : Option Context)
      → ((s : redis.State)
          → m.first ≡ some s
          → Answers
              (read_flag redis s key)
              (Dict.get (ruleset_mapping codec (select_all m.table) []) key))
      → ((flag : Flag)
          → select_flag m.table key ≡ some flag
          → is_distinct (map (λ v. v.key) flag.variants) ≡ true)
      → (evaluate_flag_cached redis db codec md5 m key user context).0
        ≡ some (evaluate_flag db md5 m.table key user context)
  unfolding evaluate_flag_cached
  evaluate_flag_cached_lem m key user context agrees distinct =
      let there = answer_from-table m.table key user context distinct in
      let served : Option redis.State → Option Evaluation = λ o.
        (serve_answer redis db codec md5 (or_cold (map_option (λ s. read_flag redis s key) o)) m key
          user context).0 in
      elim (Option-cases m.first) [
        | inl raised ↦ ap served raised ∙ serve_answer-table cold m key user context tt ∙ there
        | inr (s, read) ↦
            ap served read
            ∙ serve_answer-table (read_flag redis s key) m key user context (agrees s read)
            ∙ there
      ]
