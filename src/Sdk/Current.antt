-- ===== src/Sdk/Current.antt =====
-- ripcord/sdk/client.py, ripcord/api/realtime.py, ripcord/cache.py and ripcord/services.py together: a client
-- that refreshes while the system of changes and rebuilds is between two changes.
use mathlib.Core.Path.{subst}
use ripcord.Prelude.{
  String, ◌≡◌, true, false, ap, arith, Option, none, some, List, [], map, is_distinct, All, ◌==◌,
}
use ripcord.Prelude.Dict
use ripcord.Prelude.Dict.{Dict}
use ripcord.Json.{null}
use ripcord.Engine.Spec.{FlagSpec}
use ripcord.Engine.Rules.{Context}
use ripcord.Models.{Flag}
use ripcord.Auth.Verify.{ok}
use ripcord.Cache.Redis.{Redis}
use ripcord.Cache.Ruleset.{complete_field, ruleset_key, read_flag}
use ripcord.Cache.System.{System, Reach, idle, Answers, pending}
use ripcord.Cache.Coherence.{cold_start, read_flag_coherent, Answers-exact}
use ripcord.Services.Store.{FlagStore}
use ripcord.Services.Operations.{evaluate_flag}
use ripcord.Services.Payload.{Codec, ruleset_mapping}
use ripcord.Services.Cached.{Moments}
use ripcord.Services.Ordered.{Ordered, Ordered-exact}
use ripcord.Api.Ruleset.{get_ruleset}
use ripcord.Sdk.Client.{refresh, is_enabled, variant, value}
use ripcord.Sdk.Agreement.{copy-evaluate_flag}
use ripcord.Sdk.Fresh.{texts_response}
use ripcord.Sdk.Snapshot.{get-snapshot, answered-IsSnapshot}

module _ (redis : Redis) (message : String → String → String) (db : FlagStore) (codec : Codec) where
  open redis use {hget, hgetall}
  open db use {State, select_flag, select_all}

  -- The cache of a system with no change under way and no announcement lost agrees with its table on
  -- every flag.
  agrees_idle :
      (table : Dict String) (cache : redis.State) (sys : System redis.State) (k : String)
      → ((f : String) → hget cache ruleset_key f ≡ none)
      → Reach redis message (Ordered codec) (cold_start redis message table cache) sys
      → sys.writer ≡ idle
      → ((k : String) → sys.lost k ≡ false)
      → (complete_field == k) ≡ false
      → Answers (read_flag redis sys.cache k) (Dict.get sys.table k)
  agrees_idle table cache sys k empty run quiet kept plain =
      Answers-exact redis message (Ordered codec) k (read_flag redis sys.cache k)
        (Dict.get sys.table k) (Ordered-exact codec k)
        (read_flag_coherent redis message (Ordered codec) table cache sys k empty run plain
          (ap (λ w. pending redis message w k) quiet) (kept k))

  -- Start from a cold cache, and let changes of flags whose rules are listed by
  -- priority, rebuilds and expiries
  -- follow in any interleaving. A client that refreshes from `GET /ruleset` when no change is under
  -- way and no flag's last announcement has failed, whatever it held before, then evaluates as the server does on the table of that moment, whether the cache was served or the
  -- ruleset was built, if the keys of the flag's variants are distinct.
  pub get_ruleset-evaluate_flag :
      (table : Dict String) (cache : redis.State) (sys : System redis.State)
      (m : Moments redis.State State) (md5 : String → String) (old : Dict FlagSpec)
      (key user : String) (context : Option Context) (texts : List String)
      → ((f : String) → hget cache ruleset_key f ≡ none)
      → Reach redis message (Ordered codec) (cold_start redis message table cache) sys
      → sys.writer ≡ idle
      → ((k : String) → sys.lost k ≡ false)
      → sys.table ≡ ruleset_mapping codec (select_all m.table) []
      → m.first ≡ some sys.cache
      → All (λ e. hget sys.cache ruleset_key e.0 ≡ some e.1) (hgetall sys.cache ruleset_key)
      → (complete_field == key) ≡ false
      → ((flag : Flag)
          → select_flag m.table key ≡ some flag
          → is_distinct (map (λ v. v.key) flag.variants) ≡ true)
      → (get_ruleset redis db codec m).0 ≡ ok texts
      → (is_enabled md5 (refresh old (some (texts_response codec texts))) key user context false
          ≡ (evaluate_flag db md5 m.table key user context).enabled)
        × (variant md5 (refresh old (some (texts_response codec texts))) key user context none
            ≡ (evaluate_flag db md5 m.table key user context).variant)
        × (value md5 (refresh old (some (texts_response codec texts))) key user context null
            ≡ (evaluate_flag db md5 m.table key user context).value)
  get_ruleset-evaluate_flag table cache sys m md5 old key user context texts empty run quiet kept
        current first listed plain distinct answered =
      let same : (s : redis.State) → m.first ≡ some s → sys.cache ≡ s = λ s read. ground (arith) in
      copy-evaluate_flag db codec md5 (refresh old (some (texts_response codec texts))) m.table key
        user context
        (get-snapshot redis db codec old m.table key texts (
          answered-IsSnapshot redis db codec m key texts
            (λ s read k ordinary.
              subst (λ d. Answers (read_flag redis s k) (Dict.get d k)) current
                (subst (λ c. Answers (read_flag redis c k) (Dict.get sys.table k)) (same s read)
                  (agrees_idle table cache sys k empty run quiet kept ordinary)))
            (λ s read.
              subst (λ c. All (λ e. hget c ruleset_key e.0 ≡ some e.1) (hgetall c ruleset_key))
                (same s read) listed)
            plain answered))
        distinct
