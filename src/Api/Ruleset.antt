-- ===== src/Api/Ruleset.antt =====
-- ripcord/api/realtime.py: `get_ruleset`.
use ripcord.Prelude.{String, Option, none, some, List, [], map}
use ripcord.Prelude.Dict.{Dict}
use ripcord.Auth.Verify.{Reply, ok, error}
use ripcord.Cache.Redis.{Redis}
use ripcord.Cache.Ruleset.{
  Written, landed, superseded, raised, read_ruleset, read_epoch, write_ruleset,
}
use ripcord.Services.Store.{FlagStore}
use ripcord.Services.Payload.{Codec, ruleset_mapping}
use ripcord.Services.Cached.{Moments}

-- `mapping.values()`
abbrev pub values : Dict String → List String
values mapping = map (λ e. e.1) mapping

-- The answer after the write to the cache: an exception is status 500, and a write that was given up
-- costs the caller nothing.
abbrev pub after_write : Written → List String → Reply (List String)
after_write raised texts = error 500
after_write landed texts = ok texts
after_write superseded texts = ok texts

module _ (redis : Redis) (db : FlagStore) (codec : Codec) where
  -- The part after a cold cache; `none` is a counter that cannot be read.
  unfoldable pub build_ruleset :
      Option redis.State → Moments redis.State db.State → Reply (List String) × redis.State
  build_ruleset none m = (error 500, m.last)
  build_ruleset (some second) m =
      let mapping = ruleset_mapping codec (db.select_all m.table) [] in
      let (written, after) =
        write_ruleset redis m.watched m.last m.touched mapping (some (read_epoch redis second)) in
      (after_write written (values mapping), after)

  -- What is done with the answer of `read_ruleset`.
  unfoldable pub serve_ruleset :
      Option (List String) → Moments redis.State db.State → Reply (List String) × redis.State
  unfolding build_ruleset
  serve_ruleset (some cached) m = (ok cached, m.last)
  serve_ruleset none m = build_ruleset m.second m

  -- The texts between the commas of the array that is answered, and the cache that is left. A read
  -- of the cache that raises is status 500.
  unfoldable pub get_ruleset : Moments redis.State db.State → Reply (List String) × redis.State
  unfolding serve_ruleset
  get_ruleset m = elim m.first [
    | none ↦ (error 500, m.last)
    | some s ↦ serve_ruleset (read_ruleset redis s) m
  ]
