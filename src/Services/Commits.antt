-- ===== src/Services/Commits.antt =====
-- ripcord/services.py: the changes of the table, as the commits of ripcord/cache.py's system of changes.
use ripcord.Prelude.{String, ◌≡◌, false, Option, [], ◌==◌}
use ripcord.Prelude.Dict
use ripcord.Cache.Redis.{Redis}
use ripcord.Cache.System.{Told}
use ripcord.Services.Store.{FlagStore}
use ripcord.Services.Payload.{Codec, ruleset_mapping}
use ripcord.Services.Announced.{Announces}

module _ (redis : Redis) (db : FlagStore) (codec : Codec) where
  open db use {State, select_flag, select_all}

  -- What `build_ruleset_mapping` returns for a flag.
  abbrev pub entry_of : State → String → Option String
  entry_of t k = Dict.get (ruleset_mapping codec (select_all t) []) k

  -- The table's entry of one flag is what its change announces, in the relation of the program, and
  -- every other entry is as before.
  pub record IsCommit (now t : State) (key : String) (said : Option String) : Type 0 where
    pub told : Told (Announces codec) key said (entry_of t key)
    pub others : (k : String) → (key == k) ≡ false → entry_of t k ≡ entry_of now k
