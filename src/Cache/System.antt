-- ===== src/Cache/System.antt =====
-- ripcord/cache.py and ripcord/services.py: the table of flags, the cache in Redis, one change at a
-- time and any number of rebuilds, in every interleaving of their steps between the awaits.
use ripcord.Prelude.{
  ℕ, ◌≤◌, String, ◌≡◌, Bool, true, false, Option, none, some, ◌==◌, eqb, ◌⊎◌, if◌then◌else◌,
}
use ripcord.Prelude.Dict
use ripcord.Prelude.Dict.{Dict, get-put}
use ripcord.Cache.Redis.{Redis}
use ripcord.Cache.Ruleset.{
  ruleset_key, complete_field, epoch_key, CachedFlag, hit, absent, cold, read_flag, read_epoch,
  write_ruleset, notify_rest,
}
use ripcord.Cache.Fence.{is_announced, announced}

pub record Change : Type 0 where
  pub key : String
  pub action : String
  pub payload : Option String

-- Where a change stands: its commit is in the table; the counter is bumped too; nothing is under way.
pub data Writer : Type 0 where
  idle : Writer
  committed bumped : Change → Writer

-- A rebuild in flight: the epoch that it read, and its snapshot once it has queried the table.
pub record Rebuild : Type 0 where
  pub epoch : String
  pub snapshot : Option (Dict String)

-- `table` is what `build_ruleset_mapping` returns now. `lost` tells the flags whose last announcement
-- failed, which the program records nowhere.
pub record System (S : Type 0) : Type 0 where
  pub table : Dict String
  pub cache : S
  pub writer : Writer
  pub rebuilds : ℕ → Option Rebuild
  pub lost : String → Bool

-- The program where no flag has lost an announcement.
abbrev pub none_lost : String → Bool
none_lost k = false

abbrev pub mark : (String → Bool) → String → Bool → String → Bool
mark lost key b k = if key == k then b else lost k

abbrev pub update : (ℕ → Option Rebuild) → ℕ → Option Rebuild → ℕ → Option Rebuild
update rebuilds i b j = if eqb i j then b else rebuilds j

-- How the payload that a change of a flag announces stands to the flag's entry in the table: a
-- change announces the rules in the order of the request, and the table has them by priority.
abbrev pub Relation : Type 1
Relation = String → String → String → Type 0

-- What a change announces, a payload or nothing, against the table's entry.
abbrev pub Told : Relation → String → Option String → Option String → Type 0
Told Same key none entry = entry ≡ none
Told Same key (some p) entry = (q : String) × (entry ≡ some q) × Same key p q

-- An answer of the cache is the table's entry, or what a change announced for it.
abbrev pub Accords : Relation → String → CachedFlag → Option String → Type 0
Accords Same key (hit payload) entry = (entry ≡ some payload) ⊎ Told Same key (some payload) entry
Accords Same key absent entry = entry ≡ none
Accords Same key cold entry = Unit

-- An answer of the cache is the table's entry.
abbrev pub Answers : CachedFlag → Option String → Type 0
Answers (hit payload) entry = entry ≡ some payload
Answers absent entry = entry ≡ none
Answers cold entry = Unit

module _ (redis : Redis) (message : String → String → String) where
  open redis use {State, hget, incr, count}

  abbrev pub notified : State → Change → Bool × State
  notified s c = notify_rest redis message s c.key c.action c.payload

  -- One step. A change keeps every other flag of the table. A rebuild's EXEC runs at the state that
  -- it finds, after a WATCH at an earlier one.
  pub data Step (Same : Relation) (sys : System State) : System State → Type 0 where
    commit :
        (c : Change) (table : Dict String)
        → sys.writer ≡ idle
        → is_announced c.action c.payload ≡ true
        → (c.key == complete_field) ≡ false
        → Told Same c.key (announced c.action c.payload) (Dict.get table c.key)
        → ((k : String) → (c.key == k) ≡ false → Dict.get table k ≡ Dict.get sys.table k)
        → Step Same sys (record sys { table = table; writer = committed c })
    bump :
        (c : Change) (t : State)
        → sys.writer ≡ committed c
        → incr sys.cache epoch_key ≡ some t
        → Step Same sys
            (record sys { cache = t; writer = bumped c; lost = mark sys.lost c.key false })
    bump_failed :
        (c : Change)
        → sys.writer ≡ committed c
        → incr sys.cache epoch_key ≡ none
        → Step Same sys (record sys { writer = idle; lost = mark sys.lost c.key true })
    announce :
        (c : Change)
        → sys.writer ≡ bumped c
        → (notified sys.cache c).0 ≡ true
        → Step Same sys (record sys { cache = (notified sys.cache c).1; writer = idle })
    announce_failed :
        (c : Change)
        → sys.writer ≡ bumped c
        → (notified sys.cache c).0 ≡ false
        → Step Same sys (record sys {
          cache = (notified sys.cache c).1;
          writer = idle;
          lost = mark sys.lost c.key true;
        })
    begin :
        (i : ℕ)
        → Step Same sys (record sys {
          rebuilds =
              update sys.rebuilds i
                (some (record { epoch = read_epoch redis sys.cache; snapshot = none }));
        })
    query :
        (i : ℕ) (b : Rebuild)
        → sys.rebuilds i ≡ some b
        → Step Same sys (record sys {
          rebuilds = update sys.rebuilds i (some (record b { snapshot = some sys.table }));
        })
    finish :
        (i : ℕ) (b : Rebuild) (m : Dict String) (watched : State) (touched : Bool)
        → sys.rebuilds i ≡ some b
        → b.snapshot ≡ some m
        → (touched ≡ false → count watched epoch_key ≡ count sys.cache epoch_key)
        → Step Same sys (record sys {
          cache = (write_ruleset redis watched sys.cache touched m (some b.epoch)).1;
          rebuilds = update sys.rebuilds i none;
        })
    expire :
        (t : State)
        → ((k : String) → hget t ruleset_key k ≡ none)
        → count t epoch_key ≡ count sys.cache epoch_key
        → Step Same sys (record sys { cache = t })

  pub data Reach (Same : Relation) (start : System State) : System State → Type 0 where
    here : Reach Same start start
    next : {s t : System State} → Reach Same start s → Step Same s t → Reach Same start t

  -- A flag whose change is committed and not yet announced.
  abbrev pub pending : Writer → String → Bool
  pending idle k = false
  pending (committed c) k = c.key == k
  pending (bumped c) k = c.key == k

  abbrev pub unbumped : Writer → String → Bool
  unbumped (committed c) k = c.key == k
  unbumped _ k = false

  abbrev pub IsProper : Relation → Dict String → Change → Type 0
  IsProper Same table c =
      (is_announced c.action c.payload ≡ true)
      × ((c.key == complete_field) ≡ false)
      × Told Same c.key (announced c.action c.payload) (Dict.get table c.key)

  abbrev pub IsProperWriter : Relation → Dict String → Writer → Type 0
  IsProperWriter Same table idle = Unit
  IsProperWriter Same table (committed c) = IsProper Same table c
  IsProperWriter Same table (bumped c) = IsProper Same table c

  -- A rebuild whose epoch is still current has a snapshot that is right but for the flag of a change
  -- that has not bumped the counter yet, or whose last announcement failed.
  pub record IsCurrent (sys : System State) (b : Rebuild) : Type 0 where
    pub number : ℕ
    pub printed : b.epoch ≡ redis.print number
    pub past : number ≤ count sys.cache epoch_key
    pub right :
        (m : Dict String) (k : String)
        → b.snapshot ≡ some m
        → number ≡ count sys.cache epoch_key
        → unbumped sys.writer k ≡ false
        → sys.lost k ≡ false
        → Dict.get m k ≡ Dict.get sys.table k

  pub record IsCoherent (Same : Relation) (sys : System State) : Type 0 where
    pub answers :
        (k : String)
        → (complete_field == k) ≡ false
        → pending sys.writer k ≡ false
        → sys.lost k ≡ false
        → Accords Same k (read_flag redis sys.cache k) (Dict.get sys.table k)
    pub writer : IsProperWriter Same sys.table sys.writer
    pub rebuilds : (i : ℕ) (b : Rebuild) → sys.rebuilds i ≡ some b → IsCurrent sys b
