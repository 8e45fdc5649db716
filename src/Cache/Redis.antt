-- ===== src/Cache/Redis.antt =====
-- What ripcord/cache.py uses of Redis: one hash, one counter, and their commands. A command that
-- raises has changed nothing: `none`. A time to live is not read here: the hash may vanish at any
-- time (`Cache.System`).
use ripcord.Prelude.{ℕ, zero, ◌+◌, String, ◌≡◌, Bool, ◌&&◌, Option, none, some, ◌==◌, if◌then◌else◌}
use ripcord.Prelude.Dict
use ripcord.Prelude.Dict.{Dict}

pub record Redis : Type 1 where
  pub State : Type 0
  -- HGET key field
  pub hget : State → String → String → Option String
  -- HGETALL key
  pub hgetall : State → String → Dict String
  -- GET key, of a key that only INCR writes
  pub get_text : State → String → Option String
  -- HSET key field value
  pub hset : State → String → String → String → Option State
  -- HDEL key field
  pub hdel : State → String → String → Option State
  -- DEL key
  pub delete : State → String → Option State
  -- INCR key
  pub incr : State → String → Option State
  -- TTL key and EXPIRE key seconds, if the time to live is negative
  pub expire_if_unset : State → String → ℕ → Option State
  -- PUBLISH channel message
  pub publish : State → String → String → Option State
  -- MULTI; DEL key; HSET key mapping; EXPIRE key seconds; EXEC
  pub replace : State → String → Dict String → ℕ → Option State
  -- the number behind a counter, and how it is printed
  pub count : State → String → ℕ
  pub print : ℕ → String
  pub print_injective : (m n : ℕ) → print m ≡ print n → m ≡ n
  pub print-zero : print zero ≡ "0"
  pub print_nonempty : (n : ℕ) → (print n == "") ≡ Bool.false
  pub get_text-count : (s : State) (key : String) → get_text s key ≡ none → count s key ≡ zero
  pub get_text-print :
      (s : State) (key text : String) → get_text s key ≡ some text → text ≡ print (count s key)
  pub hgetall-hget :
      (s : State) (key field : String) → Dict.get (hgetall s key) field ≡ hget s key field
  pub hget-hset :
      (s t : State) (key field value k f : String)
      → hset s key field value ≡ some t
      → hget t k f ≡ (if (key == k) && (field == f) then some value else hget s k f)
  pub hget-hdel :
      (s t : State) (key field k f : String)
      → hdel s key field ≡ some t
      → hget t k f ≡ (if (key == k) && (field == f) then none else hget s k f)
  pub hget-delete :
      (s t : State) (key k f : String)
      → delete s key ≡ some t
      → hget t k f ≡ (if key == k then none else hget s k f)
  pub hget-incr : (s t : State) (key k f : String) → incr s key ≡ some t → hget t k f ≡ hget s k f
  pub hget-expire :
      (s t : State) (key k f : String) (seconds : ℕ)
      → expire_if_unset s key seconds ≡ some t
      → hget t k f ≡ hget s k f
  pub hget-publish :
      (s t : State) (channel message k f : String)
      → publish s channel message ≡ some t
      → hget t k f ≡ hget s k f
  pub hget-replace :
      (s t : State) (key k f : String) (mapping : Dict String) (seconds : ℕ)
      → replace s key mapping seconds ≡ some t
      → hget t k f ≡ (if key == k then Dict.get mapping f else hget s k f)
  -- only INCR changes a counter, and DEL of that key
  pub count-incr :
      (s t : State) (key k : String)
      → incr s key ≡ some t
      → count t k ≡ (if key == k then count s k + 1 else count s k)
  pub count-hset :
      (s t : State) (key field value k : String)
      → hset s key field value ≡ some t
      → count t k ≡ count s k
  pub count-hdel :
      (s t : State) (key field k : String) → hdel s key field ≡ some t → count t k ≡ count s k
  pub count-delete :
      (s t : State) (key k : String)
      → delete s key ≡ some t
      → (key == k) ≡ Bool.false
      → count t k ≡ count s k
  pub count-expire :
      (s t : State) (key k : String) (seconds : ℕ)
      → expire_if_unset s key seconds ≡ some t
      → count t k ≡ count s k
  pub count-publish :
      (s t : State) (channel message k : String)
      → publish s channel message ≡ some t
      → count t k ≡ count s k
  pub count-replace :
      (s t : State) (key k : String) (mapping : Dict String) (seconds : ℕ)
      → replace s key mapping seconds ≡ some t
      → (key == k) ≡ Bool.false
      → count t k ≡ count s k
