-- ===== src/Tests/Cache.antt =====
-- Runs of ripcord/cache.py on a store that is two functions: a hash and a number for each key. A
-- number is printed in unary, and no command fails.
use Prim.Native.Char.{code}
use ripcord.Prelude.{
  ℕ, zero, suc, ◌+◌, String, ◌≡◌, refl, ◌∙◌, ap, false, inl, inr, Option, none, some, [], ◌∷◌,
  arith, ◌==◌, eq_iff, eqb, ◌&&◌, Bool-cases, if◌then◌else◌,
}
use mathlib.Core.Path.{subst}
use ripcord.Prelude.Dict
use ripcord.Prelude.Dict.{Dict, get-put, get-pop, get-empty}
use ripcord.Cache.Redis.{Redis}
use ripcord.Cache.Ruleset.{
  ruleset_key, complete_field, epoch_key, hit, read_flag, read_epoch, text_or_zero, publish_ruleset,
  write_ruleset, write_field, notify_rest, notify_flag_change,
}
use ripcord.Cache.Fence.{announced, is_announced}
use ripcord.Cache.Fence
use ripcord.Cache.System.{
  Change, Writer, idle, committed, bumped, Rebuild, System, Step, Reach, none_lost, here, next,
  begin, query, commit, bump, announce, finish,
}
use ripcord.Cache.System
use ripcord.Cache.Coherence

abbrev pub Store : Type 0
Store = (String → Dict String) × (String → ℕ)

abbrev pub unary : ℕ → String
unary zero = "0"
unary (suc n) = String.◌∷◌ "1" (unary n)

abbrev pub head_code : String → ℕ
head_code String.[] = 0
head_code (String.◌∷◌ c s) = code c

abbrev pub tail_text : String → String
tail_text String.[] = String.[]
tail_text (String.◌∷◌ c s) = s

pub unary_injective : (m n : ℕ) → unary m ≡ unary n → m ≡ n
unary_injective zero zero h = refl
unary_injective zero (suc n) h = absurd (omega (arith, ap head_code h))
unary_injective (suc m) zero h = absurd (omega (arith, ap head_code h))
unary_injective (suc m) (suc n) h = ap suc (unary_injective m n (ap tail_text h))

pub unary_nonempty : (n : ℕ) → (unary n == "") ≡ false
unary_nonempty zero = refl
unary_nonempty (suc n) = elim (Bool-cases (unary (suc n) == "")) [
  | inl e ↦ absurd (omega (arith, ap head_code ((eq_iff (unary (suc n)) "").0 e)))
  | inr e ↦ e
]

-- The hash of one key replaced.
abbrev pub with_hash : Store → String → Dict String → Store
with_hash s key d = ((λ k. if key == k then d else s.0 k), s.1)

abbrev pub get_count : Store → String → Option String
get_count s key = if eqb (s.1 key) 0 then none else some (unary (s.1 key))

-- What holds after a command that does not fail.
pub after {ℓ} : {A : Type ℓ} {a t : A} (P : A → Type 0) → some a ≡ some t → P a → P t
after P h p = subst (λ o. elim o [ none ↦ Unit | some x ↦ P x ]) h p

pub with_hash-get :
    (s : Store) (key : String) (d : Dict String) (k f : String)
    → Dict.get ((with_hash s key d).0 k) f ≡ (if key == k then Dict.get d f else Dict.get (s.0 k) f)
with_hash-get s key d k f = ground arith

pub put-get :
    (s : Store) (key field value k f : String)
    → Dict.get ((with_hash s key (Dict.put (s.0 key) field value)).0 k) f
      ≡ (if key == k && (field == f) then some value else Dict.get (s.0 k) f)
put-get s key field value k f = ground (
  arith,
  with_hash-get s key (Dict.put (s.0 key) field value) k f,
  get-put (s.0 key) field f value,
  eq_iff key k,
)

pub pop-get :
    (s : Store) (key field k f : String)
    → Dict.get ((with_hash s key (Dict.pop (s.0 key) field)).0 k) f
      ≡ (if key == k && (field == f) then none else Dict.get (s.0 k) f)
pop-get s key field k f = ground (
  arith,
  with_hash-get s key (Dict.pop (s.0 key) field) k f,
  get-pop (s.0 key) field f,
  eq_iff key k,
)

pub get_count-none : (s : Store) (key : String) → get_count s key ≡ none → s.1 key ≡ 0
get_count-none s key h = ground arith

pub get_count-some :
    (s : Store) (key text : String) → get_count s key ≡ some text → text ≡ unary (s.1 key)
get_count-some s key text h = ground arith

abbrev pub memory : Redis
memory = record {
  State = Store;
  hget = λ s key field. Dict.get (s.0 key) field;
  hgetall = λ s key. s.0 key;
  get_text = get_count;
  hset = λ s key field value. some (with_hash s key (Dict.put (s.0 key) field value));
  hdel = λ s key field. some (with_hash s key (Dict.pop (s.0 key) field));
  delete = λ s key. some (with_hash s key []);
  incr = λ s key. some (s.0, λ k. if key == k then s.1 k + 1 else s.1 k);
  expire_if_unset = λ s key seconds. some s;
  publish = λ s channel text. some s;
  replace = λ s key mapping seconds. some (with_hash s key mapping);
  count = λ s key. s.1 key;
  print = unary;
  print_injective = unary_injective;
  print-zero = refl;
  print_nonempty = unary_nonempty;
  get_text-count = get_count-none;
  get_text-print = get_count-some;
  hgetall-hget = λ s key field. refl;
  hget-hset = λ s t key field value k f h.
      after
        (λ t.
          Dict.get (t.0 k) f
          ≡ (if key == k && (field == f) then some value else Dict.get (s.0 k) f))
        h (put-get s key field value k f);
  hget-hdel = λ s t key field k f h.
      after
        (λ t. Dict.get (t.0 k) f ≡ (if key == k && (field == f) then none else Dict.get (s.0 k) f))
        h (pop-get s key field k f);
  hget-delete = λ s t key k f h.
      after (λ t. Dict.get (t.0 k) f ≡ (if key == k then none else Dict.get (s.0 k) f)) h
        (with_hash-get s key [] k f ∙ rw get-empty refl);
  hget-incr = λ s t key k f h. after (λ t. Dict.get (t.0 k) f ≡ Dict.get (s.0 k) f) h refl;
  hget-expire =
      λ s t key k f seconds h. after (λ t. Dict.get (t.0 k) f ≡ Dict.get (s.0 k) f) h refl;
  hget-publish =
      λ s t channel text k f h. after (λ t. Dict.get (t.0 k) f ≡ Dict.get (s.0 k) f) h refl;
  hget-replace = λ s t key k f mapping seconds h.
      after
        (λ t. Dict.get (t.0 k) f ≡ (if key == k then Dict.get mapping f else Dict.get (s.0 k) f)) h
        (with_hash-get s key mapping k f);
  count-incr = λ s t key k h. after (λ t. t.1 k ≡ (if key == k then s.1 k + 1 else s.1 k)) h refl;
  count-hset = λ s t key field value k h. after (λ t. t.1 k ≡ s.1 k) h refl;
  count-hdel = λ s t key field k h. after (λ t. t.1 k ≡ s.1 k) h refl;
  count-delete = λ s t key k h other. after (λ t. t.1 k ≡ s.1 k) h refl;
  count-expire = λ s t key k seconds h. after (λ t. t.1 k ≡ s.1 k) h refl;
  count-publish = λ s t channel text k h. after (λ t. t.1 k ≡ s.1 k) h refl;
  count-replace = λ s t key k mapping seconds h other. after (λ t. t.1 k ≡ s.1 k) h refl;
}

program : Unit {0}
unfolding Dict.get Dict.put Dict.pop read_flag read_epoch text_or_zero publish_ruleset write_ruleset
    write_field notify_rest notify_flag_change
program = tt

abbrev event : String → String → String
event flag_key action = flag_key

abbrev pub nothing : Store
nothing = ((λ _. []), λ _. 0)

abbrev kill : Change
kill = record { key = "checkout"; action = "updated"; payload = some "off: 2, 1" }

-- The change announces the rules in the order of the request.
abbrev by_order : System.Relation
by_order key p q = (p ≡ "off: 2, 1") × (q ≡ "off: 1, 2")

abbrev table_on : Dict String
table_on = ("checkout", "on") ∷ []

abbrev table_off : Dict String
table_off = ("checkout", "off: 1, 2") ∷ []

abbrev start : System Store
start = record {
  table = table_on;
  cache = nothing;
  writer = idle;
  rebuilds = λ _. none;
  lost = none_lost;
}

-- A rebuild begins and reads the table, a change is committed and announced, the rebuild ends.
abbrev reading : System Store
reading = record start {
  rebuilds = System.update start.rebuilds 0 (some (record { epoch = "0"; snapshot = none }));
}

abbrev read : System Store
read = record reading {
  rebuilds =
      System.update reading.rebuilds 0 (some (record { epoch = "0"; snapshot = some table_on }));
}

abbrev changed : System Store
changed = record read { table = table_off; writer = committed kill }

abbrev counted : System Store
counted = record changed {
  cache = (nothing.0, λ k. if epoch_key == k then 1 else 0);
  writer = bumped kill;
  lost = System.mark changed.lost "checkout" false;
}

abbrev told : System Store
told = record counted { cache = (System.notified memory event counted.cache kill).1; writer = idle }

-- The late rebuild is turned away.
abbrev ended : System Store
ended = record told {
  cache = (write_ruleset memory told.cache told.cache false table_on (some "0")).1;
  rebuilds = System.update told.rebuilds 0 none;
}

served : read_flag memory ended.cache "checkout" ≡ hit "off: 2, 1"
unfolding program
served = refl

only_checkout :
    (k : String) → ("checkout" == k) ≡ false → Dict.get table_off k ≡ Dict.get table_on k
unfolding Dict.get
only_checkout k h = ground arith

run : Reach memory event by_order start ended
unfolding program
run =
    next
      (next
        (next
          (next (next (next here (begin 0)) (query 0 _ refl))
            (commit kill table_off refl refl refl ("off: 1, 2", refl, (refl, refl)) only_checkout))
          (bump kill counted.cache refl refl))
        (announce kill refl refl))
      (finish 0 (record { epoch = "0"; snapshot = some table_on }) table_on told.cache false refl
        refl (λ _. refl))

read_flag_coherent_example :
    System.Accords by_order "checkout"
      (read_flag memory ended.cache "checkout")
      (Dict.get ended.table "checkout")
read_flag_coherent_example =
    Coherence.read_flag_coherent memory event by_order table_on nothing ended "checkout" get-empty
      run refl refl refl

write_ruleset_landed_example :
    (nothing.1 epoch_key ≡ 0)
    × (false ≡ false)
    × (memory.replace nothing ruleset_key (Dict.put table_on complete_field "1") 300
        ≡ some (write_ruleset memory nothing nothing false table_on (some "0")).1)
unfolding program
write_ruleset_landed_example =
    Fence.write_ruleset_landed memory nothing nothing false table_on "0" 0 refl refl
