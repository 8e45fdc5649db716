-- ===== src/Tests/Current.antt =====
-- A run of a client that refreshes from a ruleset which a rebuild has published.
use ripcord.Prelude.{String, ◌≡◌, ◌==◌, arith, if◌then◌else◌, refl, sym, false, none, some, [], ◌∷◌}
use ripcord.Prelude.Dict.{Dict}
use ripcord.Prelude.Dict
use ripcord.Cache.Ruleset.{
  read_epoch, text_or_zero, write_ruleset, epoch_key, write_field, notify_rest,
}
use ripcord.Cache.System
use ripcord.Cache.System.{
  System, Reach, Relation, Change, none_lost, here, next, commit, bump, announce, begin, query,
  finish, idle, committed, bumped,
}
use ripcord.Services.Payload.{flag_payload}
use ripcord.Services.Ordered.{Ordered, flag_payload-loaded}
use ripcord.Services.Cached.{Moments}
use ripcord.Tests.Cache.{Store, memory, nothing}
use ripcord.Tests.Codec.{stack_codec}
use ripcord.Tests.Services.{Tables}
use ripcord.Tests.Sdk.{theme, stored}

abbrev pub event : String → String → String
event flag_key action = flag_key

abbrev pub payload : String
payload = flag_payload stack_codec theme

abbrev pub table : Dict String
table = ("theme", payload) ∷ []

abbrev start : System Store
start = record {
  table = ("theme", "{}") ∷ [];
  cache = nothing;
  writer = idle;
  rebuilds = λ _. none;
  lost = none_lost;
}

-- The flag is changed, and its new payload announced.
abbrev restyle : Change
restyle = record { key = "theme"; action = "updated"; payload = some payload }

abbrev changed : System Store
changed = record start { table = table; writer = committed restyle }

abbrev counted : System Store
counted = record changed {
  cache = (nothing.0, λ k. if epoch_key == k then 1 else 0);
  writer = bumped restyle;
  lost = System.mark changed.lost "theme" false;
}

abbrev told : System Store
told = record counted {
  cache = (System.notified memory event counted.cache restyle).1;
  writer = idle;
}

only_theme :
    (k : String) → ("theme" == k) ≡ false → Dict.get table k ≡ Dict.get (("theme", "{}") ∷ []) k
unfolding Dict.get
only_theme k h = ground arith

abbrev asked : System Store
asked = record told {
  rebuilds = System.update told.rebuilds 0 (some (record { epoch = "10"; snapshot = none }));
}

abbrev queried : System Store
queried = record asked {
  rebuilds = System.update asked.rebuilds 0 (some (record { epoch = "10"; snapshot = some table }));
}

abbrev pub published : System Store
published = record queried {
  cache = (write_ruleset memory told.cache told.cache false table (some "10")).1;
  rebuilds = System.update queried.rebuilds 0 none;
}

changes : (Same : Relation) → Same "theme" payload payload → Reach memory event Same start told
unfolding Dict.get Dict.put write_field notify_rest
changes Same same =
    next
      (next (next here (commit restyle table refl refl refl (payload, refl, same) only_theme))
        (bump restyle counted.cache refl refl))
      (announce restyle refl refl)

pub run : (Same : Relation) → Same "theme" payload payload → Reach memory event Same start published
unfolding read_epoch text_or_zero Dict.get Dict.put write_field notify_rest
run Same same = next (next (next (changes Same same) (begin 0)) (query 0 _ refl)) (
    finish 0 (record { epoch = "10"; snapshot = some table }) table told.cache false refl refl
      (λ _. refl))

-- The cache is hot at the first read.
abbrev pub moments : Moments Store Tables
moments = record {
  first = some published.cache;
  second = none;
  table = stored;
  watched = told.cache;
  last = published.cache;
  touched = false;
}

pub none_is_lost : (k : String) → published.lost k ≡ false
none_is_lost k = ground arith

-- The flag has no rules, so they are listed by priority.
pub in_order : Ordered stack_codec "theme" payload payload
in_order = (theme, refl, refl, sym (flag_payload-loaded stack_codec theme refl))
