-- ===== src/Tests/Decided.antt =====
-- A run of the evaluation route on a payload whose rules are not in priority order.
use ripcord.Prelude.{
  String, ◌≡◌, ◌==◌, refl, true, false, none, some, [], ◌∷◌, arith, Option, Bool, is_distinct, map,
  if◌then◌else◌,
}
use ripcord.Json.{pos}
use ripcord.Prelude.Dict
use ripcord.Prelude.Dict.{Dict}
use ripcord.Models.{Flag, TargetingRule, loaded}
use ripcord.Cache.Ruleset.{epoch_key, write_field, notify_rest}
use ripcord.Cache.System
use ripcord.Cache.System.{
  System, Reach, Change, none_lost, idle, committed, bumped, here, next, commit, bump, announce,
}
use ripcord.Services.Payload.{flag_payload}
use ripcord.Services.Cached.{Moments}
use ripcord.Services.Announced.{Announces}
use ripcord.Schemas.Evaluate.{EvaluateRequest}
use ripcord.Api.Decided
use ripcord.Tests.Cache.{Store, memory, nothing}
use ripcord.Tests.Codec.{stack_codec}
use ripcord.Tests.Services.{Tables}
use ripcord.Tests.Current.{event}
use ripcord.Tests.Sdk.{theme}

abbrev second : TargetingRule
second = record {
  attribute = "plan";
  operator = "eq";
  values = "pro" ∷ [];
  priority = pos 2;
  variant = some "dark";
}

abbrev first : TargetingRule
first = record second { priority = pos 1; variant = some "light" }

abbrev targeted : Flag
targeted = record theme { rules = second ∷ first ∷ [] }

abbrev table : Dict String
table = ("theme", flag_payload stack_codec (loaded targeted)) ∷ []

abbrev start : System Store
start = record {
  table = ("theme", "{}") ∷ [];
  cache = nothing;
  writer = idle;
  rebuilds = λ _. none;
  lost = none_lost;
}

abbrev target : Change
target = record {
  key = "theme";
  action = "updated";
  payload = some (flag_payload stack_codec targeted);
}

abbrev changed : System Store
changed = record start { table = table; writer = committed target }

abbrev counted : System Store
counted = record changed {
  cache = (nothing.0, λ k. if epoch_key == k then 1 else 0);
  writer = bumped target;
  lost = System.mark changed.lost "theme" false;
}

abbrev told : System Store
told = record counted {
  cache = (System.notified memory event counted.cache target).1;
  writer = idle;
}

only_theme :
    (k : String) → ("theme" == k) ≡ false → Dict.get table k ≡ Dict.get (("theme", "{}") ∷ []) k
unfolding Dict.get
only_theme k h = ground arith

run : Reach memory event (Announces stack_codec) start told
unfolding Dict.get Dict.put write_field notify_rest
run =
    next
      (next
        (next here (
          commit target table refl refl refl
            (flag_payload stack_codec (loaded targeted), refl, (targeted, refl, refl)) only_theme))
        (bump target counted.cache refl refl))
      (announce target refl refl)

abbrev rows : Tables
rows = (some (loaded targeted), [])

abbrev moments : Moments Store Tables
moments = record {
  first = some told.cache;
  second = none;
  table = rows;
  watched = told.cache;
  last = told.cache;
  touched = false;
}

abbrev is_distinct_in : Option Flag → Bool
is_distinct_in none = true
is_distinct_in (some flag) = is_distinct (map (λ v. v.key) flag.variants)

abbrev asked : EvaluateRequest
asked = record { flag_key = "theme"; user_id = "u1"; context = ("plan", "pro") ∷ [] }
