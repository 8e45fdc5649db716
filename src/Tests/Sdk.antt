-- ===== src/Tests/Sdk.antt =====
-- Runs of the cached evaluation and of the SDK's client, on one flag in the table.
use ripcord.Prelude.{
  String, ◌≡◌, refl, Bool, true, false, Option, none, some, [], ◌∷◌, map, is_distinct, Bool-cases,
  inl, inr, ◌==◌, ap, ◌∙◌, sym,
}
use ripcord.Json.{str}
use ripcord.Models.{Flag}
use ripcord.Services.Operations.{evaluate_flag}
use ripcord.Services.Payload.{spec_from_payload, flag_payload}
use ripcord.Services.RoundTrip
use ripcord.Services.RoundTrip.{stored_spec}
use ripcord.Services.Cached
use ripcord.Services.Cached.{Moments, evaluate_flag_cached}
use ripcord.Tests.Codec.{stack_codec}
use ripcord.Tests.Cache.{Store, memory, nothing}
use ripcord.Tests.Services.{Tables, flags_table}

abbrev pub digest : String → String
digest s = "00ff"

abbrev pub theme : Flag
theme = record {
  key = "theme";
  name = "Theme";
  description = none;
  enabled = true;
  rollout_percentage = 50;
  off_variant = some "light";
  version = 3;
  rules = [];
  variants =
      record { key = "light"; value = str "#fff"; weight = 40 }
      ∷ record { key = "dark"; value = str "#000"; weight = 60 }
      ∷ [];
}

abbrev pub stored : Tables
stored = (some theme, [])

abbrev is_distinct_in : Option Flag → Bool
is_distinct_in none = true
is_distinct_in (some flag) = is_distinct (map (λ v. v.key) flag.variants)

pub theme_distinct :
    (key : String) (flag : Flag)
    → flags_table.select_flag stored key ≡ some flag
    → is_distinct (map (λ v. v.key) flag.variants) ≡ true
theme_distinct key flag found =
    sym (ap is_distinct_in found)
    ∙ elim (Bool-cases (theme.key == key)) [ inl this ↦ rw this refl | inr other ↦ rw other refl ]

spec_from_payload-flag_payload_example :
    spec_from_payload stack_codec (flag_payload stack_codec theme) ≡ some (stored_spec theme)
spec_from_payload-flag_payload_example = RoundTrip.spec_from_payload-flag_payload stack_codec theme

-- The cache cannot be read, and the rebuild finds it empty.
abbrev pub unreadable : Moments Store Tables
unreadable = record {
  first = none;
  second = some nothing;
  table = stored;
  watched = nothing;
  last = nothing;
  touched = false;
}

evaluate_flag_cached_lem_example :
    (evaluate_flag_cached memory flags_table stack_codec digest unreadable "theme" "u1" none).0
    ≡ some (evaluate_flag flags_table digest stored "theme" "u1" none)
evaluate_flag_cached_lem_example =
    Cached.evaluate_flag_cached_lem memory flags_table stack_codec digest unreadable "theme" "u1"
      none (λ s h. absurd (cc)) (theme_distinct "theme")
