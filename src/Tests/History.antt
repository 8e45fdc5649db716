-- ===== src/Tests/History.antt =====
-- A run of the history of a table: a flag is created and then killed.
use ripcord.Prelude.{refl}
use ripcord.Services.Consistent.{IsConsistent}
use ripcord.Services.History
use ripcord.Services.History.{Reachable, begin, created, updates}
use ripcord.Services.Refinement
use ripcord.Services.Refinement.{view}
use ripcord.Services.Operations.{create, update, check_update, commit_update}
use ripcord.Services.Flags.{
  flag_from_input, created_entry, updated, updated_entry, effective_variants, effective_pins,
  effective_off, bad_off, changes, rules_from_input, variants_from_input, apply_variants,
}
use ripcord.Models.{Flag, loaded}
use ripcord.Schemas.Validate.{
  validate_create, validate_update, matches_key, valid_variant, valid_rule, validate_variants,
  check_rule_variants,
}
use ripcord.Tests.Services.{Tables, flags_table, banner, kill, none_yet}

abbrev with_banner : Tables
with_banner = (create flags_table none_yet banner "anna").1

abbrev without : Tables
without = (update flags_table with_banner with_banner "banner" kill "bob").1

abbrev killed : Flag
killed = loaded (updated (loaded (flag_from_input banner)) kill)

run : Reachable flags_table none_yet without
unfolding validate_create validate_update matches_key valid_variant valid_rule validate_variants
    check_rule_variants
run =
    updates (created begin banner "anna" refl) (created begin banner "anna" refl) "banner" kill
      "bob" refl

Reachable-IsConsistent_example : IsConsistent killed
unfolding create update check_update commit_update flag_from_input created_entry updated
    updated_entry effective_variants effective_pins effective_off bad_off changes rules_from_input
    variants_from_input apply_variants loaded
Reachable-IsConsistent_example =
    History.Reachable-IsConsistent flags_table none_yet without "banner" killed (λ k. refl) run refl

Reachable-Moves_example : Refinement.Moves (view flags_table none_yet) (view flags_table without)
Reachable-Moves_example = Refinement.Reachable-Moves flags_table none_yet without run
