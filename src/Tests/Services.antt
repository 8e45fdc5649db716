-- ===== src/Tests/Services.antt =====
-- Runs of ripcord/services.py on a table that has room for one flag, and a list of audit entries.
use ripcord.Prelude.{
  ℕ, String, ◌≡◌, ◌≢◌, refl, ◌∙◌, ap, sym, Bool, true, false, ◌⊎◌, inl, inr, Option, none, some,
  List, [], ◌∷◌, arith, ◌==◌, eq_iff, eqb, map, find?, is_distinct, Bool-cases, if◌then◌else◌,
}
use mathlib.Core.Path.{subst}
use ripcord.Models.{Flag, AuditLog, loaded}
use ripcord.Schemas.Input.{FlagCreate, FlagUpdate}
use ripcord.Services.Store.{Commit, landed, stale, integrity, FlagStore}
use ripcord.Services.Flags.{
  done, flag_from_input, created_entry, updated, updated_entry, deleted_entry, effective_variants,
  effective_pins, effective_off, bad_off, changes, rules_from_input, variants_from_input,
  apply_variants,
}
use ripcord.Services.Operations.{create, update, delete, check_update, commit_update}
use ripcord.Services.Locking
use ripcord.Services.Removal
use ripcord.Services.Valid
use ripcord.Json.{str}
use ripcord.Schemas.Validate.{
  validate_create, matches_key, valid_variant, valid_rule, validate_variants, check_rule_variants,
}

abbrev pub Tables : Type 0
Tables = Option Flag × List AuditLog

abbrev pub row_of : Option Flag → String → Option Flag
row_of none k = none
row_of (some flag) k = if flag.key == k then some flag else none

abbrev pub rows_of : Option Flag → List Flag
rows_of none = []
rows_of (some flag) = flag ∷ []

abbrev pub insert_row : Tables → Flag → AuditLog → Commit Tables
insert_row (none, log) flag entry = landed (some (loaded flag), entry ∷ log)
insert_row (some _, log) flag entry = integrity

abbrev pub has_version : Option Flag → ℕ → Bool
has_version none old = false
has_version (some flag) old = eqb flag.version old

abbrev pub update_row : Tables → ℕ → Flag → AuditLog → Commit Tables
update_row (row, log) old flag entry =
    if has_version (row_of row flag.key) old
    then landed (some (loaded flag), entry ∷ log)
    else stale

abbrev pub delete_row : Tables → ℕ → String → AuditLog → Commit Tables
delete_row (row, log) old key entry =
    if has_version (row_of row key) old then landed (none, entry ∷ log) else stale

pub row_of-key :
    (row : Option Flag) (k : String) (flag : Flag) → row_of row k ≡ some flag → flag.key ≡ k
row_of-key none k flag h = absurd (cc)
row_of-key (some f) k flag h = elim (Bool-cases (f.key == k)) [
  | inl this ↦
      let same : f ≡ flag = ground arith in
      ap (λ (x : Flag). x.key) (sym same) ∙ (eq_iff f.key k).0 this
  | inr other ↦ absurd (ground arith)
]

pub row_of-find :
    (row : Option Flag) (k : String) → find? (λ f. f.key == k) (rows_of row) ≡ row_of row k
row_of-find none k = refl
row_of-find (some f) k = ground arith

pub rows_of_distinct : (row : Option Flag) → is_distinct (map (λ f. f.key) (rows_of row)) ≡ true
rows_of_distinct none = refl
rows_of_distinct (some f) = refl

-- The state that a commit leaves, if it landed.
abbrev pub state_of : Commit Tables → Tables → Tables
state_of (landed t) s = t
state_of _ s = s

pub insert_row-landed :
    (s t : Tables) (flag : Flag) (entry : AuditLog)
    → insert_row s flag entry ≡ landed t
    → (s.0 ≡ none) × ((some (loaded flag), entry ∷ s.1) ≡ t)
insert_row-landed (none, log) t flag entry h = (refl, ap (λ c. state_of c t) h)
insert_row-landed (some f, log) t flag entry h = absurd (cc)

-- A guarded commit that landed had the version that it names.
pub guarded :
    (row : Option Flag) (old : ℕ) (s t : Tables)
    → (if has_version row old then landed s else stale) ≡ landed t
    → ((f : Flag) × (row ≡ some f) × (f.version ≡ old)) × (s ≡ t)
guarded none old s t h = absurd (cc)
guarded (some f) old s t h = elim (Bool-cases (eqb f.version old)) [
  | inl same ↦ ((f, refl, ground arith), ground arith)
  | inr other ↦ absurd (ground arith)
]

pub row_of-other :
    (row : Option Flag) (key k : String) (f : Flag)
    → row_of row key ≡ some f
    → row_of row k ≡ (if key == k then some f else none)
row_of-other none key k f h = absurd (cc)
row_of-other (some g) key k f h = ground (arith, eq_iff g.key key, eq_iff g.key k, eq_iff key k)

pub row_of-loaded :
    (flag : Flag) (k : String)
    → row_of (some (loaded flag)) k ≡ (if flag.key == k then some (loaded flag) else none)
unfolding loaded
row_of-loaded flag k = refl

pub row_of-replaced :
    (row : Option Flag) (flag f : Flag) (k : String)
    → row_of row flag.key ≡ some f
    → row_of (some (loaded flag)) k ≡ (if flag.key == k then some (loaded flag) else row_of row k)
row_of-replaced row flag f k there =
    ground (arith, row_of-loaded flag k, row_of-other row flag.key k f there)

pub row_of-removed :
    (row : Option Flag) (key k : String) (f : Flag)
    → row_of row key ≡ some f
    → none ≡ (if key == k then none else row_of row k)
row_of-removed row key k f there = ground (arith, row_of-other row key k f there)

abbrev pub flags_table : FlagStore
flags_table = record {
  State = Tables;
  select_flag = λ s k. row_of s.0 k;
  select_all = λ s. rows_of s.0;
  audits = λ s. s.1;
  insert_flag = insert_row;
  update_flag = update_row;
  delete_flag = delete_row;
  select-key = λ s. row_of-key s.0;
  select_all-select = λ s. row_of-find s.0;
  select_all_distinct = λ s. rows_of_distinct s.0;
  select-insert = λ s t flag entry k h.
      let (empty, same) = insert_row-landed s t flag entry h in
      subst
        (λ (t : Tables).
          row_of t.0 k ≡ (if flag.key == k then some (loaded flag) else row_of s.0 k))
        same (rw empty (row_of-loaded flag k));
  insert_unique = λ s t flag entry h. rw ((insert_row-landed s t flag entry h).0) refl;
  audits-insert = λ s t flag entry h. ap (λ t. t.1) (sym (insert_row-landed s t flag entry h).1);
  select-update = λ s t old flag entry k h.
      let ((f, there, _), same) = guarded (row_of s.0 flag.key) old _ t h in
      subst
        (λ (t : Tables).
          row_of t.0 k ≡ (if flag.key == k then some (loaded flag) else row_of s.0 k))
        same (row_of-replaced s.0 flag f k there);
  update_guard = λ s t old flag entry h. (guarded (row_of s.0 flag.key) old _ t h).0;
  audits-update =
      λ s t old flag entry h. ap (λ t. t.1) (sym (guarded (row_of s.0 flag.key) old _ t h).1);
  select-delete = λ s t old key k entry h.
      let ((f, there, _), same) = guarded (row_of s.0 key) old _ t h in
      subst (λ (t : Tables). row_of t.0 k ≡ (if key == k then none else row_of s.0 k)) same
        (row_of-removed s.0 key k f there);
  delete_guard = λ s t old key entry h. (guarded (row_of s.0 key) old _ t h).0;
  audits-delete = λ s t old key entry h. ap (λ t. t.1) (sym (guarded (row_of s.0 key) old _ t h).1);
}

program : Unit {0}
unfolding create update delete check_update commit_update flag_from_input created_entry updated
    updated_entry deleted_entry effective_variants effective_pins effective_off bad_off changes
    rules_from_input variants_from_input apply_variants loaded
program = tt

abbrev pub banner : FlagCreate
banner = record {
  key = "banner";
  name = "Banner";
  description = none;
  enabled = true;
  rollout_percentage = 100;
  rules = [];
  variants = [];
  off_variant = none;
}

abbrev pub kill : FlagUpdate
kill = record {
  name = none;
  description = none;
  enabled = some false;
  rollout_percentage = none;
  rules = none;
  variants = none;
  off_variant = none;
  off_variant_given = false;
  version = 1;
}

abbrev pub none_yet : Tables
none_yet = (none, [])

created : Tables
unfolding create
created = (create flags_table none_yet banner "anna").1

killed : Flag
killed = updated (loaded (flag_from_input banner)) kill

update_done_example :
    Locking.IsUpdated flags_table created created
      (update flags_table created created "banner" kill "bob").1
      "banner"
      kill
      "bob"
      killed
unfolding program created killed
update_done_example =
    Locking.update_done flags_table created created "banner" kill "bob" killed refl

update_once_example :
    Locking.is_done
      (update flags_table created
        (update flags_table created created "banner" kill "bob").1
        "banner"
        kill
        "carl").0
    ≡ false
unfolding program created killed
update_once_example =
    Locking.update_once flags_table created created created "banner" kill kill "bob" "carl" killed
      refl refl

delete_done_example :
    (((delete flags_table created created "banner" "bob").0 ≡ done true)
      × Removal.IsDeleted flags_table created created
          (delete flags_table created created "banner" "bob").1
          "banner"
          "bob")
    ⊎ (((delete flags_table created created "banner" "bob").0 ≢ done true)
        × ((delete flags_table created created "banner" "bob").1 ≡ created))
delete_done_example = Removal.delete_done flags_table created created "banner" "bob"

abbrev theme : FlagCreate
theme = record banner {
  key = "theme";
  rollout_percentage = 50;
  variants =
      record { key = "light"; value = str "#fff"; weight = 40 }
      ∷ record { key = "dark"; value = str "#000"; weight = 60 }
      ∷ [];
  off_variant = some "light";
}

validate_create-IsServable_example : Valid.IsServable (flag_from_input theme)
unfolding validate_create matches_key valid_variant valid_rule validate_variants check_rule_variants
validate_create-IsServable_example = Valid.validate_create-IsServable theme refl
