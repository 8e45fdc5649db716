-- ===== src/Schemas/Evaluate.antt =====
-- ripcord/schemas.py: `EvaluateRequest` and its validator, `EvaluateResponse`, `Stats`.
use ripcord.Prelude.{
  ℕ, String, Bool, ◌||◌, Option, none, some, [], ◌∷◌, leb, ltb, length, if◌then◌else◌,
}
use ripcord.Prelude.Dict.{Dict}
use ripcord.Json.{Json}
use ripcord.Schemas.Validate.{
  Invalid, oversized_entry, text_length, check_field, has_length, or_check,
}

pub record EvaluateRequest : Type 0 where
  pub flag_key : String
  pub user_id : String
  pub context : Dict String

-- The first entry that is too large.
unfoldable pub bound_context_entries : Dict String → Option Invalid
bound_context_entries [] = none
bound_context_entries ((key, entry) ∷ context) =
    let rest = bound_context_entries context in
    if ltb 128 (text_length key) || ltb 512 (text_length entry)
    then some (oversized_entry key)
    else rest

unfoldable pub validate_evaluation : EvaluateRequest → Option Invalid
unfolding bound_context_entries
validate_evaluation payload = or_check (check_field "flag_key" (has_length 128 payload.flag_key)) (
    or_check (check_field "user_id" (has_length 256 payload.user_id)) (
      or_check (check_field "context" (leb (length payload.context) 64))
        (bound_context_entries payload.context)))

pub record EvaluateResponse : Type 0 where
  pub flag_key : String
  pub user_id : String
  pub enabled : Bool
  pub reason : String
  pub variant : Option String
  pub value : Json

pub record Stats : Type 0 where
  pub flags_total : ℕ
  pub flags_enabled : ℕ
  pub flags_disabled : ℕ
  pub evaluations_total : ℕ
  pub evaluations_by_result : Dict ℕ
