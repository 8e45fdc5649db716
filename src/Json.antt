-- ===== src/Json.antt =====
-- JSON values: what a variant's payload, an audit entry's details and a cached flag are made of.
-- A number is an integer, or the text of any other number, which the program never computes with.
use ripcord.Prelude.{
  ℕ, String, Bool, true, false, leb, List, [], ◌∷◌, Option, none, some, ◌==◌, if◌then◌else◌,
}

-- `negsuc n` is -(n + 1).
pub data ℤ : Type 0 where
  pos : ℕ → ℤ
  negsuc : ℕ → ℤ

-- `a <= b`
unfoldable pub int_le : ℤ → ℤ → Bool
int_le (pos m) (pos n) = leb m n
int_le (pos m) (negsuc n) = false
int_le (negsuc m) (pos n) = true
int_le (negsuc m) (negsuc n) = leb n m

mutual
  pub data Json : Type 0 where
    null : Json
    bool : Bool → Json
    int : ℤ → Json
    real : String → Json
    str : String → Json
    arr : Items → Json
    obj : Fields → Json

  pub data Items : Type 0 where
    nil : Items
    cons : Json → Items → Items

  pub data Fields : Type 0 where
    end : Fields
    field : String → Json → Fields → Fields

-- `json.loads` keeps the last of two fields with one name; the program writes no such object.
unfoldable pub get_field : String → Fields → Option Json
get_field k end = none
get_field k (field j v fs) = if j == k then some v else get_field k fs

abbrev pub items : List Json → Items
items [] = nil
items (x ∷ xs) = cons x (items xs)

abbrev pub list_of : Items → List Json
list_of nil = []
list_of (cons x xs) = x ∷ list_of xs
