-- ===== src/Engine/Bucket.antt =====
-- ripcord/engine.py: `bucket_for` and `_in_rollout`. MD5 is a parameter: the function from a text to
-- the hexadecimal digest of its bytes.
use Prim.Native.Char.{code}
use Prim.Native.String.{◌++◌}
use ripcord.Prelude.{
  ℕ, zero, suc, ◌+◌, ◌-◌, ◌*◌, ◌/◌, ◌%◌, String, Bool, true, false, ◌&&◌, ltb, leb, if◌then◌else◌,
}

abbrev pub bucket_count : ℕ
bucket_count = 10000

abbrev pub variant_salt : String
variant_salt = "variant"

-- `digest[:n]`
unfoldable pub prefix : ℕ → String → String
prefix zero s = String.[]
prefix (suc n) String.[] = String.[]
prefix (suc n) (String.◌∷◌ c s) = String.◌∷◌ c (prefix n s)

-- The value of a hexadecimal digit; `hexdigest` prints lower case.
unfoldable pub hex_digit : ℕ → ℕ
hex_digit c = if leb b'0' c && leb c b'9' then c - b'0' else c - b'a' + 10

-- `int(s, 16)` on a digest's digits, after the digits that `acc` stands for.
unfoldable pub int_base16 : ℕ → String → ℕ
unfolding hex_digit
int_base16 acc String.[] = acc
int_base16 acc (String.◌∷◌ c s) = int_base16 (acc * 16 + hex_digit (code c)) s

-- `"\x00".join((flag_key, salt, user_id))`
unfoldable pub material : String → String → String → String
material flag_key user_id salt = flag_key ++ ("\0" ++ (salt ++ ("\0" ++ user_id)))

module _ (md5 : String → String) where
  unfoldable pub bucket_for : String → String → String → ℕ
  unfolding prefix int_base16
  bucket_for flag_key user_id salt =
      int_base16 0 (prefix 8 (md5 (material flag_key user_id salt))) % bucket_count

  -- The rollout test on the bucket that a user has.
  unfoldable pub in_rollout : String → String → ℕ → Bool
  in_rollout flag_key user_id rollout_percentage =
      if leb rollout_percentage 0
      then false
      else if leb 100 rollout_percentage
      then true
      else ltb (bucket_for flag_key user_id "") (rollout_percentage * (bucket_count / 100))
