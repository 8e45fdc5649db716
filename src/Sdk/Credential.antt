-- ===== src/Sdk/Credential.antt =====
-- ripcord/sdk/client.py and ripcord/auth.py: the key that a client is given, on its way to the server.
use Prim.Native.Char.{code}
use ripcord.Prelude.{
  String, ◌≡◌, refl, ap, ◌∙◌, sym, Bool, true, false, not, ◌&&◌, Option, none, some, arith,
}
use ripcord.Prelude.Dict
use ripcord.Prelude.Dict.{Dict, get-put}
use ripcord.Auth.Key.{is_empty_text}
use ripcord.Auth.Guard.{
  Request, is_space, strip, strip_left, strip_right, partition_space, is_bearer, same_codes,
  bearer_value, extract_credential,
}
use ripcord.Logging.{glue}
use ripcord.Sdk.Lifecycle.{Http, Made, RipcordClient, headers_of, update_headers, new_client}

-- No white space in a text.
abbrev pub is_solid : String → Bool
is_solid String.[] = true
is_solid (String.◌∷◌ c s) = not (is_space (code c)) && is_solid s

strip_left-solid : (s : String) → is_solid s ≡ true → strip_left s ≡ s
unfolding strip_left
strip_left-solid String.[] h = refl
strip_left-solid (String.◌∷◌ c s) h = ground arith

strip_right-solid : (s : String) → is_solid s ≡ true → strip_right s ≡ s
unfolding strip_right
strip_right-solid String.[] h = refl
strip_right-solid (String.◌∷◌ c s) h = ground (arith, strip_right-solid s)

strip-solid : (s : String) → is_solid s ≡ true → strip s ≡ s
unfolding strip
strip-solid s h = ap strip_right (strip_left-solid s h) ∙ strip_right-solid s h

bearer_value-header :
    (key : String)
    → is_solid key ≡ true
    → is_empty_text key ≡ false
    → bearer_value (some (glue "Bearer " key)) ≡ some key
unfolding bearer_value partition_space is_bearer same_codes
bearer_value-header key solid there = rw there (ap some (strip-solid key solid))

-- What the server reads of a request that carries the client's headers.
abbrev pub request_of : RipcordClient → Request
request_of client = record {
  authorization = Dict.get client.http.headers "Authorization";
  x_api_key = none;
  query_api_key = none;
}

get-header :
    (headers : Dict String) (key : String)
    → is_empty_text key ≡ false
    → Dict.get (update_headers headers (headers_of (some key))) "Authorization"
      ≡ some (glue "Bearer " key)
unfolding update_headers headers_of
get-header headers key there =
    rw there (get-put headers "Authorization" "Authorization" (glue "Bearer " key))

get-headers_of :
    (key : String)
    → is_empty_text key ≡ false
    → Dict.get (headers_of (some key)) "Authorization" ≡ some (glue "Bearer " key)
unfolding headers_of Dict.get
get-headers_of key there = rw there refl

-- The header of a client, if there is one.
abbrev sent : Made → Option String
sent none = none
sent (some client) = Dict.get client.http.headers "Authorization"

new_client-header :
    (base_url : Option String) (key : String) (http : Option Http) (client : RipcordClient)
    → is_empty_text key ≡ false
    → new_client base_url (some key) http ≡ some client
    → Dict.get client.http.headers "Authorization" ≡ some (glue "Bearer " key)
unfolding new_client headers_of
new_client-header base_url key (some http) client there made =
    ap sent (sym made) ∙ get-header http.headers key there
new_client-header (some base_url) key none client there made =
    ap sent (sym made) ∙ get-headers_of key there
new_client-header none key none client there made = absurd (cc)

-- The server takes from the requests of a client exactly the key that the client was given, whether
-- it brought its own HTTP client or a base URL, if the key has a character and no white space.
pub extract_credential-new_client :
    (base_url : Option String) (key : String) (http : Option Http) (client : RipcordClient)
    (allow_query : Bool)
    → is_solid key ≡ true
    → is_empty_text key ≡ false
    → new_client base_url (some key) http ≡ some client
    → extract_credential (request_of client) allow_query ≡ some key
unfolding extract_credential bearer_value
extract_credential-new_client base_url key http client allow_query solid there made =
    rw (new_client-header base_url key http client there made, bearer_value-header key solid there)
      refl
