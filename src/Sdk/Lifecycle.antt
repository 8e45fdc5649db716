-- ===== src/Sdk/Lifecycle.antt =====
-- ripcord/sdk/client.py: `RipcordClient`'s construction, `start` and `close`. The HTTP client is what
-- the program sets of it: where it connects, its headers, whether it was closed. The watch task is
-- whether one runs. The names of headers are taken to be spelled as they are here.
use ripcord.Prelude.{String, Bool, true, false, Option, none, some, [], ◌∷◌, if◌then◌else◌}
use ripcord.Prelude.Dict
use ripcord.Prelude.Dict.{Dict}
use ripcord.Engine.Spec.{FlagSpec}
use ripcord.Auth.Guard.{given}
use ripcord.Logging.{glue}
use ripcord.Sdk.Client.{Response, refresh}

pub record Http : Type 0 where
  pub base_url : Option String
  pub headers : Dict String
  pub closed : Bool

pub record RipcordClient : Type 0 where
  pub http : Http
  pub owns_http : Bool
  pub flags : Dict FlagSpec
  pub watching : Bool
  pub stopped : Bool

-- `none` is ValueError.
abbrev pub Made : Type 0
Made = Option RipcordClient

-- `{"Authorization": f"Bearer {api_key}"} if api_key else {}`
unfoldable pub headers_of : Option String → Dict String
headers_of none = []
headers_of (some api_key) =
    if given (some api_key) then ("Authorization", glue "Bearer " api_key) ∷ [] else []

-- `headers.update(headers)`
unfoldable pub update_headers : Dict String → Dict String → Dict String
update_headers headers [] = headers
update_headers headers ((name, value) ∷ more) = update_headers (Dict.put headers name value) more

abbrev with_http : Http → Bool → RipcordClient
with_http http owns = record {
  http = http;
  owns_http = owns;
  flags = [];
  watching = false;
  stopped = false;
}

-- `__init__`: the base URL, the key and the caller's own HTTP client.
unfoldable pub new_client : Option String → Option String → Option Http → Made
unfolding headers_of update_headers
new_client base_url api_key (some http) =
    some
      (with_http (record http { headers = update_headers http.headers (headers_of api_key) }) false)
new_client (some base_url) api_key none = some (
    with_http (record { base_url = some base_url; headers = headers_of api_key; closed = false })
      true)
new_client none api_key none = none

-- `start`, for what the request for the ruleset brings.
unfoldable pub start : RipcordClient → Option Response → Bool → RipcordClient
start client answer watch = record client {
  flags = refresh client.flags answer;
  watching = if watch then true else client.watching;
}

unfoldable pub close : RipcordClient → RipcordClient
close client = record client {
  stopped = true;
  watching = false;
  http = record {
    base_url = client.http.base_url;
    headers = client.http.headers;
    closed = if client.owns_http then true else client.http.closed;
  };
}
