-- ===== src/Metrics.antt =====
-- ripcord/metrics.py: what the middleware records of a request, and `evaluation_counts`. The registry
-- is its counters and the number of observed latencies; the clock is not modelled.
use Prim.Native.Char.{code}
use ripcord.Prelude.{
  ℕ, ◌+◌, String, Bool, true, false, not, Option, none, some, List, [], ◌∷◌, ◌==◌, if◌then◌else◌,
}
use ripcord.Prelude.Dict
use ripcord.Prelude.Dict.{Dict}

-- A message of the application: the start of a response with its status, or another.
pub data Message : Type 0 where
  response_start : ℕ → Message
  other_message : Message

pub record Scope : Type 0 where
  pub kind : String
  pub method : Option String
  pub path : Option String

-- `http_requests_total` by method and status, newest first, and how many latencies were observed.
pub record Registry : Type 0 where
  pub requests : List (String × ℕ)
  pub latencies : ℕ

-- `status["code"]`, which starts as 500, after the messages that were sent.
unfoldable pub last_status : ℕ → List Message → ℕ
last_status code [] = code
last_status code (response_start status ∷ messages) = last_status status messages
last_status code (other_message ∷ messages) = last_status code messages

abbrev pub method_or_get : Option String → String
method_or_get none = "GET"
method_or_get (some method) = method

abbrev pub is_stream : Option String → Bool
is_stream none = false
is_stream (some path) = path == "/stream"

-- `__call__`, for the messages that the application sends before it returns or raises.
unfoldable pub record_request : Scope → List Message → Registry → Registry
unfolding last_status
record_request scope messages registry = if not (scope.kind == "http") then registry else record {
  requests = (method_or_get scope.method, last_status 500 messages) ∷ registry.requests;
  latencies = if not (is_stream scope.path) then registry.latencies + 1 else registry.latencies;
}

-- A sample of the evaluation counter.
pub record Sample : Type 0 where
  pub name : String
  pub result : Option String
  pub value : ℕ

-- `name.endswith(suffix)`
unfoldable pub ends_with : String → String → Bool
ends_with suffix String.[] = suffix == ""
ends_with suffix (String.◌∷◌ c s) =
    let rest = ends_with suffix s in if suffix == String.◌∷◌ c s then true else rest

-- The loop over the samples, on the counts so far.
unfoldable pub count_samples : List Sample → Dict ℕ → Dict ℕ
unfolding ends_with
count_samples [] counts = counts
count_samples (sample ∷ samples) counts =
    if not (ends_with "_total" sample.name)
    then count_samples samples counts
    else elim sample.result [
      | none ↦ count_samples samples counts
      | some result ↦ count_samples samples (Dict.put counts result sample.value)
    ]

unfoldable pub evaluation_counts : List Sample → Dict ℕ
unfolding count_samples
evaluation_counts samples = count_samples samples []
