-- ===== src/Tests/Stream.antt =====
-- Runs of the SDK's watch loop.
use ripcord.Prelude.{
  ℕ, zero, suc, ◌≡◌, refl, String, true, false, Option, none, some, List, [], ◌∷◌,
}
use ripcord.Auth.Guard.{strip, strip_left, strip_right, is_space}
use ripcord.Api.Realtime.{change_events, flag_change_events}
use ripcord.Sdk.Client.{Response}
use ripcord.Sdk.Watch.{
  Watching, Connection, after_prefix, fetch, read_line, read_lines, read_connection, watch,
}
use ripcord.Sdk.Stream
use ripcord.Sdk.Stream.{
  Sent, event, ping, IsWire, event_lines, ping_lines, lines_of, fetch_times, count_changes,
}

abbrev pub wire : Sent → List String
wire (event e) = event_lines e
wire (ping text) = ping_lines text

pub wire-IsWire : IsWire wire
wire-IsWire = record { wire-event = λ e h. refl; wire-ping = λ text h. refl }

-- A change, a timeout and another change, with a ping between them.
abbrev pub messages : List (Option String)
messages = some "{a}" ∷ none ∷ some "{b}" ∷ []

abbrev pub sent : List Sent
sent =
    event (record { event = "connected"; «data» = "ok" })
    ∷ event (record { event = "flag-change"; «data» = "{a}" })
    ∷ ping "10:00"
    ∷ event (record { event = "flag-change"; «data» = "{b}" })
    ∷ []

abbrev answers : ℕ → Option Response
answers n = none

abbrev pub idle : Watching
idle = record { event = none; flags = []; fetches = 1 }

two_fetches : (read_connection answers idle (lines_of wire sent)).fetches ≡ 3
unfolding read_connection read_lines read_line after_prefix fetch strip strip_left strip_right
    is_space
two_fetches = refl

read_connection_lem_example :
    read_connection answers idle (lines_of wire sent)
    ≡ fetch_times answers (count_changes messages) (record idle { event = none })
unfolding flag_change_events change_events
read_connection_lem_example =
    Stream.read_connection_lem answers wire sent messages idle wire-IsWire refl refl

-- The first connection drops; the client is stopped during the second.
abbrev connections : ℕ → Connection
connections zero = record {
  lines = "event: connected" ∷ [];
  stopped = false;
  stopped_later = false;
}
connections (suc n) = record { lines = []; stopped = true; stopped_later = true }

one_sleep :
    watch answers connections false 5 0 idle
    ≡ some (read_connection answers (read_connection answers idle ("event: connected" ∷ [])) [], 1)
unfolding watch
one_sleep = refl

stopped_before : watch answers connections true 0 0 idle ≡ some (idle, 0)
unfolding watch
stopped_before = refl
