-- ===== src/Api/Realtime.antt =====
-- ripcord/api/realtime.py: the stream of changes, from what the subscription brings.
use ripcord.Prelude.{String, Option, none, some, List, [], ◌∷◌}

-- An event of the stream.
pub record Event : Type 0 where
  pub event : String
  pub «data» : String

-- The events after the first, for what each `get_message` returns: a message's data, or None.
unfoldable pub change_events : List (Option String) → List Event
change_events [] = []
change_events (none ∷ messages) = change_events messages
change_events (some text ∷ messages) =
    record { event = "flag-change"; «data» = text } ∷ change_events messages

unfoldable pub flag_change_events : List (Option String) → List Event
unfolding change_events
flag_change_events messages = record { event = "connected"; «data» = "ok" } ∷ change_events messages
