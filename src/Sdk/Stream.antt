-- ===== src/Sdk/Stream.antt =====
-- ripcord/sdk/client.py, `_watch`, on the stream that ripcord/api/realtime.py sends. How an event is
-- written on the wire is a parameter.
use Prim.Native.Char.{code}
use ripcord.Prelude.{
  ℕ, zero, suc, ◌+◌, String, ◌≡◌, refl, ap, ◌∙◌, sym, Bool, true, not, ◌&&◌, ◌||◌, Option, none,
  some, List, [], ◌∷◌, ◌++◌, eqb, leb, arith, all,
}
use ripcord.Auth.Guard.{strip, strip_left, strip_right, is_space}
use ripcord.Logging.{glue}
use ripcord.Api.Realtime.{Event, change_events, flag_change_events}
use ripcord.Sdk.Client.{Response, refresh}
use ripcord.Sdk.Watch.{Watching, after_prefix, fetch, read_line, read_lines, read_connection}

-- Where `splitlines` ends a line.
abbrev is_break : ℕ → Bool
is_break c =
    (leb 10 c && leb c 13) || (leb 28 c && leb c 30) || eqb c 133 || eqb c 8232 || eqb c 8233

-- No line break in a text.
abbrev pub is_line : String → Bool
is_line String.[] = true
is_line (String.◌∷◌ c s) = not (is_break (code c)) && is_line s

-- The lines of one event, with a data that is one line.
abbrev pub event_lines : Event → List String
event_lines e = glue "event: " e.event ∷ glue "data: " e.«data» ∷ "" ∷ []

-- The lines of a ping of the stream, a comment.
abbrev pub ping_lines : String → List String
ping_lines text = glue ": ping - " text ∷ "" ∷ []

-- What the server sends: an event, or a ping between two of them.
pub data Sent : Type 0 where
  event : Event → Sent
  ping : String → Sent

abbrev pub events_of : List Sent → List Event
events_of [] = []
events_of (event e ∷ sent) = e ∷ events_of sent
events_of (ping text ∷ sent) = events_of sent

abbrev pub lines_of : (Sent → List String) → List Sent → List String
lines_of wire [] = []
lines_of wire (item ∷ sent) = wire item ++ lines_of wire sent

-- The format of an event stream, for events and pings of one line.
pub record IsWire (wire : Sent → List String) : Type 0 where
  pub wire-event :
      (e : Event) → is_line e.event && is_line e.«data» ≡ true → wire (event e) ≡ event_lines e
  pub wire-ping : (text : String) → is_line text ≡ true → wire (ping text) ≡ ping_lines text

abbrev pub one_line : Sent → Bool
one_line (event e) = is_line e.event && is_line e.«data»
one_line (ping text) = is_line text

abbrev pub count_changes : List (Option String) → ℕ
count_changes [] = 0
count_changes (none ∷ messages) = count_changes messages
count_changes (some text ∷ messages) = suc (count_changes messages)

cons_head : (e d : Event) (es ds : List Event) → e ∷ es ≡ d ∷ ds → e ≡ d
cons_head e d es ds h = cc

cons_tail : (e d : Event) (es ds : List Event) → e ∷ es ≡ d ∷ ds → es ≡ ds
cons_tail e d es ds h = cc

count-none :
    (messages : List (Option String)) → [] ≡ change_events messages → count_changes messages ≡ 0
unfolding change_events
count-none [] h = refl
count-none (none ∷ messages) h = count-none messages h
count-none (some text ∷ messages) h = absurd (cc)

-- The first event of the changes is the first message.
change_events-cons :
    (messages : List (Option String)) (e : Event) (es : List Event)
    → e ∷ es ≡ change_events messages
    → (text : String) × (rest : List (Option String)) × (e
        ≡ record { event = "flag-change"; «data» = text })
      × (es ≡ change_events rest)
      × (count_changes messages ≡ suc (count_changes rest))
unfolding change_events
change_events-cons [] e es h = absurd (cc)
change_events-cons (none ∷ messages) e es h = change_events-cons messages e es h
change_events-cons (some text ∷ messages) e es h =
    (text, messages, cons_head e _ es _ h, cons_tail e _ es _ h, refl)

module _ (answers : ℕ → Option Response) where
  -- So many fetches in a row.
  abbrev pub fetch_times : ℕ → Watching → Watching
  fetch_times zero w = w
  fetch_times (suc n) w = fetch_times n (fetch answers w)

  read_lines-append :
      (w : Watching) (a b : List String)
      → read_lines answers w (a ++ b) ≡ read_lines answers (read_lines answers w a) b
  unfolding read_lines
  read_lines-append w [] b = refl
  read_lines-append w (line ∷ a) b = read_lines-append (read_line answers w line) a b

  read_event :
      (w : Watching) (text : String)
      → w.event ≡ none
      → read_lines answers w (event_lines (record { event = "flag-change"; «data» = text }))
        ≡ fetch answers w
  unfolding read_lines read_line after_prefix fetch strip strip_left strip_right is_space
  read_event w text quiet =
      ap
        (λ e. record {
          event = e;
          flags = refresh w.flags (answers w.fetches);
          fetches = w.fetches + 1;
        })
        (sym quiet)

  quiet_again : (w : Watching) → w.event ≡ none → record w { event = none } ≡ w
  quiet_again w quiet =
      ap (λ e. record { event = e; flags = w.flags; fetches = w.fetches }) (sym quiet)

  fetch-quiet : (w : Watching) → w.event ≡ none → (fetch answers w).event ≡ none
  unfolding fetch
  fetch-quiet w quiet = quiet

  read_connected :
      (w : Watching)
      → w.event ≡ none
      → read_lines answers w (event_lines (record { event = "connected"; «data» = "ok" })) ≡ w
  unfolding read_lines read_line after_prefix strip strip_left strip_right is_space
  read_connected w quiet = quiet_again w quiet

  read_ping :
      (w : Watching) (text : String) → w.event ≡ none → read_lines answers w (ping_lines text) ≡ w
  unfolding read_lines read_line after_prefix
  read_ping w text quiet = quiet_again w quiet

  -- The changes, after the first event.
  read_sent :
      (wire : Sent → List String) (sent : List Sent) (messages : List (Option String))
      (w : Watching)
      → IsWire wire
      → all one_line sent ≡ true
      → events_of sent ≡ change_events messages
      → w.event ≡ none
      → read_lines answers w (lines_of wire sent) ≡ fetch_times (count_changes messages) w
  unfolding read_lines
  read_sent wire [] messages w is_wire short same quiet =
      ap (λ n. fetch_times n w) (sym (count-none messages same))
  read_sent wire (ping text ∷ sent) messages w is_wire short same quiet =
      read_lines-append w (wire (ping text)) (lines_of wire sent)
      ∙ ap (λ ls. read_lines answers (read_lines answers w ls) (lines_of wire sent))
          (is_wire.wire-ping text (ground arith))
      ∙ ap (λ v. read_lines answers v (lines_of wire sent)) (read_ping w text quiet)
      ∙ read_sent wire sent messages w is_wire (ground arith) same quiet
  read_sent wire (event e ∷ sent) messages w is_wire short same quiet =
      let (text, rest, is_this, later, counted) =
        change_events-cons messages e (events_of sent) same in
      read_lines-append w (wire (event e)) (lines_of wire sent)
      ∙ ap (λ ls. read_lines answers (read_lines answers w ls) (lines_of wire sent))
          (is_wire.wire-event e (ground arith))
      ∙ ap (λ v. read_lines answers (read_lines answers w (event_lines v)) (lines_of wire sent))
          is_this
      ∙ ap (λ v. read_lines answers v (lines_of wire sent)) (read_event w text quiet)
      ∙ read_sent wire sent rest (fetch answers w) is_wire (ground arith) later
          (fetch-quiet w quiet)
      ∙ ap (λ n. fetch_times n w) (sym counted)

  -- A client on the stream of the changes that a subscription brings, with pings anywhere between
  -- the events, each event and ping of one line and in the format of event streams, fetches the
  -- ruleset once for each message and for nothing else.
  pub read_connection_lem :
      (wire : Sent → List String) (sent : List Sent) (messages : List (Option String))
      (w : Watching)
      → IsWire wire
      → all one_line sent ≡ true
      → events_of sent ≡ flag_change_events messages
      → read_connection answers w (lines_of wire sent)
        ≡ fetch_times (count_changes messages) (record w { event = none })
  unfolding read_connection flag_change_events read_lines
  read_connection_lem wire [] messages w is_wire short same = absurd (cc)
  read_connection_lem wire (ping text ∷ sent) messages w is_wire short same =
      read_lines-append (record w { event = none }) (wire (ping text)) (lines_of wire sent)
      ∙ ap
          (λ ls.
            read_lines answers (read_lines answers (record w { event = none }) ls)
              (lines_of wire sent))
          (is_wire.wire-ping text (ground arith))
      ∙ ap (λ v. read_lines answers v (lines_of wire sent))
          (read_ping (record w { event = none }) text refl)
      ∙ read_connection_lem wire sent messages w is_wire (ground arith) same
  read_connection_lem wire (event e ∷ sent) messages w is_wire short same =
      read_lines-append (record w { event = none }) (wire (event e)) (lines_of wire sent)
      ∙ ap
          (λ ls.
            read_lines answers (read_lines answers (record w { event = none }) ls)
              (lines_of wire sent))
          (is_wire.wire-event e (ground arith))
      ∙ ap
          (λ v.
            read_lines answers (read_lines answers (record w { event = none }) (event_lines v))
              (lines_of wire sent))
          (cons_head e _ _ _ same)
      ∙ ap (λ v. read_lines answers v (lines_of wire sent))
          (read_connected (record w { event = none }) refl)
      ∙ read_sent wire sent messages (record w { event = none }) is_wire (ground arith)
          (cons_tail e _ _ _ same) refl
