-- ===== src/Sdk/Watch.antt =====
-- ripcord/sdk/client.py: `_watch`, over the lines that each connection brings. What the n-th request
-- for the ruleset brings is a parameter. The cancellation of the task by `close` and the time of the
-- sleeps are not modelled.
use Prim.Native.Char.{code}
use ripcord.Prelude.{
  ℕ, zero, suc, ◌+◌, String, Bool, false, ◌&&◌, ◌||◌, Option, none, some, List, [], ◌∷◌, ◌==◌, eqb,
  is_some, if◌then◌else◌,
}
use ripcord.Prelude.Dict.{Dict}
use ripcord.Engine.Spec.{FlagSpec}
use ripcord.Auth.Guard.{strip}
use ripcord.Auth.Key.{is_empty_text}
use ripcord.Sdk.Client.{Response, refresh}

-- What stands behind a prefix, if the text starts with it.
unfoldable pub after_prefix : String → String → Option String
after_prefix String.[] s = some s
after_prefix (String.◌∷◌ p prefix) String.[] = none
after_prefix (String.◌∷◌ p prefix) (String.◌∷◌ c s) =
    let rest = after_prefix prefix s in if eqb (code p) (code c) then rest else none

-- `event == "flag-change"`
abbrev pub is_change : Option String → Bool
is_change none = false
is_change (some event) = event == "flag-change"

-- The variable `event`, the client's copy of the ruleset, and how often it was fetched.
pub record Watching : Type 0 where
  pub event : Option String
  pub flags : Dict FlagSpec
  pub fetches : ℕ

-- The lines that a connection has brought when it ends or raises, and whether `_stopped` is set then
-- and after the sleep. A connection that does not end keeps the loop in its round.
pub record Connection : Type 0 where
  pub lines : List String
  pub stopped : Bool
  pub stopped_later : Bool

module _ (answers : ℕ → Option Response) where
  -- `await self.refresh()`
  unfoldable pub fetch : Watching → Watching
  fetch w = record {
    event = w.event;
    flags = refresh w.flags (answers w.fetches);
    fetches = w.fetches + 1;
  }

  unfoldable pub read_line : Watching → String → Watching
  unfolding after_prefix
  read_line w line = elim (after_prefix "event:" line) [
    | some rest ↦ record w { event = some (strip rest) }
    | none ↦
        if is_some (after_prefix "data:" line) && is_change w.event
        then fetch w
        else if is_empty_text line
        then record w { event = none }
        else w
  ]

  unfoldable pub read_lines : Watching → List String → Watching
  unfolding read_line
  read_lines w [] = w
  read_lines w (line ∷ lines) = read_lines (read_line w line) lines

  -- A connection starts with no event.
  unfoldable pub read_connection : Watching → List String → Watching
  unfolding read_lines
  read_connection w lines = read_lines (record w { event = none }) lines

  -- The loop from its n-th round on, with `_stopped` as its test finds it; `none` is a loop that has
  -- not ended yet. The second component counts the sleeps.
  unfoldable pub watch : (ℕ → Connection) → Bool → ℕ → ℕ → Watching → Option (Watching × ℕ)
  unfolding read_connection
  watch connections stopped zero n w = if stopped then some (w, 0) else none
  watch connections stopped (suc fuel) n w =
      let c = connections n in
      let after = read_connection w c.lines in
      let rest = watch connections (c.stopped || c.stopped_later) fuel (suc n) after in
      if stopped
      then some (w, 0)
      else if c.stopped
      then rest
      else elim rest [ none ↦ none | some (last, sleeps) ↦ some (last, suc sleeps) ]
