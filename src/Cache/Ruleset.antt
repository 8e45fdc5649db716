-- ===== src/Cache/Ruleset.antt =====
-- ripcord/cache.py: the cached ruleset, its fence and the change notification.
use ripcord.Prelude.{
  ℕ, String, Bool, true, false, not, Option, none, some, List, [], ◌∷◌, ◌==◌, is_some,
  if◌then◌else◌,
}
use ripcord.Prelude.Dict
use ripcord.Prelude.Dict.{Dict}
use ripcord.Cache.Redis.{Redis}

abbrev pub ruleset_key : String
ruleset_key = "ripcord:ruleset"

abbrev pub complete_field : String
complete_field = "__ruleset__"

abbrev pub epoch_key : String
epoch_key = "ripcord:ruleset:epoch"

abbrev pub changes_channel : String
changes_channel = "ripcord:flag-changes"

abbrev pub ruleset_ttl_seconds : ℕ
ruleset_ttl_seconds = 300

-- The answer of `read_flag`: a payload, False, or None.
pub data CachedFlag : Type 0 where
  hit : String → CachedFlag
  absent cold : CachedFlag

-- The values of a dict but for one key.
unfoldable pub values_except : String → Dict String → List String
values_except key [] = []
values_except key ((k, v) ∷ d) =
    let rest = values_except key d in if k == key then rest else v ∷ rest

-- `text or "0"`
unfoldable pub text_or_zero : Option String → String
text_or_zero none = "0"
text_or_zero (some text) = if text == "" then "0" else text

-- How a change ends: True, False, or an exception.
pub data Written : Type 0 where
  landed superseded raised : Written

module _ (redis : Redis) where
  open redis use {
    State, hget, hgetall, get_text, hset, hdel, delete, incr, expire_if_unset, publish, replace,
  }

  unfoldable pub read_ruleset : State → Option (List String)
  read_ruleset s =
      let entries = hgetall s ruleset_key in
      if not (is_some (Dict.get entries complete_field))
      then none
      else some (values_except complete_field entries)

  unfoldable pub read_flag : State → String → CachedFlag
  read_flag s flag_key = elim (hget s ruleset_key flag_key) [
    | some payload ↦ hit payload
    | none ↦ if is_some (hget s ruleset_key complete_field) then absent else cold
  ]

  unfoldable pub read_epoch : State → String
  read_epoch s = text_or_zero (get_text s epoch_key)

  -- The transaction, at the state that EXEC finds.
  unfoldable pub publish_ruleset : State → Dict String → Written × State
  publish_ruleset s mapping =
      elim (replace s ruleset_key (Dict.put mapping complete_field "1") ruleset_ttl_seconds) [
        | none ↦ (raised, s)
        | some t ↦ (landed, t)
      ]

  -- `write_ruleset`: the fence is read at the state `watched`, under WATCH; `touched` tells whether
  -- the counter was written after that and before EXEC, which then aborts.
  unfoldable pub write_ruleset :
      State → State → Bool → Dict String → Option String → Written × State
  write_ruleset watched s touched mapping none = publish_ruleset s mapping
  write_ruleset watched s touched mapping (some expected_epoch) =
      if not (read_epoch watched == expected_epoch)
      then (superseded, s)
      else if touched
      then (superseded, s)
      else publish_ruleset s mapping

  -- A command that raises ends the notification; what was written before it stays.
  abbrev pub attempt : State → Option State → Bool × State
  attempt s none = (false, s)
  attempt s (some t) = (true, t)

  abbrev pub then_attempt : Bool × State → (State → Option State) → Bool × State
  then_attempt (false, s) command = (false, s)
  then_attempt (true, s) command = attempt s (command s)

  -- The write of `notify_flag_change` to the hash, by action and payload.
  unfoldable pub write_field : State → String → String → Option String → Bool × State
  write_field s flag_key action payload =
      if action == "deleted" then attempt s (hdel s ruleset_key flag_key) else elim payload [
        | some text ↦
            then_attempt (attempt s (hset s ruleset_key flag_key text))
              (λ t. expire_if_unset t ruleset_key ruleset_ttl_seconds)
        | none ↦ attempt s (delete s ruleset_key)
      ]

  module _ (message : String → String → String) where
    -- What follows the bump of the counter; `message` prints the event.
    unfoldable pub notify_rest : State → String → String → Option String → Bool × State
    notify_rest s flag_key action payload =
        then_attempt (write_field s flag_key action payload)
          (λ t. publish t changes_channel (message flag_key action))

    unfoldable pub notify_flag_change : State → String → String → Option String → Bool × State
    notify_flag_change s flag_key action payload = elim (incr s epoch_key) [
      | none ↦ (false, s)
      | some t ↦ notify_rest t flag_key action payload
    ]
