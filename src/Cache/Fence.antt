-- ===== src/Cache/Fence.antt =====
-- ripcord/cache.py: the cached fields and the counter under `write_ruleset` and
-- `notify_flag_change`.
use ripcord.Prelude.{
  ℕ, String, ◌≡◌, refl, sym, ap, ◌∙◌, Bool, true, false, ◌||◌, ◌⊎◌, Option, none, some, arith, ◌==◌,
  eq_iff, is_some, Bool-cases, Option-cases, inl, inr, if◌then◌else◌,
}
use ripcord.Prelude.Dict
use ripcord.Prelude.Dict.{Dict, get-put}
use ripcord.Cache.Redis.{Redis}
use ripcord.Cache.Ruleset.{
  ruleset_key, complete_field, epoch_key, changes_channel, ruleset_ttl_seconds, landed,
  text_or_zero, read_epoch, publish_ruleset, write_ruleset, write_field, notify_rest,
}

-- What a change leaves of its flag: nothing, or its payload.
abbrev pub announced : String → Option String → Option String
announced action payload = if action == "deleted" then none else payload

-- A change as the routes announce it: a deletion, or one with a payload.
abbrev pub is_announced : String → Option String → Bool
is_announced action payload = action == "deleted" || is_some payload

module _ (redis : Redis) where
  open redis use {
    State, hget, hset, hdel, delete, expire_if_unset, publish, incr, replace, count, print,
    print-zero, print_nonempty, print_injective, get_text, get_text-count, get_text-print,
    hget-replace, count-replace, hget-hset, hget-hdel, hget-delete, hget-expire, hget-publish,
    count-hset, count-hdel, count-delete, count-expire, count-publish,
  }

  -- The text that `read_epoch` returns is the counter's.
  pub read_epoch-print : (s : State) → read_epoch redis s ≡ print (count s epoch_key)
  unfolding read_epoch text_or_zero
  read_epoch-print s = elim (Option-cases (get_text s epoch_key)) [
    | inl unset ↦ ground (arith, get_text-count s epoch_key unset, print-zero)
    | inr (text, set) ↦
        ground (arith, get_text-print s epoch_key text set, print_nonempty (count s epoch_key))
  ]

  -- A rebuild that was given a printed epoch lands only if the counter still has that value at its
  -- WATCH and is not written before its EXEC, and then it publishes its mapping with the marker.
  pub write_ruleset_landed :
      (watched s : State) (touched : Bool) (mapping : Dict String) (expected : String) (n : ℕ)
      → expected ≡ print n
      → (write_ruleset redis watched s touched mapping (some expected)).0 ≡ landed
      → (count watched epoch_key ≡ n)
        × (touched ≡ false)
        × (replace s ruleset_key (Dict.put mapping complete_field "1") ruleset_ttl_seconds
            ≡ some (write_ruleset redis watched s touched mapping (some expected)).1)
  unfolding write_ruleset publish_ruleset
  write_ruleset_landed watched s touched mapping expected n printed h =
      elim (Bool-cases (read_epoch redis watched == expected)) [
        | inr moved ↦ absurd (ground arith)
        | inl same ↦
            let texts : print (count watched epoch_key) ≡ print n =
              sym (read_epoch-print watched) ∙ (eq_iff _ _).0 same ∙ printed in
            elim (Bool-cases touched) [
              | inl t ↦ absurd (ground arith)
              | inr t ↦
                  elim (Option-cases (
                    replace s ruleset_key (Dict.put mapping complete_field "1")
                      ruleset_ttl_seconds)) [
                        | inl failed ↦ absurd (ground arith)
                        | inr (u, done) ↦ (print_injective _ _ texts, t, ground arith)
                      ]
            ]
      ]

  -- A rebuild that does not land changes nothing.
  pub write_ruleset_cases :
      (watched s : State) (touched : Bool) (mapping : Dict String) (expected : Option String)
      → ((write_ruleset redis watched s touched mapping expected).1 ≡ s)
        ⊎ ((write_ruleset redis watched s touched mapping expected).0 ≡ landed)
  unfolding write_ruleset publish_ruleset
  write_ruleset_cases watched s touched mapping none = ground arith
  write_ruleset_cases watched s touched mapping (some e) = ground arith

  -- The two commands of a deletion that is announced without an error.
  notify_deleted :
      (message : String → String → String) (s : State) (flag_key action : String)
      (payload : Option String)
      → (action == "deleted") ≡ true
      → (notify_rest redis message s flag_key action payload).0 ≡ true
      → (t : State) × (hdel s ruleset_key flag_key ≡ some t)
        × (publish t changes_channel (message flag_key action)
            ≡ some (notify_rest redis message s flag_key action payload).1)
  unfolding notify_rest write_field
  notify_deleted message s flag_key action payload gone h =
      elim (Option-cases (hdel s ruleset_key flag_key)) [
        | inl failed ↦ absurd (ground arith)
        | inr (t, done) ↦ (t, done, ground arith)
      ]

  -- The three commands of any other change.
  notify_changed :
      (message : String → String → String) (s : State) (flag_key action text : String)
      → (action == "deleted") ≡ false
      → (notify_rest redis message s flag_key action (some text)).0 ≡ true
      → (t : State) × (u : State) × (hset s ruleset_key flag_key text ≡ some t)
        × (expire_if_unset t ruleset_key ruleset_ttl_seconds ≡ some u)
        × (publish u changes_channel (message flag_key action)
            ≡ some (notify_rest redis message s flag_key action (some text)).1)
  unfolding notify_rest write_field
  notify_changed message s flag_key action text other h =
      elim (Option-cases (hset s ruleset_key flag_key text)) [
        | inl failed ↦ absurd (ground arith)
        | inr (t, done) ↦ elim (Option-cases (expire_if_unset t ruleset_key ruleset_ttl_seconds)) [
          | inl failed ↦ absurd (ground arith)
          | inr (u, expires) ↦ (t, u, done, expires, ground arith)
        ]
      ]

  -- After a change of a flag has been announced without an error the cache holds that flag's new
  -- payload, or none if it was deleted, and every other field is as before.
  pub hget-notify :
      (message : String → String → String) (s : State) (flag_key action k : String)
      (payload : Option String)
      → is_announced action payload ≡ true
      → (notify_rest redis message s flag_key action payload).0 ≡ true
      → hget (notify_rest redis message s flag_key action payload).1 ruleset_key k
        ≡ (if flag_key == k then announced action payload else hget s ruleset_key k)
  hget-notify message s flag_key action k payload proper h =
      elim (Bool-cases (action == "deleted")) [
        | inl gone ↦
            let (t, done, published) = notify_deleted message s flag_key action payload gone h in
            hget-publish t _ changes_channel (message flag_key action) ruleset_key k published
            ∙ hget-hdel s t ruleset_key flag_key ruleset_key k done
            ∙ rw gone refl
        | inr kept ↦ elim (Option-cases payload) [
          | inl nothing ↦ absurd (ground arith)
          | inr (text, given) ↦
              let (t, u, done, expires, published) =
                notify_changed message s flag_key action text kept
                  (ap (λ o. (notify_rest redis message s flag_key action o).0) (sym given) ∙ h) in
              ap (λ o. hget (notify_rest redis message s flag_key action o).1 ruleset_key k) given
              ∙ hget-publish u _ changes_channel (message flag_key action) ruleset_key k published
              ∙ hget-expire t u ruleset_key ruleset_key k ruleset_ttl_seconds expires
              ∙ hget-hset s t ruleset_key flag_key text ruleset_key k done
              ∙ rw (kept, given) refl
        ]
      ]

  -- The announcement leaves the counter to the bump before it.
  pub count-notify :
      (message : String → String → String) (s : State) (flag_key action : String)
      (payload : Option String)
      → is_announced action payload ≡ true
      → (notify_rest redis message s flag_key action payload).0 ≡ true
      → count (notify_rest redis message s flag_key action payload).1 epoch_key ≡ count s epoch_key
  count-notify message s flag_key action payload proper h =
      elim (Bool-cases (action == "deleted")) [
        | inl gone ↦
            let (t, done, published) = notify_deleted message s flag_key action payload gone h in
            count-publish t _ changes_channel (message flag_key action) epoch_key published
            ∙ count-hdel s t ruleset_key flag_key epoch_key done
        | inr kept ↦ elim (Option-cases payload) [
          | inl nothing ↦ absurd (ground arith)
          | inr (text, given) ↦
              let (t, u, done, expires, published) =
                notify_changed message s flag_key action text kept
                  (ap (λ o. (notify_rest redis message s flag_key action o).0) (sym given) ∙ h) in
              ap (λ o. count (notify_rest redis message s flag_key action o).1 epoch_key) given
              ∙ count-publish u _ changes_channel (message flag_key action) epoch_key published
              ∙ count-expire t u ruleset_key epoch_key ruleset_ttl_seconds expires
              ∙ count-hset s t ruleset_key flag_key text epoch_key done
        ]
      ]
