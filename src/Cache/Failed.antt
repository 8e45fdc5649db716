-- ===== src/Cache/Failed.antt =====
-- ripcord/cache.py: what a notification leaves that a failing command ended.
use ripcord.Prelude.{
  String, ◌≡◌, refl, ◌∙◌, Bool, true, false, Option, some, arith, ◌==◌, Bool-cases, Option-cases,
  inl, inr,
}
use ripcord.Cache.Redis.{Redis}
use ripcord.Cache.Ruleset.{
  ruleset_key, epoch_key, changes_channel, ruleset_ttl_seconds, write_field, notify_rest,
  then_attempt,
}
use ripcord.Cache.Fence.{is_announced}

module _ (redis : Redis) (message : String → String → String) where
  open redis use {
    State, hget, hset, hdel, expire_if_unset, publish, count, hget-hset, hget-hdel, hget-expire,
    hget-publish, count-hset, count-hdel, count-expire, count-publish,
  }

  -- A state that differs from another one in a field of the ruleset at most.
  pub record IsApart (flag_key : String) (s t : State) : Type 0 where
    pub fields :
        (k : String) → (flag_key == k) ≡ false → hget t ruleset_key k ≡ hget s ruleset_key k
    pub counter : count t epoch_key ≡ count s epoch_key

  hset-IsApart :
      (s t : State) (flag_key text : String)
      → hset s ruleset_key flag_key text ≡ some t
      → IsApart flag_key s t
  hset-IsApart s t flag_key text h = record {
    fields = λ k other. hget-hset s t ruleset_key flag_key text ruleset_key k h ∙ rw other refl;
    counter = count-hset s t ruleset_key flag_key text epoch_key h;
  }

  hdel-IsApart :
      (s t : State) (flag_key : String)
      → hdel s ruleset_key flag_key ≡ some t
      → IsApart flag_key s t
  hdel-IsApart s t flag_key h = record {
    fields = λ k other. hget-hdel s t ruleset_key flag_key ruleset_key k h ∙ rw other refl;
    counter = count-hdel s t ruleset_key flag_key epoch_key h;
  }

  expire-IsApart :
      (s t u : State) (flag_key : String)
      → IsApart flag_key s t
      → expire_if_unset t ruleset_key ruleset_ttl_seconds ≡ some u
      → IsApart flag_key s u
  expire-IsApart s t u flag_key a h = record {
    fields = λ k other.
        hget-expire t u ruleset_key ruleset_key k ruleset_ttl_seconds h ∙ a.fields k other;
    counter = count-expire t u ruleset_key epoch_key ruleset_ttl_seconds h ∙ a.counter;
  }

  publish-IsApart :
      (s t u : State) (flag_key text : String)
      → IsApart flag_key s t
      → publish t changes_channel text ≡ some u
      → IsApart flag_key s u
  publish-IsApart s t u flag_key text a h = record {
    fields = λ k other. hget-publish t u changes_channel text ruleset_key k h ∙ a.fields k other;
    counter = count-publish t u changes_channel text epoch_key h ∙ a.counter;
  }

  same-IsApart : (s : State) (flag_key : String) → IsApart flag_key s s
  same-IsApart s flag_key = record { fields = λ k other. refl; counter = refl }

  write_field-IsApart :
      (s : State) (flag_key action : String) (payload : Option String)
      → is_announced action payload ≡ true
      → IsApart flag_key s (write_field redis s flag_key action payload).1
  unfolding write_field
  write_field-IsApart s flag_key action payload proper = elim (Bool-cases (action == "deleted")) [
    | inl gone ↦ elim (Option-cases (hdel s ruleset_key flag_key)) [
      | inl failed ↦ rw (gone, failed, write_field) (same-IsApart s flag_key)
      | inr (t, done) ↦ rw (gone, done, write_field) (hdel-IsApart s t flag_key done)
    ]
    | inr kept ↦ elim (Option-cases payload) [
      | inl nothing ↦ absurd (ground arith)
      | inr (text, given) ↦ elim (Option-cases (hset s ruleset_key flag_key text)) [
        | inl failed ↦ rw (kept, given, failed, write_field) (same-IsApart s flag_key)
        | inr (t, done) ↦
            let a = hset-IsApart s t flag_key text done in
            elim (Option-cases (expire_if_unset t ruleset_key ruleset_ttl_seconds)) [
              | inl failed ↦ rw (kept, given, done, failed, write_field) a
              | inr (u, expires) ↦
                  rw (kept, given, done, expires, write_field)
                    (expire-IsApart s t u flag_key a expires)
            ]
      ]
    ]
  ]

  publish_after-IsApart :
      (s : State) (flag_key text : String) (r : Bool × State)
      → IsApart flag_key s r.1
      → IsApart flag_key s (then_attempt redis r (λ t. publish t changes_channel text)).1
  publish_after-IsApart s flag_key text (false, t) a = a
  publish_after-IsApart s flag_key text (true, t) a =
      elim (Option-cases (publish t changes_channel text)) [
        | inl failed ↦ rw failed a
        | inr (u, sent) ↦ rw sent (publish-IsApart s t u flag_key text a sent)
      ]

  -- A notification touches the field of its own flag at most, wherever it ends, and leaves the counter.
  pub notify_rest-IsApart :
      (s : State) (flag_key action : String) (payload : Option String)
      → is_announced action payload ≡ true
      → IsApart flag_key s (notify_rest redis message s flag_key action payload).1
  unfolding notify_rest
  notify_rest-IsApart s flag_key action payload proper =
      publish_after-IsApart s flag_key (message flag_key action)
        (write_field redis s flag_key action payload)
        (write_field-IsApart s flag_key action payload proper)
