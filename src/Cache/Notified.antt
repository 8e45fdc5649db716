-- ===== src/Cache/Notified.antt =====
-- ripcord/cache.py: what `notify_flag_change` leaves of its own flag.
use ripcord.Prelude.{String, ◌≡◌, refl, ◌∙◌, true, Option, arith, eq_refl, Option-cases, inl, inr}
use ripcord.Cache.Redis.{Redis}
use ripcord.Cache.Ruleset.{ruleset_key, epoch_key, notify_flag_change}
use ripcord.Cache.Fence.{is_announced, announced, hget-notify}

module _ (redis : Redis) (message : String → String → String) where
  open redis use {State, hget, incr}

  -- A notification without an error leaves the flag's field with what it announces.
  pub hget-notify_flag_change :
      (s : State) (flag_key action : String) (payload : Option String)
      → is_announced action payload ≡ true
      → (notify_flag_change redis message s flag_key action payload).0 ≡ true
      → hget (notify_flag_change redis message s flag_key action payload).1 ruleset_key flag_key
        ≡ announced action payload
  unfolding notify_flag_change
  hget-notify_flag_change s flag_key action payload proper done =
      elim (Option-cases (incr s epoch_key)) [
        | inl failed ↦ absurd (ground arith)
        | inr (t, bumped) ↦
            rw (bumped, notify_flag_change)
              (hget-notify redis message t flag_key action flag_key payload proper (ground arith)
                ∙ rw eq_refl refl)
      ]
