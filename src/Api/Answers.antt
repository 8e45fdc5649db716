-- ===== src/Api/Answers.antt =====
-- ripcord/api/flags.py: the answer of the update route and the state that it leaves.
use mathlib.Core.Path.{subst}
use ripcord.Prelude.{ℕ, String, ◌≡◌, true, false, refl, ap, ◌∙◌, sym, some, arith, inl, inr, ◌⊎◌}
use ripcord.Auth.Scopes.{Principal, has, effective_scopes, add_implied, implied}
use ripcord.Auth.GuardLaws.{require-grants, require-identified}
use ripcord.Auth.Store.{KeyStore}
use ripcord.Auth.Verify.{Settings, Clocks, Reply, ok, error, authenticate}
use ripcord.Auth.Guard.{Request, extract_credential, write_dep}
use ripcord.Cache.Redis.{Redis}
use ripcord.Cache.Ruleset.{notify_flag_change, read_flag, hit}
use ripcord.Cache.Notified.{hget-notify_flag_change}
use ripcord.Models.{Flag}
use ripcord.Schemas.Input.{FlagUpdate}
use ripcord.Services.Store.{FlagStore}
use ripcord.Services.Flags.{Outcome, done}
use ripcord.Services.Operations.{update}
use ripcord.Services.Payload.{Codec, flag_payload}
use ripcord.Services.Locking.{IsUpdated, update_done}
use ripcord.Api.Flags.{status_of, Here, after_change, guard, update_as, update_flag}

Reply-cases {ℓ} : {A : Type ℓ} (r : Reply A) → ((n : ℕ) × (r ≡ error n)) ⊎ ((a : A) × (r ≡ ok a))
Reply-cases (error n) = inl (n, refl)
Reply-cases (ok a) = inr (a, refl)

status_of-ok {ℓ} : {A : Type ℓ} (o : Outcome A) (a : A) → status_of o ok ≡ ok a → o ≡ done a
status_of-ok (done b) a h = ground arith
status_of-ok _ a h = absurd (cc)

module _ (keys : KeyStore) (sha256 : String → String) (settings : Settings) (clocks : Clocks)
    (db : FlagStore) (codec : Codec) (redis : Redis) (message : String → String → String) where
  -- An update that is answered with a flag.
  pub record IsAnswered (read : db.State) (request : Request) (key : String) (payload : FlagUpdate)
      (w after : Here keys db redis) (flag : Flag) : Type 0 where
    pub principal : Principal
    pub may_write : has principal "flags:write" ≡ true
    pub identified :
        settings.auth_enabled ≡ true
        → (credential : String) × (extract_credential request false ≡ some credential)
          × ((authenticate keys sha256 settings clocks w.auth credential).0 ≡ some principal)
    pub updated : IsUpdated db read w.tables after.tables key payload principal.name flag
    pub served :
        (notify_flag_change redis message w.cache key "updated" (some (flag_payload codec flag))).0
          ≡ true
        → read_flag redis after.cache key ≡ hit (flag_payload codec flag)

  update_as-ok :
      (read : db.State) (key : String) (payload : FlagUpdate) (principal : Principal)
      (w : Here keys db redis) (flag : Flag)
      → (update_as keys sha256 settings clocks db codec redis message read key payload principal
          w).0
        ≡ ok flag
      → ((update db read w.tables key payload principal.name).0 ≡ done flag)
        × ((update_as keys sha256 settings clocks db codec redis message read key payload principal
              w).1
            ≡ after_change keys sha256 settings clocks db codec redis message key "updated"
                (done flag)
                (update db read w.tables key payload principal.name).1
                w)
  unfolding update_as
  update_as-ok read key payload principal w flag h =
      let o : (update db read w.tables key payload principal.name).0 ≡ done flag =
        status_of-ok (update db read w.tables key payload principal.name).0 flag h in
      (
        o,
        ap
            (λ o.
              after_change keys sha256 settings clocks db codec redis message key "updated" o
                (update db read w.tables key payload principal.name).1 w)
            o,
      )

  served_announced :
      (s : redis.State) (key text : String)
      → (notify_flag_change redis message s key "updated" (some text)).0 ≡ true
      → read_flag redis (notify_flag_change redis message s key "updated" (some text)).1 key
        ≡ hit text
  unfolding read_flag
  served_announced s key text h =
      rw (hget-notify_flag_change redis message s key "updated" (some text) refl h, read_flag) refl

  admitted_may_write :
      (request : Request) (w : Here keys db redis) (p : Principal)
      → (guard keys sha256 settings clocks db codec redis message request w).0 ≡ ok p
      → has p "flags:write" ≡ true
  unfolding has effective_scopes add_implied implied
  admitted_may_write request w p h =
      let granted =
        require-grants keys sha256 settings clocks write_dep false request w.auth p refl h in
      ground arith

  -- An update that is answered with a flag was asked for by a principal who has `flags:write`, and
  -- who is, with auth on, the one to whom the request's credential verifies. The tables are changed
  -- as by that update: the row of the request's version is replaced by the next version of it, and
  -- the audit entry names the flag, the action and the principal. If the announcement did not fail,
  -- the cache then serves the answered flag.
  pub update_flag-IsAnswered :
      (read : db.State) (request : Request) (key : String) (payload : FlagUpdate)
      (w : Here keys db redis) (flag : Flag)
      → (update_flag keys sha256 settings clocks db codec redis message read request key payload
          w).0
        ≡ ok flag
      → IsAnswered read request key payload w
          (update_flag keys sha256 settings clocks db codec redis message read request key payload
            w).1
          flag
  unfolding update_flag
  update_flag-IsAnswered read request key payload w flag h =
      elim (Reply-cases (guard keys sha256 settings clocks db codec redis message request w).0) [
        | inl (code, e) ↦ absurd (ground arith)
        | inr (p, e) ↦
            let w' : Here keys db redis = record w {
              auth = (guard keys sha256 settings clocks db codec redis message request w).1;
            } in
            let whole : update_flag keys sha256 settings clocks db codec redis message read request
                  key payload w
                ≡ update_as keys sha256 settings clocks db codec redis message read key payload p
                    w' =
              rw (e, update_flag) refl in
            let (o, state) =
              update_as-ok read key payload p w' flag (ap (λ r. r.0) (sym whole) ∙ h) in
            let after = ap (λ r. r.1) whole ∙ state in
            record {
              principal = p;
              may_write = admitted_may_write request w p e;
              identified = λ on.
                  require-identified keys sha256 settings clocks write_dep false request w.auth p on
                    e;
              updated =
                  subst (λ t. IsUpdated db read w.tables t key payload p.name flag)
                    (sym (ap (λ (x : Here keys db redis). x.tables) after))
                    (update_done db read w.tables key payload p.name flag o);
              served = λ sent.
                  ap (λ (x : Here keys db redis). read_flag redis x.cache key) after
                  ∙ served_announced w.cache key (flag_payload codec flag) sent;
            }
      ]
