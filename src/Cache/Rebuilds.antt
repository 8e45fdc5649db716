-- ===== src/Cache/Rebuilds.antt =====
-- ripcord/cache.py: the steps of a rebuild, its start, its query and its end, and an expiry.
use ripcord.Prelude.{
  ℕ, String, ◌≡◌, refl, sym, ap, ◌∙◌, Bool, false, Option, none, some, arith, eqb, Bool-cases, inl,
  inr,
}
use ripcord.Prelude.Dict
use ripcord.Prelude.Dict.{Dict, get-put}
use ripcord.Cache.Redis.{Redis}
use ripcord.Cache.Ruleset.{
  ruleset_key, complete_field, epoch_key, ruleset_ttl_seconds, read_epoch, write_ruleset,
}
use ripcord.Cache.Fence.{read_epoch-print, write_ruleset_landed, write_ruleset_cases}
use ripcord.Cache.System.{
  Writer, idle, committed, bumped, Rebuild, System, update, pending, unbumped, IsCurrent,
  IsCoherent, Relation,
}
use ripcord.Cache.Changes.{Accords-fields, cold_cache}

abbrev epoch_of : Option Rebuild → String
epoch_of none = ""
epoch_of (some b) = b.epoch

module _ (redis : Redis) (message : String → String → String) (Same : Relation) where
  open redis use {
    State, hget, hget-incr, hget-replace, count, count-incr, count-replace, incr, print,
    print_injective, replace,
  }

  -- A rebuild task that is gone, or replaced, leaves the others.
  rebuilds_update :
      (sys sys' : System State) (j : ℕ) (o : Option Rebuild)
      → ((b : Rebuild) → o ≡ some b → IsCurrent redis message sys' b)
      → ((i : ℕ) (b : Rebuild) → sys.rebuilds i ≡ some b → IsCurrent redis message sys' b)
      → (i : ℕ) (b : Rebuild) → update sys.rebuilds j o i ≡ some b
      → IsCurrent redis message sys' b
  rebuilds_update sys sys' j o new old i b there = elim (Bool-cases (eqb j i)) [
    | inl this ↦ new b (ground arith)
    | inr other ↦ old i b (ground arith)
  ]

  pending-unbumped :
      (w : Writer) (k : String)
      → pending redis message w k ≡ false
      → unbumped redis message w k ≡ false
  pending-unbumped idle k h = refl
  pending-unbumped (committed c) k h = h
  pending-unbumped (bumped c) k h = refl

  landed-IsCoherent :
      (sys : System State) (j : ℕ) (b : Rebuild) (m : Dict String) (t : State)
      → sys.rebuilds j ≡ some b
      → b.snapshot ≡ some m
      → ((n : ℕ) → b.epoch ≡ print n → n ≡ count sys.cache epoch_key)
      → replace sys.cache ruleset_key (Dict.put m complete_field "1") ruleset_ttl_seconds ≡ some t
      → IsCoherent redis message Same sys
      → IsCoherent redis message Same
          (record sys { cache = t; rebuilds = update sys.rebuilds j none })
  landed-IsCoherent sys j b m t there snap current done i =
      let r = i.rebuilds j b there in
      let same_count : count t epoch_key ≡ count sys.cache epoch_key =
        count-replace sys.cache t ruleset_key epoch_key (Dict.put m complete_field "1")
          ruleset_ttl_seconds done refl in
      record {
        answers = λ k nc np kept. Accords-fields redis message Same t k (Dict.get sys.table k) (
            hget-replace sys.cache t ruleset_key ruleset_key k (Dict.put m complete_field "1")
              ruleset_ttl_seconds done
            ∙ get-put m complete_field k "1"
            ∙ rw nc (
                r.right m k snap (current r.number r.printed) (pending-unbumped sys.writer k np)
                  kept));
        writer = i.writer;
        rebuilds =
            rebuilds_update sys _ j none (λ x e. absurd (cc))
              (λ x y z.
                let q = i.rebuilds x y z in
                record {
                  number = q.number;
                  printed = q.printed;
                  past = omega (arith, q.past);
                  right = λ n k s now clear kept. q.right n k s (now ∙ same_count) clear kept;
                });
      }

  -- What a rebuild knows stays true when neither the counter nor the table nor the writer moves.
  IsCurrent-same :
      (sys : System State) (t : State) (rebuilds : ℕ → Option Rebuild) (b : Rebuild)
      → count t epoch_key ≡ count sys.cache epoch_key
      → IsCurrent redis message sys b
      → IsCurrent redis message (record sys { cache = t; rebuilds = rebuilds }) b
  IsCurrent-same sys t rebuilds b same r = record {
    number = r.number;
    printed = r.printed;
    past = omega (arith, r.past);
    right = λ m k snap now clear kept. r.right m k snap (now ∙ same) clear kept;
  }

  pub finish-IsCoherent :
      (sys : System State) (j : ℕ) (b : Rebuild) (m : Dict String) (watched : State)
      (touched : Bool)
      → sys.rebuilds j ≡ some b
      → b.snapshot ≡ some m
      → (touched ≡ false → count watched epoch_key ≡ count sys.cache epoch_key)
      → IsCoherent redis message Same sys
      → IsCoherent redis message Same (record sys {
        cache = (write_ruleset redis watched sys.cache touched m (some b.epoch)).1;
        rebuilds = update sys.rebuilds j none;
      })
  finish-IsCoherent sys j b m watched touched there snap watch i =
      elim (write_ruleset_cases redis watched sys.cache touched m (some b.epoch)) [
        | inl same ↦ rw same (record {
          answers = i.answers;
          writer = i.writer;
          rebuilds =
              rebuilds_update sys _ j none (λ x e. absurd (cc))
                (λ x y z. IsCurrent-same sys sys.cache _ y refl (i.rebuilds x y z));
        })
        | inr lands ↦
            let r = i.rebuilds j b there in
            let (_, _, done) =
              write_ruleset_landed redis watched sys.cache touched m b.epoch r.number r.printed
                lands in
            landed-IsCoherent sys j b m _ there snap
              (λ n printed.
                let (at, free, _) =
                  write_ruleset_landed redis watched sys.cache touched m b.epoch n printed lands in
                sym at ∙ watch free)
              done i
      ]

  pub begin-IsCoherent :
      (sys : System State) (j : ℕ)
      → IsCoherent redis message Same sys
      → IsCoherent redis message Same (record sys {
        rebuilds =
            update sys.rebuilds j
              (some (record { epoch = read_epoch redis sys.cache; snapshot = none }));
      })
  begin-IsCoherent sys j i = record {
    answers = i.answers;
    writer = i.writer;
    rebuilds =
        rebuilds_update sys _ j _
          (λ b e. record {
            number = count sys.cache epoch_key;
            printed = ap epoch_of (sym e) ∙ read_epoch-print redis sys.cache;
            past = omega arith;
            right = λ m k snap now clear kept. absurd (ground arith);
          })
          (λ x y z. IsCurrent-same sys sys.cache _ y refl (i.rebuilds x y z));
  }

  pub query-IsCoherent :
      (sys : System State) (j : ℕ) (b : Rebuild)
      → sys.rebuilds j ≡ some b
      → IsCoherent redis message Same sys
      → IsCoherent redis message Same (record sys {
        rebuilds = update sys.rebuilds j (some (record b { snapshot = some sys.table }));
      })
  query-IsCoherent sys j b there i =
      let r = i.rebuilds j b there in
      record {
        answers = i.answers;
        writer = i.writer;
        rebuilds =
            rebuilds_update sys _ j _
              (λ x e. record {
                number = r.number;
                printed = ap epoch_of (sym e) ∙ r.printed;
                past = r.past;
                right = λ m k snap now clear kept.
                    let same : m ≡ sys.table = ground arith in ap (λ d. Dict.get d k) same;
              })
              (λ x y z. IsCurrent-same sys sys.cache _ y refl (i.rebuilds x y z));
      }

  pub expire-IsCoherent :
      (sys : System State) (t : State)
      → ((k : String) → hget t ruleset_key k ≡ none)
      → count t epoch_key ≡ count sys.cache epoch_key
      → IsCoherent redis message Same sys
      → IsCoherent redis message Same (record sys { cache = t })
  expire-IsCoherent sys t empty same i = record {
    answers = λ k nc np kept. rw (cold_cache redis message t empty k) tt;
    writer = i.writer;
    rebuilds = λ x y z. IsCurrent-same sys t sys.rebuilds y same (i.rebuilds x y z);
  }
