-- ===== src/Cache/Coherence.antt =====
-- ripcord/cache.py: `read_flag` in the system of changes, rebuilds and expiries.
use ripcord.Prelude.{String, ◌≡◌, ◌∙◌, sym, ap, false, Option, none, some, ◌==◌, inl, inr}
use ripcord.Prelude.Dict
use ripcord.Prelude.Dict.{Dict, get-put}
use ripcord.Cache.Redis.{Redis}
use ripcord.Cache.Ruleset.{ruleset_key, complete_field, read_flag, CachedFlag, hit, absent, cold}
use ripcord.Cache.System.{
  idle, System, Step, commit, bump, announce, begin, query, finish, expire, Reach, here, next,
  pending, Answers, Accords, IsCoherent, Relation, none_lost, bump_failed, announce_failed,
}
use ripcord.Cache.Changes.{
  cold_cache, commit-IsCoherent, bump-IsCoherent, announce-IsCoherent, bump_failed-IsCoherent,
  announce_failed-IsCoherent,
}
use ripcord.Cache.Rebuilds.{
  finish-IsCoherent, begin-IsCoherent, query-IsCoherent, expire-IsCoherent,
}

module _ (redis : Redis) (message : String → String → String) where
  open redis use {State, hget}

  -- A cold cache beside a table, with nothing under way.
  abbrev pub cold_start : Dict String → State → System State
  cold_start table cache = record {
    table = table;
    cache = cache;
    writer = idle;
    rebuilds = λ _. none;
    lost = none_lost;
  }

  module _ (Same : Relation) where
    Step-IsCoherent :
        {sys sys' : System State}
        → Step redis message Same sys sys'
        → IsCoherent redis message Same sys
        → IsCoherent redis message Same sys'
    Step-IsCoherent {sys} (commit c table quiet proper plain at_key others) i =
        commit-IsCoherent redis message Same sys c table quiet proper plain at_key others i
    Step-IsCoherent {sys} (bump c t w done) i = bump-IsCoherent redis message Same sys c t w done i
    Step-IsCoherent {sys} (bump_failed c w failed) i =
        bump_failed-IsCoherent redis message Same sys c w i
    Step-IsCoherent {sys} (announce c w done) i =
        announce-IsCoherent redis message Same sys c w done i
    Step-IsCoherent {sys} (announce_failed c w failed) i =
        announce_failed-IsCoherent redis message Same sys c w i
    Step-IsCoherent {sys} (begin j) i = begin-IsCoherent redis message Same sys j i
    Step-IsCoherent {sys} (query j b there) i = query-IsCoherent redis message Same sys j b there i
    Step-IsCoherent {sys} (finish j b m watched touched there snap watch) i =
        finish-IsCoherent redis message Same sys j b m watched touched there snap watch i
    Step-IsCoherent {sys} (expire t empty same) i =
        expire-IsCoherent redis message Same sys t empty same i

    Reach-IsCoherent :
        {start sys : System State}
        → IsCoherent redis message Same start
        → Reach redis message Same start sys
        → IsCoherent redis message Same sys
    Reach-IsCoherent i here = i
    Reach-IsCoherent i (next r s) = Step-IsCoherent s (Reach-IsCoherent i r)

    -- Start from a cold cache with nothing under way. Let changes, one at a time, fenced rebuilds and
    -- expiries follow, in any interleaving of their steps, where what each change announces stands in
    -- a given relation to the entry that the table then has, and any announcement may fail. For a
    -- flag other than the marker, with no change of it under way and with its last announcement not
    -- failed, the cache then agrees with the table: a payload that it serves is the table's entry, or
    -- is in that relation to it, and a flag that it denies is not in the table.
    pub read_flag_coherent :
        (table : Dict String) (cache : State) (sys : System State) (k : String)
        → ((f : String) → hget cache ruleset_key f ≡ none)
        → Reach redis message Same (cold_start table cache) sys
        → (complete_field == k) ≡ false
        → pending redis message sys.writer k ≡ false
        → sys.lost k ≡ false
        → Accords Same k (read_flag redis sys.cache k) (Dict.get sys.table k)
    read_flag_coherent table cache sys k empty r nc np kept =
        (Reach-IsCoherent
            (record {
              answers = λ f _ _ _. rw (cold_cache redis message cache empty f) tt;
              writer = tt;
              rebuilds = λ j b there. absurd (cc);
            })
            r).answers
          k nc np kept

  -- Where the relation makes the payload of the flag the entry, the answer is the entry.
  pub Answers-exact :
      (Same : Relation) (k : String) (a : CachedFlag) (entry : Option String)
      → ((p q : String) → Same k p q → p ≡ q)
      → Accords Same k a entry
      → Answers a entry
  Answers-exact Same k (hit payload) entry same (inl h) = h
  Answers-exact Same k (hit payload) entry same (inr (q, h, told)) =
      h ∙ ap some (sym (same payload q told))
  Answers-exact Same k absent entry same h = h
  Answers-exact Same k cold entry same h = tt
