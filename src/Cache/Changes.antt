-- ===== src/Cache/Changes.antt =====
-- ripcord/cache.py: the steps of a change, its commit, its bump of the counter and its announcement.
use ripcord.Prelude.{
  ◌+◌, String, ◌≡◌, refl, sym, ap, ◌∙◌, true, false, Option, none, some, arith, ◌==◌, eq_iff,
  is_some, Bool, Bool-cases, inl, inr,
}
use mathlib.Core.Path.{subst}
use ripcord.Prelude.Dict
use ripcord.Prelude.Dict.{Dict, get-put}
use ripcord.Cache.Redis.{Redis}
use ripcord.Cache.Ruleset.{
  ruleset_key, complete_field, epoch_key, CachedFlag, hit, absent, cold, read_flag, notify_rest,
}
use ripcord.Cache.Fence.{is_announced, announced, hget-notify, count-notify}
use ripcord.Cache.Failed.{notify_rest-IsApart}
use ripcord.Cache.System.{
  Change, idle, committed, bumped, System, pending, unbumped, Answers, IsProperWriter, Relation,
  Told, Accords, mark, IsCoherent,
}

mark_other :
    (lost : String → Bool) (key k : String) (b : Bool)
    → (key == k) ≡ false
    → mark lost key b k ≡ false
    → lost k ≡ false
mark_other lost key k b other h = ground arith

-- A flag that is not lost after another one is marked.
mark_kept :
    (lost : String → Bool) (key k : String)
    → mark lost key true k ≡ false
    → ((key == k) ≡ false) × (lost k ≡ false)
mark_kept lost key k h = (ground arith, ground arith)

module _ (redis : Redis) (message : String → String → String) where
  open redis use {
    State, hget, hget-incr, hget-replace, count, count-incr, count-replace, incr, print,
    print_injective, replace,
  }

  -- Two states with the same fields give the same answer.
  pub read_flag_same :
      (s t : State) (k : String)
      → hget t ruleset_key k ≡ hget s ruleset_key k
      → hget t ruleset_key complete_field ≡ hget s ruleset_key complete_field
      → read_flag redis t k ≡ read_flag redis s k
  unfolding read_flag
  read_flag_same s t k h hc = ground arith

  -- The answer at states whose fields are known for a flag and for the completeness marker.
  pub Answers-fields :
      (s : State) (k : String) (entry : Option String)
      → hget s ruleset_key k ≡ entry
      → Answers (read_flag redis s k) entry
  unfolding read_flag
  Answers-fields s k none h = elim (Bool-cases (is_some (hget s ruleset_key complete_field))) [
    | inl complete ↦ rw (h, complete, read_flag) refl
    | inr partial ↦ rw (h, partial, read_flag) tt
  ]
  Answers-fields s k (some text) h = rw (h, read_flag) refl

  pub cold_cache :
      (s : State)
      → ((f : String) → hget s ruleset_key f ≡ none)
      → (k : String) → read_flag redis s k ≡ cold
  unfolding read_flag
  cold_cache s empty k = ground (arith, empty k, empty complete_field)

  module _ (Same : Relation) where
    -- An answer that the table's entry gives.
    pub Accords-of :
        (a : CachedFlag) (k : String) (entry : Option String)
        → Answers a entry
        → Accords Same k a entry
    Accords-of (hit payload) k entry h = inl h
    Accords-of absent k entry h = h
    Accords-of cold k entry h = tt

    pub Accords-fields :
        (s : State) (k : String) (entry : Option String)
        → hget s ruleset_key k ≡ entry
        → Accords Same k (read_flag redis s k) entry
    Accords-fields s k entry h =
        Accords-of (read_flag redis s k) k entry (Answers-fields s k entry h)

    Accords-told :
        (s : State) (k : String) (said entry : Option String)
        → hget s ruleset_key k ≡ said
        → Told Same k said entry
        → Accords Same k (read_flag redis s k) entry
    unfolding read_flag
    Accords-told s k none entry h told = Accords-fields s k entry (h ∙ sym told)
    Accords-told s k (some text) entry h told = rw (h, read_flag) (inr told)

    pub commit-IsCoherent :
        (sys : System State) (c : Change) (table : Dict String)
        → sys.writer ≡ idle
        → is_announced c.action c.payload ≡ true
        → (c.key == complete_field) ≡ false
        → Told Same c.key (announced c.action c.payload) (Dict.get table c.key)
        → ((k : String) → (c.key == k) ≡ false → Dict.get table k ≡ Dict.get sys.table k)
        → IsCoherent redis message Same sys
        → IsCoherent redis message Same (record sys { table = table; writer = committed c })
    commit-IsCoherent sys c table quiet proper plain at_key others i = record {
      answers = λ k nc np kept. rw (others k np) (i.answers k nc (ground arith) kept);
      writer = (proper, plain, at_key);
      rebuilds = λ j b there.
          let r = i.rebuilds j b there in
          record {
            number = r.number;
            printed = r.printed;
            past = r.past;
            right = λ m k snap now clear kept.
                r.right m k snap now (ground arith) kept ∙ sym (others k clear);
          };
    }

    pub bump-IsCoherent :
        (sys : System State) (c : Change) (t : State)
        → sys.writer ≡ committed c
        → incr sys.cache epoch_key ≡ some t
        → IsCoherent redis message Same sys
        → IsCoherent redis message Same
            (record sys { cache = t; writer = bumped c; lost = mark sys.lost c.key false })
    bump-IsCoherent sys c t quiet done i = record {
      answers = λ k nc np kept.
          rw
            (read_flag_same sys.cache t k (hget-incr sys.cache t epoch_key ruleset_key k done)
              (hget-incr sys.cache t epoch_key ruleset_key complete_field done))
            (i.answers k nc (ap (λ w. pending redis message w k) quiet ∙ np)
              (mark_other sys.lost c.key k false np kept));
      writer = rw quiet at i.writer;
      rebuilds = λ j b there.
          let r = i.rebuilds j b there in
          let one_more : count t epoch_key ≡ count sys.cache epoch_key + 1 =
            count-incr sys.cache t epoch_key epoch_key done in
          record {
            number = r.number;
            printed = r.printed;
            past = omega (arith, r.past);
            right = λ m k snap now clear kept. absurd (omega (arith, r.past));
          };
    }

    -- A change whose bump failed: the program goes on, and the flag has lost its announcement.
    pub bump_failed-IsCoherent :
        (sys : System State) (c : Change)
        → sys.writer ≡ committed c
        → IsCoherent redis message Same sys
        → IsCoherent redis message Same
            (record sys { writer = idle; lost = mark sys.lost c.key true })
    bump_failed-IsCoherent sys c quiet i = record {
      answers = λ k nc np kept.
          let (other, old) = mark_kept sys.lost c.key k kept in
          i.answers k nc (ap (λ w. pending redis message w k) quiet ∙ other) old;
      writer = tt;
      rebuilds = λ j b there.
          let r = i.rebuilds j b there in
          record {
            number = r.number;
            printed = r.printed;
            past = r.past;
            right = λ m k snap now clear kept.
                let (other, old) = mark_kept sys.lost c.key k kept in
                r.right m k snap now (ap (λ w. unbumped redis message w k) quiet ∙ other) old;
          };
    }

    pub announce-IsCoherent :
        (sys : System State) (c : Change)
        → sys.writer ≡ bumped c
        → (notify_rest redis message sys.cache c.key c.action c.payload).0 ≡ true
        → IsCoherent redis message Same sys
        → IsCoherent redis message Same (record sys {
          cache = (notify_rest redis message sys.cache c.key c.action c.payload).1;
          writer = idle;
        })
    announce-IsCoherent sys c pend done i =
        let t = (notify_rest redis message sys.cache c.key c.action c.payload).1 in
        let (proper, plain, at_key) =
          subst (IsProperWriter redis message Same sys.table) pend i.writer in
        let field = λ (k : String).
          hget-notify redis message sys.cache c.key c.action k c.payload proper done in
        let same_count =
          count-notify redis message sys.cache c.key c.action c.payload proper done in
        record {
          answers = λ k nc np kept. elim (Bool-cases (c.key == k)) [
            | inl this ↦
                let id : c.key ≡ k = (eq_iff c.key k).0 this in
                Accords-told t k (announced c.action c.payload) (Dict.get sys.table k)
                  (field k ∙ rw this refl)
                  (subst (λ n. Told Same n (announced c.action c.payload) (Dict.get sys.table n)) id
                    at_key)
            | inr other ↦
                rw
                  (read_flag_same sys.cache t k (field k ∙ rw other refl)
                    (field complete_field ∙ rw plain refl))
                  (i.answers k nc (ap (λ w. pending redis message w k) pend ∙ other) kept)
          ];
          writer = tt;
          rebuilds = λ j b there.
              let r = i.rebuilds j b there in
              record {
                number = r.number;
                printed = r.printed;
                past = omega (arith, r.past, same_count);
                right = λ m k snap now clear kept.
                    r.right m k snap (now ∙ same_count) (ap (λ w. unbumped redis message w k) pend)
                      kept;
              };
        }

    pub announce_failed-IsCoherent :
        (sys : System State) (c : Change)
        → sys.writer ≡ bumped c
        → IsCoherent redis message Same sys
        → IsCoherent redis message Same (record sys {
          cache = (notify_rest redis message sys.cache c.key c.action c.payload).1;
          writer = idle;
          lost = mark sys.lost c.key true;
        })
    announce_failed-IsCoherent sys c pend i =
        let t = (notify_rest redis message sys.cache c.key c.action c.payload).1 in
        let (proper, plain, _) =
          subst (IsProperWriter redis message Same sys.table) pend i.writer in
        let a = notify_rest-IsApart redis message sys.cache c.key c.action c.payload proper in
        record {
          answers = λ k nc np kept.
              let (other, old) = mark_kept sys.lost c.key k kept in
              rw (read_flag_same sys.cache t k (a.fields k other) (a.fields complete_field plain))
                (i.answers k nc (ap (λ w. pending redis message w k) pend ∙ other) old);
          writer = tt;
          rebuilds = λ j b there.
              let r = i.rebuilds j b there in
              record {
                number = r.number;
                printed = r.printed;
                past = omega (arith, r.past, a.counter);
                right = λ m k snap now clear kept.
                    r.right m k snap (now ∙ a.counter) (ap (λ w. unbumped redis message w k) pend)
                      (mark_kept sys.lost c.key k kept).1;
              };
        }
