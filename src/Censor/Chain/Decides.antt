-- ===== src/Censor/Chain/Decides.antt =====
-- The first handler that decides on a query settles it.
use acra.Base.{
  Bool-cases, ◌≡◌, refl, sym, ap, ◌∙◌, ◌↔◌, ◌⊎◌, inl, inr, true, Option, some, List, [], ◌∷◌, ◌++◌,
  Bytes,
}
use acra.Base.Outcome.{err}
use acra.Censor.Handlers.{CensorError, Parser, Handler, QueryWriter}
use acra.Censor.Chain.{
  Decision, undecided, allowed, denied, Query, AcraCensor, decide, check_all, is_idle, query_of,
  handle_query,
}

module _ (parser : Parser) where
  -- every handler of the list leaves the query open
  abbrev pub AllUndecided : List (Handler parser) → Query parser → Type 0
  AllUndecided [] q = Unit
  AllUndecided (h ∷ hs) q = (decide parser h q ≡ undecided) × AllUndecided hs q

  -- Some handler decides so, and those in front of it leave the query open.
  pub record IsDecided (hs : List (Handler parser)) (q : Query parser) (d : Decision) : Type 0 where
    pub before : List (Handler parser)
    pub handler : Handler parser
    pub after : List (Handler parser)
    pub is_split : hs ≡ before ++ handler ∷ after
    pub is_open : AllUndecided before q
    pub is_decision : decide parser handler q ≡ d

  Decision-cases :
      (d : Decision) → (d ≡ undecided) ⊎ (d ≡ allowed) ⊎ ((e : CensorError) × (d ≡ denied e))
  Decision-cases undecided = inl refl
  Decision-cases allowed = inr (inl refl)
  Decision-cases (denied e) = inr (inr (e, refl))

  later-IsDecided :
      (h : Handler parser) (hs : List (Handler parser)) (q : Query parser) (d : Decision)
      → decide parser h q ≡ undecided
      → IsDecided hs q d
      → IsDecided (h ∷ hs) q d
  later-IsDecided h hs q d u r = record {
    before = h ∷ r.before;
    handler = r.handler;
    after = r.after;
    is_split = ap (◌∷◌ h) r.is_split;
    is_open = (u, r.is_open);
    is_decision = r.is_decision;
  }

  denied-IsDecided :
      (hs : List (Handler parser)) (q : Query parser) (e : CensorError)
      → (check_all parser hs q).1 ≡ err e
      → IsDecided hs q (denied e)
  unfolding check_all
  denied-IsDecided [] q e h = absurd cc
  denied-IsDecided (x ∷ hs) q e h = elim (Decision-cases (decide parser x q)) [
    | inl u ↦ later-IsDecided x hs q (denied e) u (denied-IsDecided hs q e (rw (u, check_all) at h))
    | inr (inl a) ↦ absurd (let f = rw (a, check_all) at h in cc)
    | inr (inr (e', d)) ↦
        let same = rw (d, check_all) at h in
        record {
          before = [];
          handler = x;
          after = hs;
          is_split = refl;
          is_open = tt;
          is_decision = d ∙ (let k : e' ≡ e = cc in ap denied k);
        }
  ]

  decided-denied :
      (before after : List (Handler parser)) (x : Handler parser) (q : Query parser)
      (e : CensorError)
      → AllUndecided before q
      → decide parser x q ≡ denied e
      → (check_all parser (before ++ x ∷ after) q).1 ≡ err e
  unfolding check_all
  decided-denied [] after x q e open_before d = rw (d, check_all) refl
  decided-denied (y ∷ before) after x q e (u, open_before) d =
      rw (u, check_all) (decided-denied before after x q e open_before d)

  is_idle-nil :
      (hs : List (Handler parser)) (w : Option QueryWriter) → is_idle parser hs w ≡ true → hs ≡ []
  unfolding is_idle
  is_idle-nil [] w h = refl
  is_idle-nil (x ∷ hs) w h = absurd cc

  nil-split :
      (before after : List (Handler parser)) (x : Handler parser) → [] ≡ before ++ x ∷ after → ⊥
  nil-split [] after x h = cc
  nil-split (y ∷ before) after x h = cc

  -- A query that the parser reads, or that is to pass where it does not, is refused with an error
  -- exactly where some handler of the chain denies it with that error and all handlers in front of
  -- it leave it open.
  pub handle_query-denied :
      (raw : Bytes) (c : AcraCensor parser) (q : Query parser) (e : CensorError)
      → query_of parser c.ignore_parse_error raw ≡ some q
      → ((handle_query parser raw c).1 ≡ err e) ↔ IsDecided c.handlers q (denied e)
  unfolding handle_query
  handle_query-denied raw c q e known =
      elim (Bool-cases (is_idle parser c.handlers c.unparsed_queries_writer)) [
        | inl idle ↦
            let none_left = is_idle-nil c.handlers c.unparsed_queries_writer idle in
            (
              λ h. absurd (let f = rw (idle, handle_query) at h in cc),
              λ r. absurd (nil-split r.before r.after r.handler (sym none_left ∙ r.is_split)),
            )
        | inr busy ↦ (
          λ h.
              denied-IsDecided c.handlers q e
                (rw (known, handle_query) at (rw (busy, handle_query) at h)),
          λ r.
              rw (busy, handle_query)
                (rw (known, handle_query)
                  (rw r.is_split
                    (decided-denied r.before r.after r.handler q e r.is_open r.is_decision))),
        )
      ]
