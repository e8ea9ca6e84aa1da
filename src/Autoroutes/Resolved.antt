-- ===== src/Autoroutes/Resolved.antt =====
-- Lemmas on ResolveConflicts (internal/autoroutes/resolver.go).
use mutiauk.Base.{
  ◌≡◌, refl, ◌∙◌, false, ◌||◌, Option, none, some, List, [], ◌∷◌, Text, text_discrete, does,
  is_some, arith, All,
}
use mutiauk.Base.GoMap.{find, put, values, Unique, find-put, find-put_self, put-Unique}
use mutiauk.Autoroutes.Rules.{Net, AutoRoute, text_ltb, key, keep_smaller, by_network, sort}
use mutiauk.Autoroutes.Order.{
  text_ltb_irrefl, text_ltb_trans, any_auto, any_auto-sort, NoRepeat, Ascending, sort-Ascending,
}

abbrev pub Network : Type 0
Network = List (Text × AutoRoute)

module _ (net : Net) where
  -- A kept route whose origin is not after t.
  abbrev pub NotAfter : Text → Option AutoRoute → Type 0
  NotAfter t none = ⊥
  NotAfter t (some b) = text_ltb t b.origin_id ≡ false

  keep_smaller-NotAfter :
      (k t : Text) (r : AutoRoute) (o : Option AutoRoute) (m : Network)
      → find text_discrete (key net r) m ≡ o
      → NotAfter t (find text_discrete k m)
      → NotAfter t (find text_discrete k (keep_smaller net r o m))
  unfolding keep_smaller
  keep_smaller-NotAfter k t r none m e h = ground (arith, find-put text_discrete k (key net r) r m)
  keep_smaller-NotAfter k t r (some b) m e h =
      ground
        (arith, find-put text_discrete k (key net r) r m, text_ltb_trans t r.origin_id b.origin_id)

  keep_smaller_self :
      (r : AutoRoute) (o : Option AutoRoute) (m : Network)
      → find text_discrete (key net r) m ≡ o
      → NotAfter r.origin_id (find text_discrete (key net r) (keep_smaller net r o m))
  unfolding keep_smaller
  keep_smaller_self r none m e =
      ground (arith, find-put_self text_discrete (key net r) r m, text_ltb_irrefl r.origin_id)
  keep_smaller_self r (some b) m e =
      ground (arith, find-put_self text_discrete (key net r) r m, text_ltb_irrefl r.origin_id)

  by_network-NotAfter :
      (k t : Text) (rs : List AutoRoute) (m : Network)
      → NotAfter t (find text_discrete k m)
      → NotAfter t (find text_discrete k (by_network net rs m))
  unfolding by_network
  by_network-NotAfter k t [] m h = h
  by_network-NotAfter k t (r ∷ rs) m h =
      by_network-NotAfter k t rs _ (keep_smaller-NotAfter k t r _ m refl h)

  -- For every offered route, the one that is kept for its network has an origin that is not after
  -- the offered one's.
  pub by_network_least :
      (rs : List AutoRoute) (m : Network)
      → All (λ r. NotAfter r.origin_id (find text_discrete (key net r) (by_network net rs m))) rs
  unfolding by_network
  by_network_least [] m = tt
  by_network_least (r ∷ rs) m = (
    by_network-NotAfter (key net r) r.origin_id rs _ (keep_smaller_self r _ m refl),
    by_network_least rs _,
  )

  abbrev pub Keyed : Network → Type 0
  Keyed [] = Unit
  Keyed ((k, r) ∷ m) = (key net r ≡ k) × Keyed m

  put-Keyed : (r : AutoRoute) (m : Network) → Keyed m → Keyed (put text_discrete (key net r) r m)
  unfolding put
  put-Keyed r [] h = (refl, tt)
  put-Keyed r ((j, q) ∷ m) h = ground (arith, put-Keyed r m)

  -- The map is keyed, and has one route for each key.
  abbrev pub GoodMap : Network → Type 0
  GoodMap m = Keyed m × Unique text_discrete m

  keep_smaller-GoodMap :
      (r : AutoRoute) (o : Option AutoRoute) (m : Network)
      → GoodMap m
      → GoodMap (keep_smaller net r o m)
  unfolding keep_smaller
  keep_smaller-GoodMap r none m h =
      (put-Keyed r m h.0, put-Unique text_discrete (key net r) r m h.1)
  keep_smaller-GoodMap r (some b) m h =
      ground (arith, put-Keyed r m h.0, put-Unique text_discrete (key net r) r m h.1)

  by_network-GoodMap :
      (rs : List AutoRoute) (m : Network) → GoodMap m → GoodMap (by_network net rs m)
  unfolding by_network
  by_network-GoodMap [] m h = h
  by_network-GoodMap (r ∷ rs) m h = by_network-GoodMap rs _ (keep_smaller-GoodMap r _ m h)

  any_auto-values :
      (k : Text) (m : Network)
      → Keyed m
      → any_auto net k (values m) ≡ is_some (find text_discrete k m)
  unfolding find
  any_auto-values k [] h = refl
  any_auto-values k ((j, r) ∷ m) h = ground (arith, any_auto-values k m)

  values-NoRepeat : (m : Network) → GoodMap m → NoRepeat net (values m)
  values-NoRepeat [] h = tt
  values-NoRepeat ((j, r) ∷ m) h = ground (arith, values-NoRepeat m, any_auto-values j m)

  keep_smaller_keys :
      (k : Text) (r : AutoRoute) (o : Option AutoRoute) (m : Network)
      → find text_discrete (key net r) m ≡ o
      → is_some (find text_discrete k (keep_smaller net r o m))
        ≡ does (text_discrete (key net r) k) || is_some (find text_discrete k m)
  unfolding keep_smaller
  keep_smaller_keys k r none m e = ground (arith, find-put text_discrete k (key net r) r m)
  keep_smaller_keys k r (some b) m e = ground (arith, find-put text_discrete k (key net r) r m)

  by_network_keys :
      (k : Text) (rs : List AutoRoute) (m : Network)
      → is_some (find text_discrete k (by_network net rs m))
        ≡ any_auto net k rs || is_some (find text_discrete k m)
  unfolding by_network
  by_network_keys k [] m = refl
  by_network_keys k (r ∷ rs) m = ground (
    arith,
    by_network_keys k rs (keep_smaller net r (find text_discrete (key net r) m) m),
    keep_smaller_keys k r (find text_discrete (key net r) m) m refl,
  )

  abbrev pub kept : List AutoRoute → List AutoRoute
  kept rs = sort net (values (by_network net rs []))

  -- What is kept is in ascending order of its networks, so that no network stands twice, and has
  -- exactly the networks that are offered.
  pub kept-Ascending :
      (rs : List AutoRoute)
      → Ascending net (kept rs) × ((k : Text) → any_auto net k (kept rs) ≡ any_auto net k rs)
  unfolding find
  kept-Ascending rs = (
    sort-Ascending net (values (by_network net rs []))
        (values-NoRepeat (by_network net rs []) good),
    λ k.
        any_auto-sort net k (values (by_network net rs []))
        ∙ ground (arith, any_auto-values k (by_network net rs []) good.0, by_network_keys k rs []),
  )
    where
      good : GoodMap (by_network net rs [])
      good = by_network-GoodMap rs [] (tt, tt)
