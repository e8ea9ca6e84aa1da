-- ===== src/Autoroutes/Order.antt =====
-- The order of Go's strings, and lists in that order, for the sort of ResolveConflicts
-- (internal/autoroutes/resolver.go).
use mutiauk.Base.{
  ◌≡◌, refl, ◌∙◌, Bool, true, false, ◌||◌, List, [], ◌∷◌, Text, text_discrete, does, arith,
  if_cases, ◌≢◌,
}
use mutiauk.Autoroutes.Rules.{Net, AutoRoute, text_ltb, key, insert, sort}

pub text_ltb_irrefl : (s : Text) → text_ltb s s ≡ false
unfolding text_ltb
text_ltb_irrefl [] = refl
text_ltb_irrefl (a ∷ s) = ground (arith, text_ltb_irrefl s)

pub text_ltb_trans :
    (s t u : Text) → text_ltb s t ≡ true → text_ltb t u ≡ true → text_ltb s u ≡ true
unfolding text_ltb
text_ltb_trans s t [] h k = ground arith
text_ltb_trans s [] (c ∷ u) h k = ground arith
text_ltb_trans [] (b ∷ t) (c ∷ u) h k = refl
text_ltb_trans (a ∷ s) (b ∷ t) (c ∷ u) h k = ground (arith, text_ltb_trans s t u)

pub text_ltb_total : (s t : Text) → text_ltb s t ≡ false → s ≢ t → text_ltb t s ≡ true
unfolding text_ltb
text_ltb_total [] [] h n = absurd (n refl)
text_ltb_total [] (b ∷ t) h n = ground arith
text_ltb_total (a ∷ s) [] h n = refl
text_ltb_total (a ∷ s) (b ∷ t) h n = ground (arith, text_ltb_total s t)

module _ (net : Net) where
  -- Each key is before the next one, so that no key stands twice.
  abbrev pub FirstAfter : Text → List AutoRoute → Type 0
  FirstAfter k [] = Unit
  FirstAfter k (r ∷ rs) = text_ltb k (key net r) ≡ true

  abbrev pub Ascending : List AutoRoute → Type 0
  Ascending [] = Unit
  Ascending (r ∷ rs) = FirstAfter (key net r) rs × Ascending rs

  abbrev pub any_auto : Text → List AutoRoute → Bool
  any_auto k [] = false
  any_auto k (r ∷ rs) = does (text_discrete (key net r) k) || any_auto k rs

  any_auto-insert :
      (k : Text) (r : AutoRoute) (rs : List AutoRoute)
      → any_auto k (insert net r rs) ≡ any_auto k (r ∷ rs)
  unfolding insert
  any_auto-insert k r [] = refl
  any_auto-insert k r (q ∷ rs) = ground (arith, any_auto-insert k r rs)

  pub any_auto-sort : (k : Text) (rs : List AutoRoute) → any_auto k (sort net rs) ≡ any_auto k rs
  unfolding sort
  any_auto-sort k [] = refl
  any_auto-sort k (r ∷ rs) = ground (arith, any_auto-insert k r (sort net rs), any_auto-sort k rs)

  insert_after :
      (k : Text) (r : AutoRoute) (rs : List AutoRoute)
      → text_ltb k (key net r) ≡ true
      → FirstAfter k rs
      → FirstAfter k (insert net r rs)
  unfolding insert
  insert_after k r [] h f = h
  insert_after k r (q ∷ rs) h f = ground arith

  any_auto_apart :
      (k : Text) (q : AutoRoute) (rs : List AutoRoute)
      → any_auto k (q ∷ rs) ≡ false
      → (key net q ≢ k) × (any_auto k rs ≡ false)
  any_auto_apart k q rs h = ground arith

  insert-Ascending :
      (r : AutoRoute) (rs : List AutoRoute)
      → any_auto (key net r) rs ≡ false
      → Ascending rs
      → Ascending (insert net r rs)
  unfolding insert
  insert-Ascending r [] h a = (tt, tt)
  insert-Ascending r (q ∷ rs) h a =
      if_cases Ascending (text_ltb (key net q) (key net r))
        (λ e. (
          insert_after (key net q) r rs e a.0,
          insert-Ascending r rs (any_auto_apart (key net r) q rs h).1 a.1,
        ))
        (λ e. (text_ltb_total (key net q) (key net r) e (any_auto_apart (key net r) q rs h).0, a))

  abbrev pub NoRepeat : List AutoRoute → Type 0
  NoRepeat [] = Unit
  NoRepeat (r ∷ rs) = (any_auto (key net r) rs ≡ false) × NoRepeat rs

  pub sort-Ascending : (rs : List AutoRoute) → NoRepeat rs → Ascending (sort net rs)
  unfolding sort
  sort-Ascending [] n = tt
  sort-Ascending (r ∷ rs) n =
      insert-Ascending r (sort net rs) (any_auto-sort (key net r) rs ∙ n.0) (sort-Ascending rs n.1)
