-- ===== src/Route/DiffExact.antt =====
-- Diff and the routes that it compares (internal/route/plan.go).
use mutiauk.Base.{
  ◌≡◌, refl, Bool, true, false, ◌&&◌, ◌||◌, not, none, List, [], ◌∷◌, Text, text_discrete, is_some,
  if◌then◌else◌, arith, All, if_cases,
}
use mutiauk.Base.GoMap.{find, put, Unique, find-put, put-Unique}
use mutiauk.Route.Types.{Route, State, Env, key_of, has_key, any_key}
use mutiauk.Route.Plan.{index, present, wanted, missing_from, plan_of}

module _ {K : Type 0} (env : Env K) where
  -- Whether one of the routes passes the test and has the key.
  abbrev pub any_with : (Route → Bool) → Text → List Route → Bool
  any_with p key [] = false
  any_with p key (r ∷ rs) = (p r && has_key env key r) || any_with p key rs

  -- Every route of a map stands under its own key.
  abbrev pub Keyed : State → Type 0
  Keyed [] = Unit
  Keyed ((key, r) ∷ m) = (key_of env r ≡ key) × Keyed m

  put-Keyed : (r : Route) (m : State) → Keyed m → Keyed (put text_discrete (key_of env r) r m)
  unfolding put
  put-Keyed r [] h = (refl, tt)
  put-Keyed r ((j, q) ∷ m) h = ground (arith, put-Keyed r m)

  index-Keyed :
      (p : Route → Bool) (rs : List Route) (m : State) → Keyed m → Keyed (index env p rs m)
  unfolding index
  index-Keyed p [] m h = h
  index-Keyed p (r ∷ rs) m h = index-Keyed p rs _ (ground (arith, put-Keyed r m))

  index-Unique :
      (p : Route → Bool) (rs : List Route) (m : State)
      → Unique text_discrete m
      → Unique text_discrete (index env p rs m)
  unfolding index
  index-Unique p [] m h = h
  index-Unique p (r ∷ rs) m h =
      index-Unique p rs _ (ground (arith, put-Unique text_discrete (key_of env r) r m))

  find-index :
      (p : Route → Bool) (key : Text) (rs : List Route) (m : State)
      → is_some (find text_discrete key (index env p rs m))
        ≡ any_with p key rs || is_some (find text_discrete key m)
  unfolding index
  find-index p key [] m = refl
  find-index p key (r ∷ rs) m = ground (
    arith,
    find-index p key rs (if p r then put text_discrete (key_of env r) r m else m),
    find-put text_discrete key (key_of env r) r m,
  )

  any_key-missing_from :
      (key : Text) (other m : State)
      → Keyed m
      → any_key env key (missing_from env other m)
        ≡ is_some (find text_discrete key m) && not (is_some (find text_discrete key other))
  unfolding missing_from find
  any_key-missing_from key other [] h = refl
  any_key-missing_from key other ((j, r) ∷ m) h = ground (arith, any_key-missing_from key other m)

  -- The plan adds the keys that are desired (with a destination, and enabled) and not present, and
  -- removes those that are present and not desired; no other.
  pub plan_of_exact :
      (desired current : List Route) (key : Text)
      → (any_key env key (plan_of env desired current).to_add
          ≡ any_with (wanted env) key desired && not (any_with (present env) key current))
        × (any_key env key (plan_of env desired current).to_remove
            ≡ any_with (present env) key current && not (any_with (wanted env) key desired))
  unfolding plan_of find
  plan_of_exact desired current key = ground (
    arith,
    any_key-missing_from key (index env (present env) current [])
        (index env (wanted env) desired []) (index-Keyed (wanted env) desired [] tt),
    any_key-missing_from key (index env (wanted env) desired [])
        (index env (present env) current []) (index-Keyed (present env) current [] tt),
    find-index (wanted env) key desired [],
    find-index (present env) key current [],
  )

  any_key_absent :
      (key : Text) (other m : State)
      → Keyed m
      → find text_discrete key m ≡ none
      → any_key env key (missing_from env other m) ≡ false
  any_key_absent key other m h e = ground (arith, any_key-missing_from key other m h)

  abbrev pub NoRepeat : List Route → Type 0
  NoRepeat [] = Unit
  NoRepeat (r ∷ rs) = (any_key env (key_of env r) rs ≡ false) × NoRepeat rs

  missing_from-NoRepeat :
      (other m : State) → Keyed m → Unique text_discrete m → NoRepeat (missing_from env other m)
  unfolding missing_from
  missing_from-NoRepeat other [] h u = tt
  missing_from-NoRepeat other ((j, r) ∷ m) h u = ground (
    arith,
    missing_from-NoRepeat other m h.1 u.1,
    any_key_absent (key_of env r) other m h.1 (rw h.0 u.0),
  )

  -- A plan has no key twice among its additions, nor among its removals.
  pub plan_of-NoRepeat :
      (desired current : List Route)
      → NoRepeat (plan_of env desired current).to_add
        × NoRepeat (plan_of env desired current).to_remove
  unfolding plan_of
  plan_of-NoRepeat desired current = (
    missing_from-NoRepeat _ _ (index-Keyed _ desired [] tt) (index-Unique _ desired [] tt),
    missing_from-NoRepeat _ _ (index-Keyed _ current [] tt) (index-Unique _ current [] tt),
  )

  put-All :
      (P : Route → Type 0) (key : Text) (r : Route) (m : State)
      → P r
      → All (λ e. P e.1) m
      → All (λ e. P e.1) (put text_discrete key r m)
  unfolding put
  put-All P key r [] hr h = (hr, tt)
  put-All P key r ((j, q) ∷ m) hr h = ground (arith, put-All P key r m)

  index-All :
      (P : Route → Type 0) (p : Route → Bool) (rs : List Route) (m : State)
      → All (λ r. p r ≡ true → P r) rs
      → All (λ e. P e.1) m
      → All (λ e. P e.1) (index env p rs m)
  unfolding index
  index-All P p [] m hs h = h
  index-All P p (r ∷ rs) m hs h =
      index-All P p rs _ hs.1
        (if_cases (All (λ e. P e.1)) (p r) (λ t. put-All P (key_of env r) r m (hs.0 t) h) (λ _. h))

  missing_from-All :
      (P : Route → Type 0) (other m : State) → All (λ e. P e.1) m → All P (missing_from env other m)
  unfolding missing_from
  missing_from-All P other [] h = tt
  missing_from-All P other ((j, r) ∷ m) h = ground (arith, missing_from-All P other m h.1)

  -- What holds of the desired routes with a destination holds of those that the plan adds, and what
  -- holds of the present ones with a destination holds of those that it removes.
  pub plan_of-All :
      (P Q : Route → Type 0) (desired current : List Route)
      → All (λ r. wanted env r ≡ true → P r) desired
      → All (λ r. present env r ≡ true → Q r) current
      → All P (plan_of env desired current).to_add × All Q (plan_of env desired current).to_remove
  unfolding plan_of
  plan_of-All P Q desired current hd hc = (
    missing_from-All P _ _ (index-All P (wanted env) desired [] hd tt),
    missing_from-All Q _ _ (index-All Q (present env) current [] hc tt),
  )
