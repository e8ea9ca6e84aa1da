-- ===== src/Base/GoMap.antt =====
-- Go's maps as association lists: an assignment replaces or adds, `delete` removes. The order of
-- the list stands for the unspecified order of `range`.
use Prim.Native.Nat.{suc, ◌≤◌}
use mathlib.Core.Logic.{ite}
use mathlib.Core.List.{List, [], ◌∷◌}
use mathlib.Core.Bool.{Bool, false, ◌||◌}
use mathlib.Core.Option.{Option, none, some}
use mathlib.Core.Path.{◌≡◌, refl}
use native.Mathlib.Omega.{arith}
use mutiauk.Base.Lists.{length, filterb}
use mutiauk.Base.Tests.{does, if◌then◌else◌}

unfoldable pub contains {ℓ} : {K : Type ℓ} → Discrete K → K → List K → Bool
contains dec k [] = false
contains dec k (j ∷ ks) = does (dec j k) || contains dec k ks

-- Whether the value under a key passes a test.
abbrev pub test_at {ℓ} : {V : Type ℓ} → (V → Bool) → Option V → Bool
test_at p none = false
test_at p (some v) = p v

module _ {ℓ} {K V : Type ℓ} where
  abbrev pub keys : List (K × V) → List K
  keys [] = []
  keys ((k, v) ∷ m) = k ∷ keys m

  abbrev pub values : List (K × V) → List V
  values [] = []
  values ((k, v) ∷ m) = v ∷ values m

module _ {ℓ} {K V : Type ℓ} (dec : Discrete K) where
  unfoldable pub find : K → List (K × V) → Option V
  find k [] = none
  find k ((j, v) ∷ m) = ite (dec j k) (some v) (find k m)

  unfoldable pub put : K → V → List (K × V) → List (K × V)
  put k v [] = (k, v) ∷ []
  put k v ((j, w) ∷ m) = ite (dec j k) ((k, v) ∷ m) ((j, w) ∷ put k v m)

  unfoldable pub delete : K → List (K × V) → List (K × V)
  delete k [] = []
  delete k ((j, w) ∷ m) = ite (dec j k) (delete k m) ((j, w) ∷ delete k m)

  -- No key stands twice, as in every Go map.
  abbrev pub Unique : List (K × V) → Type ℓ
  Unique [] = Unit
  Unique ((j, w) ∷ m) = (find j m ≡ none) × Unique m

  pub find-put :
      (j k : K) (v : V) (m : List (K × V)) → find j (put k v m) ≡ ite (dec k j) (some v) (find j m)
  unfolding find put
  find-put j k v [] = refl
  find-put j k v ((i, w) ∷ m) = ground (arith, find-put j k v m)

  pub find-delete :
      (j k : K) (m : List (K × V)) → find j (delete k m) ≡ ite (dec k j) none (find j m)
  unfolding find delete
  find-delete j k [] = ground arith
  find-delete j k ((i, w) ∷ m) = ground (arith, find-delete j k m)

  pub find-put_self : (k : K) (v : V) (m : List (K × V)) → find k (put k v m) ≡ some v
  find-put_self k v m = ground (arith, find-put k k v m)

  pub put-Unique : (k : K) (v : V) (m : List (K × V)) → Unique m → Unique (put k v m)
  unfolding find put
  put-Unique k v [] u = (refl, tt)
  put-Unique k v ((i, w) ∷ m) u = ground (arith, find-put i k v m, put-Unique k v m)

  pub delete-Unique : (k : K) (m : List (K × V)) → Unique m → Unique (delete k m)
  unfolding find delete
  delete-Unique k [] u = u
  delete-Unique k ((i, w) ∷ m) u = ground (arith, find-delete i k m, delete-Unique k m)

  pub length-put_new :
      (k : K) (v : V) (m : List (K × V)) → find k m ≡ none → length (put k v m) ≡ suc (length m)
  unfolding find put
  length-put_new k v [] h = refl
  length-put_new k v ((i, w) ∷ m) h = ground (arith, length-put_new k v m)

  pub length-put_old :
      (k : K) (v w : V) (m : List (K × V)) → find k m ≡ some w → length (put k v m) ≡ length m
  unfolding find put
  length-put_old k v x [] h = cc
  length-put_old k v x ((i, w) ∷ m) h = ground (arith, length-put_old k v x m)

  pub length-delete-le : (k : K) (m : List (K × V)) → length (delete k m) ≤ length m
  unfolding delete
  length-delete-le k [] = omega arith
  length-delete-le k ((i, w) ∷ m) = ground (arith, length-delete-le k m)

  pub delete_absent : (k : K) (m : List (K × V)) → find k m ≡ none → delete k m ≡ m
  unfolding find delete
  delete_absent k [] h = refl
  delete_absent k ((i, w) ∷ m) h = ground (arith, delete_absent k m)

  -- `for _, k := range ks { delete(m, k) }`
  unfoldable pub delete_all : List K → List (K × V) → List (K × V)
  delete_all [] m = m
  delete_all (k ∷ ks) m = delete_all ks (delete k m)

  pub find-delete_all :
      (k : K) (ks : List K) (m : List (K × V))
      → find k (delete_all ks m) ≡ (if contains dec k ks then none else find k m)
  unfolding contains delete_all
  find-delete_all k [] m = refl
  find-delete_all k (j ∷ ks) m =
      ground (arith, find-delete_all k ks (delete j m), find-delete k j m)

  pub delete_all-Unique : (ks : List K) (m : List (K × V)) → Unique m → Unique (delete_all ks m)
  unfolding delete_all
  delete_all-Unique [] m u = u
  delete_all-Unique (j ∷ ks) m u = delete_all-Unique ks (delete j m) (delete-Unique j m u)

  pub length-delete_all-le : (ks : List K) (m : List (K × V)) → length (delete_all ks m) ≤ length m
  unfolding delete_all
  length-delete_all-le [] m = omega arith
  length-delete_all-le (j ∷ ks) m =
      omega (arith, length-delete_all-le ks (delete j m), length-delete-le j m)

  -- The keys that a `range` with a test collects, and only those.
  pub contains-keys-filterb :
      (p : V → Bool) (k : K) (m : List (K × V))
      → Unique m
      → contains dec k (keys (filterb (λ e. p e.1) m)) ≡ test_at p (find k m)
  unfolding contains find
  contains-keys-filterb p k [] u = refl
  contains-keys-filterb p k ((j, v) ∷ m) u = ground (arith, contains-keys-filterb p k m)
