-- ===== src/Config/Waits.antt =====
-- What a validated expose section (internal/config/config.go) means for the manager of the forwards
-- (internal/expose/expose.go): its waits between attempts and its keys. Durations are unbounded
-- numbers of nanoseconds here, where the source has an int64.
use mutiauk.Base.{
  ℕ, suc, ◌+◌, ◌-◌, ◌*◌, ◌/◌, ◌<◌, ◌≤◌, ◌≡◌, refl, ap, ◌∙◌, Bool, true, false, Option, none, some,
  List, [], ◌∷◌, Text, text_discrete, arith, All, if◌then◌else◌, Bool-cases, inl, inr, sym,
}
use mutiauk.Base.GoMap.{contains}
use mutiauk.Route.Types.{pos}
use mutiauk.Expose.Manager.{ForwardConfig, next_backoff}
use mutiauk.Daemon.Pacing.{jitter, jitter_bounds}
use mutiauk.Config.Forwards.{
  Host, ExposeConfig, ConfigError, duplicate_forward, below, less, validate_forward,
  validate_forwards, validate_expose, or_later,
}

-- The loop of run, for the attempts that end before the context does: which of them fail, and the
-- backoff that is reached. The result has each attempt's backoff and its wait; `random i n` is the
-- i-th answer of rand.Int63n(n).
unfoldable pub waits : (ℕ → ℕ → ℕ) → ℕ → ℕ → ℕ → List Bool → ℕ → List (ℕ × ℕ)
unfolding next_backoff jitter
waits random i min_backoff max_backoff [] d = []
waits random i min_backoff max_backoff (failed ∷ rest) d =
    let backoff_dur = if failed then d else min_backoff in
    (backoff_dur, jitter (random i (2 * (backoff_dur / 4) + 1)) backoff_dur)
    ∷ waits random (suc i) min_backoff max_backoff rest
        (next_backoff min_backoff max_backoff failed d)

abbrev pub Within : ℕ → ℕ → ℕ → Type 0
Within a b d = (a ≤ d) × (d ≤ b)

-- What rand.Int63n documents: its answer is below its positive argument.
abbrev pub RandDocumented : (ℕ → ℕ → ℕ) → Type 0
RandDocumented random = (i n : ℕ) → 0 < n → random i n < n

-- A backoff between the bounds whose double fits an int64, and a wait of a tenth of a second at least
-- that differs from the backoff by at most a quarter of it.
abbrev pub Paced : ℕ → ℕ → ℕ × ℕ → Type 0
Paced a b (d, wait) =
    Within a b d
    × (d * 2 < 9223372036854775808)
    × (100000000 ≤ wait)
    × (d - d / 4 ≤ wait)
    × (wait ≤ d + d / 4)

next_backoff-Within :
    (a b d : ℕ) (failed : Bool) → a ≤ b → Within a b d → Within a b (next_backoff a b failed d)
unfolding next_backoff
next_backoff-Within a b d true h w = ground arith
next_backoff-Within a b d false h w = omega arith

module _ (random : ℕ → ℕ → ℕ) (doc : RandDocumented random) (a b : ℕ) where
  jitter-Paced :
      (i d : ℕ)
      → 100000000 ≤ a
      → b < 4611686018427387904
      → Within a b d
      → Paced a b (d, jitter (random i (2 * (d / 4) + 1)) d)
  jitter-Paced i d l u w =
      let bounds =
        jitter_bounds (random i (2 * (d / 4) + 1)) d (omega arith)
          (doc i (2 * (d / 4) + 1) (omega arith)) in
      (w, omega arith, bounds.0, bounds.1, omega (arith, bounds.2))

  waits-Paced :
      (i : ℕ) (outcomes : List Bool) (d : ℕ)
      → a ≤ b
      → 100000000 ≤ a
      → b < 4611686018427387904
      → Within a b d
      → All (Paced a b) (waits random i a b outcomes d)
  unfolding waits
  waits-Paced i [] d h l u w = tt
  waits-Paced i (true ∷ rest) d h l u w = (
    jitter-Paced i d l u w,
    waits-Paced (suc i) rest _ h l u (next_backoff-Within a b d true h w),
  )
  waits-Paced i (false ∷ rest) d h l u w = (
    jitter-Paced i a l u (omega arith, h),
    waits-Paced (suc i) rest _ h l u (next_backoff-Within a b d false h w),
  )

-- The keys of a list that differ from each other and from those seen.
abbrev pub Distinct : List Text → List ForwardConfig → Type 0
Distinct seen [] = Unit
Distinct seen (f ∷ fs) = (contains text_discrete f.key seen ≡ false) × Distinct (f.key ∷ seen) fs

some_or_none : {e : ConfigError} → some e ≡ none → ⊥
some_or_none h = cc

module _ (h : Host) where
  or_later-none : (a b : Option ConfigError) → or_later h a b ≡ none → (a ≡ none) × (b ≡ none)
  or_later-none none b e = (refl, e)
  or_later-none (some x) b e = absurd (cc)

  forwards-Distinct :
      (i : ℕ) (seen : List Text) (fs : List ForwardConfig)
      → validate_forwards h i seen fs ≡ none
      → Distinct seen fs × All (λ f. validate_forward h f ≡ none) fs
  unfolding validate_forwards
  forwards-Distinct i seen [] e = (tt, tt)
  forwards-Distinct i seen (f ∷ fs) e =
      let parts =
        or_later-none (validate_forward h f)
          (if contains text_discrete f.key seen
            then some (duplicate_forward i)
            else validate_forwards h (suc i) (f.key ∷ seen) fs)
          e in
      elim (Bool-cases (contains text_discrete f.key seen)) [
        | inl t ↦ absurd (some_or_none (rw t at parts.1))
        | inr t ↦
            let later = forwards-Distinct (suc i) (f.key ∷ seen) fs (rw t at parts.1) in
            ((t, later.0), (parts.0, later.1))
      ]

  accepted :
      (server : Text) (c : ExposeConfig)
      → c.enabled ≡ true
      → validate_expose h server c ≡ none
      → (below c.reconnect_min 100000000 ≡ false)
        × (less c.reconnect_max c.reconnect_min ≡ false)
        × (validate_forwards h 0 [] c.forwards ≡ none)
  unfolding validate_expose
  accepted server c he hv = ground arith

  -- If validation accepts an enabled expose section whose greatest backoff is below 2 ^ 62, then its
  -- least backoff is at least a tenth of a second; whichever attempts fail, every backoff of the
  -- manager is between the least and the greatest, its double fits an int64, and the wait that jitter
  -- makes of it is at least a tenth of a second and differs from it by at most a quarter of it, if
  -- rand.Int63n answers below its argument; and its keys are distinct and each forward is valid.
  pub validate_expose-Within :
      (random : ℕ → ℕ → ℕ) (doc : RandDocumented random) (server : Text) (c : ExposeConfig)
      (a b : ℕ) (outcomes : List Bool)
      → c.enabled ≡ true
      → c.reconnect_min ≡ pos a
      → c.reconnect_max ≡ pos b
      → b < 4611686018427387904
      → validate_expose h server c ≡ none
      → (100000000 ≤ a)
        × All (Paced a b) (waits random 0 a b outcomes a)
        × Distinct [] c.forwards
        × All (λ f. validate_forward h f ≡ none) c.forwards
  validate_expose-Within random doc server c a b outcomes he ha hb hu hv =
      let facts = accepted server c he hv in
      let low : below (pos a) 100000000 ≡ false = ap (λ m. below m 100000000) (sym ha) ∙ facts.0 in
      let order : less (pos b) (pos a) ≡ false =
        ap (λ m. less (pos b) m) (sym ha) ∙ ap (λ m. less m c.reconnect_min) (sym hb) ∙ facts.1 in
      let le : a ≤ b = ground arith in
      let least : 100000000 ≤ a = ground arith in
      let keys = forwards-Distinct 0 [] c.forwards facts.2 in
      (least, waits-Paced random doc a b 0 outcomes a le least hu (omega arith, le), keys.0, keys.1)
