-- ===== src/Daemon/Pacing.antt =====
-- The jitter of reconnects (internal/backoff/backoff.go) and the limiter of log lines
-- (internal/stack/ratelimit.go). Durations and times are nanoseconds; `random` is what rand.Int63n
-- answers, and the limiter's zero time is 0.
use mutiauk.Base.{
  ℕ, ◌+◌, ◌-◌, ◌*◌, ◌/◌, ◌≤◌, ◌<◌, ◌≡◌, refl, Bool, true, false, List, [], ◌∷◌, ltb, leb, ◌==◌,
  if◌then◌else◌, arith, length,
}

abbrev pub jitter_floor : ℕ
jitter_floor = 100_000_000

-- Jitter of a duration that is not negative; half of it is at most the duration, so the difference
-- is not negative either.
unfoldable pub jitter : ℕ → ℕ → ℕ
jitter random d =
    let out = (d + random) - d / 4 in
    if d == 0 then d else (if ltb out jitter_floor then jitter_floor else out)

-- For a positive duration and an answer of Int63n below its bound, the jittered duration is at
-- least the floor and the duration less a quarter, and at most the duration and a quarter more,
-- unless it is the floor.
pub jitter_bounds :
    (random d : ℕ)
    → 0 < d
    → random < 2 * (d / 4) + 1
    → (jitter_floor ≤ jitter random d)
      × (d - d / 4 ≤ jitter random d)
      × (jitter random d ≤ jitter_floor + (d + d / 4 - jitter_floor))
unfolding jitter
jitter_bounds random d h k = ground arith

pub record LogRateLimiter : Type 0 where
  pub interval : ℕ
  pub last : ℕ
  pub suppressed : ℕ

-- allow at a time.
unfoldable pub allow : ℕ → LogRateLimiter → (ℕ × Bool) × LogRateLimiter
allow now l =
    if leb l.interval (now - l.last)
    then ((l.suppressed, true), record l { suppressed = 0; last = now })
    else ((0, false), record l { suppressed = l.suppressed + 1 })

-- The calls of a run: how many were allowed, how many suppressed ones they reported, and the limiter.
pub record Tally : Type 0 where
  pub allowed : ℕ
  pub reported : ℕ
  pub left : LogRateLimiter

pub allow_all : List ℕ → LogRateLimiter → Tally
unfolding allow
allow_all [] l = record { allowed = 0; reported = 0; left = l }
allow_all (now ∷ times) l =
    let ((n, ok), l') = allow now l in
    let t = allow_all times l' in
    record { allowed = (if ok then 1 else 0) + t.allowed; reported = n + t.reported; left = t.left }

-- Every call of a run is allowed, reported as suppressed by an allowed one, or still counted as
-- suppressed.
pub allow_all_accounted :
    (times : List ℕ) (l : LogRateLimiter)
    → (allow_all times l).allowed
        + (allow_all times l).reported
        + (allow_all times l).left.suppressed
      ≡ length times + l.suppressed
unfolding allow_all allow
allow_all_accounted [] l = refl
allow_all_accounted (now ∷ times) l = ground (arith, allow_all_accounted times (allow now l).1)
