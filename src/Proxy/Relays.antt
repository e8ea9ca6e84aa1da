-- ===== src/Proxy/Relays.antt =====
-- Goroutines that share a pool (internal/proxy/relay_pool.go, raw_udp_forwarder.go): the steps that
-- they take under its lock, in any order, and what becomes of each relay.
use mutiauk.Base.{
  ℕ, suc, ◌+◌, ◌≡◌, refl, ap, true, none, some, List, [], ◌∷◌, ◌++◌, ltb, if◌then◌else◌, arith,
}
use mutiauk.Base.GoMap.{find, put, Unique, find-put_self}
use mutiauk.Proxy.Pool.{
  RelayEntry, RelayPool, new_relay_pool, relays_of, clear, close, cleanup, get, pooled, add_created,
  remove_found, remove,
}
use mutiauk.Proxy.Counts.{
  count, Kept, total_of, touched-Kept, pooled-Kept, remove_found-Kept, cleanup-Kept, clear-Kept,
}

-- The pool, the calls of GetOrCreate whose `create` has a relay that is not pooled yet, and the
-- number of the next relay.
pub record Shared (K : Type 0) : Type 0 where
  pub pool : RelayPool K
  pub pending : List (K × ℕ)
  pub fresh : ℕ

abbrev pub pending_relays : {K : Type 0} → List (K × ℕ) → List ℕ
pending_relays [] = []
pending_relays ((k, r) ∷ m) = r ∷ pending_relays m

module _ {K : Type 0} (dec : Discrete K) where
  pub data Step (s : Shared K) : Shared K → Type 0 where
    reuse : (now : ℕ) (k : K) → Step s (record s { pool = (get dec now k s.pool).1 })
    create :
        (k : K)
        → find dec k s.pool.entries ≡ none
        → Step s (record s { pending = (k, s.fresh) ∷ s.pending; fresh = suc s.fresh })
    finish :
        (now : ℕ) (k : K) (r : ℕ) (before after : List (K × ℕ))
        → s.pending ≡ before ++ (k, r) ∷ after
        → Step s (record s {
          pool = (add_created dec now k (some r) s.pool).1;
          pending = before ++ after;
        })
    evict : (k : K) (r : ℕ) → Step s (record s { pool = remove dec k (some r) s.pool })
    tick : (now : ℕ) → Step s (record s { pool = cleanup now s.pool })
    reset : Step s (record s { pool = clear s.pool })
    stop : Step s (record s { pool = close s.pool })

  pub data Reach (s : Shared K) : Shared K → Type 0 where
    here : Reach s s
    next : {t u : Shared K} → Reach s t → Step t u → Reach s u

  -- Every relay that was created is pending, pooled or closed, and it is so once.
  pub record Accounted (s : Shared K) : Type 0 where
    pub keys : Unique dec s.pool.entries
    pub once :
        (r : ℕ)
        → count r (pending_relays s.pending)
            + count r (relays_of s.pool.entries)
            + count r s.pool.closed
          ≡ (if ltb r s.fresh then 1 else 0)

  pending-append :
      (r : ℕ) (xs ys : List (K × ℕ))
      → count r (pending_relays (xs ++ ys))
        ≡ count r (pending_relays xs) + count r (pending_relays ys)
  unfolding count
  pending-append r [] ys = omega arith
  pending-append r ((k, q) ∷ xs) ys = omega (arith, pending-append r xs ys)

  -- A step that leaves the pending relays alone.
  same_pending-Accounted :
      (s : Shared K) (p : RelayPool K)
      → Kept dec p (total_of dec s.pool)
      → Accounted s
      → Accounted (record s { pool = p })
  same_pending-Accounted s p h a = record { keys = h.0; once = λ r. omega (arith, h.1 r, a.once r) }

  step-Accounted : {s t : Shared K} → Step s t → Accounted s → Accounted t
  unfolding get add_created remove close count
  step-Accounted {s} (reuse now k) a =
      same_pending-Accounted s _
        (touched-Kept dec now k (find dec k s.pool.entries) s.pool refl a.keys) a
  step-Accounted {s} (create k h) a = record { keys = a.keys; once = λ r. ground (arith, a.once r) }
  step-Accounted {s} (finish now k q before after e) a =
      let h = pooled-Kept dec now k q (find dec k s.pool.entries) s.pool refl a.keys in
      record {
        keys = h.0;
        once = λ r. omega (
          arith,
          h.1 r,
          a.once r,
          ap (λ m. count r (pending_relays m)) e,
          pending-append r before ((k, q) ∷ after),
          pending-append r before after,
        );
      }
  step-Accounted {s} (evict k q) a =
      same_pending-Accounted s _
        (remove_found-Kept dec k (some q) (find dec k s.pool.entries) s.pool refl a.keys) a
  step-Accounted {s} (tick now) a =
      same_pending-Accounted s _ (cleanup-Kept dec now s.pool a.keys) a
  step-Accounted {s} reset a = same_pending-Accounted s _ (clear-Kept dec s.pool) a
  step-Accounted {s} stop a =
      same_pending-Accounted s _ (clear-Kept dec (record (s.pool) { stopped = true })) a

  Reach-Accounted : {s t : Shared K} → Reach s t → Accounted s → Accounted t
  Reach-Accounted here a = a
  Reach-Accounted (next r st) a = step-Accounted st (Reach-Accounted r a)

  abbrev pub start : ℕ → Shared K
  start ttl = record { pool = new_relay_pool ttl; pending = []; fresh = 0 }

  -- Whatever the goroutines that share a new pool do, in any order: every relay that was created is
  -- pending, in the pool or closed, and it is so exactly once; so no relay is closed twice, none
  -- is in the pool after the pool closed it, and none is lost.
  pub Reach_start-Accounted : (ttl : ℕ) (t : Shared K) → Reach (start ttl) t → Accounted t
  unfolding new_relay_pool count
  Reach_start-Accounted ttl t r = Reach-Accounted r (record { keys = tt; once = λ q. ground arith })

  add_created_new :
      (now : ℕ) (k : K) (r : ℕ) (p : RelayPool K)
      → find dec k p.entries ≡ none
      → (add_created dec now k (some r) p).1
        ≡ record p { entries = put dec k (record { relay = some r; last_used = now }) p.entries }
  unfolding add_created pooled
  add_created_new now k r p h = rw h refl

  remove_absent :
      (k : K) (r : ℕ) (p : RelayPool K) → find dec k p.entries ≡ none → remove dec k (some r) p ≡ p
  unfolding remove remove_found
  remove_absent k r p h = rw h refl

  -- If the pool has no relay for a key, then neither the eviction of a relay nor the closing of the
  -- pool before the relay is pooled keeps it out: it is in the pool afterwards, and not closed.
  pub late_relay_stays :
      (now : ℕ) (k : K) (r : ℕ) (p : RelayPool K)
      → find dec k p.entries ≡ none
      → (find dec k (add_created dec now k (some r) (remove dec k (some r) p)).1.entries
          ≡ some (record { relay = some r; last_used = now }))
        × ((add_created dec now k (some r) (remove dec k (some r) p)).1.closed ≡ p.closed)
        × (find dec k (add_created dec now k (some r) (close p)).1.entries
            ≡ some (record { relay = some r; last_used = now }))
        × ((add_created dec now k (some r) (close p)).1.closed ≡ (close p).closed)
  unfolding close clear find
  late_relay_stays now k r p h =
      let e : RelayEntry = record { relay = some r; last_used = now } in
      rw (remove_absent k r p h) (
        rw (add_created_new now k r p h) (
          rw (add_created_new now k r (close p) refl)
            (find-put_self dec k e p.entries, refl, find-put_self dec k e [], refl)))
