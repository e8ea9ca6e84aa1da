-- ===== src/Proxy/Counts.antt =====
-- How often a relay stands in a pool and among those that it closed, over each operation of the
-- pool (internal/proxy/relay_pool.go).
use mutiauk.Base.{
  ℕ, ◌+◌, ◌≡◌, refl, Bool, not, Option, none, some, List, [], ◌∷◌, ◌++◌, ◌==◌, if◌then◌else◌,
  filterb, arith, if_cases,
}
use mutiauk.Base.GoMap.{find, put, delete, Unique, put-Unique, delete-Unique, delete_absent}
use mutiauk.Proxy.Pool.{
  RelayEntry, RelayPool, closing, same_relay, relays_of, clear, is_stale, cleanup, touched, pooled,
  remove_found,
}

unfoldable pub count : ℕ → List ℕ → ℕ
count r [] = 0
count r (q ∷ qs) = (if q == r then 1 else 0) + count r qs

pub count-append : (r : ℕ) (xs ys : List ℕ) → count r (xs ++ ys) ≡ count r xs + count r ys
unfolding count
count-append r [] ys = omega arith
count-append r (x ∷ xs) ys = omega (arith, count-append r xs ys)

module _ {K : Type 0} (dec : Discrete K) where
  count-put_new :
      (r : ℕ) (k : K) (e : RelayEntry) (m : List (K × RelayEntry))
      → find dec k m ≡ none
      → count r (relays_of (put dec k e m)) ≡ count r (closing e.relay) + count r (relays_of m)
  unfolding find put
  count-put_new r k e [] h = ground (arith, count-append r (closing e.relay) [])
  count-put_new r k e ((j, f) ∷ m) h = ground (
    arith,
    count-put_new r k e m,
    count-append r (closing e.relay) (closing f.relay ++ relays_of m),
    count-append r (closing f.relay) (relays_of m),
    count-append r (closing f.relay) (relays_of (put dec k e m)),
  )

  count-put_same :
      (r : ℕ) (k : K) (e f : RelayEntry) (m : List (K × RelayEntry))
      → find dec k m ≡ some f
      → e.relay ≡ f.relay
      → count r (relays_of (put dec k e m)) ≡ count r (relays_of m)
  unfolding find put
  count-put_same r k e f [] h q = cc
  count-put_same r k e f ((j, g) ∷ m) h q = ground (
    arith,
    count-put_same r k e f m,
    count-append r (closing g.relay) (relays_of m),
    count-append r (closing e.relay) (relays_of m),
    count-append r (closing g.relay) (relays_of (put dec k e m)),
  )

  count-delete :
      (r : ℕ) (k : K) (e : RelayEntry) (m : List (K × RelayEntry))
      → Unique dec m
      → find dec k m ≡ some e
      → count r (relays_of (delete dec k m)) + count r (closing e.relay) ≡ count r (relays_of m)
  unfolding find delete
  count-delete r k e [] u h = cc
  count-delete r k e ((j, f) ∷ m) u h = ground (
    arith,
    count-delete r k e m,
    count-append r (closing f.relay) (relays_of m),
    count-append r (closing f.relay) (relays_of (delete dec k m)),
    delete_absent dec k m,
  )

  count-filterb :
      (r : ℕ) (p : K × RelayEntry → Bool) (m : List (K × RelayEntry))
      → count r (relays_of (filterb (λ e. not (p e)) m)) + count r (relays_of (filterb p m))
        ≡ count r (relays_of m)
  unfolding count
  count-filterb r p [] = omega (arith)
  count-filterb r p ((j, f) ∷ m) = ground (
    arith,
    count-filterb r p m,
    count-append r (closing f.relay) (relays_of m),
    count-append r (closing f.relay) (relays_of (filterb p m)),
    count-append r (closing f.relay) (relays_of (filterb (λ e. not (p e)) m)),
  )

  find-filterb :
      (k : K) (p : K × RelayEntry → Bool) (m : List (K × RelayEntry))
      → find dec k m ≡ none
      → find dec k (filterb p m) ≡ none
  unfolding find
  find-filterb k p [] h = h
  find-filterb k p ((j, f) ∷ m) h = ground (arith, find-filterb k p m)

  filterb-Unique :
      (p : K × RelayEntry → Bool) (m : List (K × RelayEntry))
      → Unique dec m
      → Unique dec (filterb p m)
  unfolding find
  filterb-Unique p [] u = u
  filterb-Unique p ((j, f) ∷ m) u = ground (arith, filterb-Unique p m, find-filterb j p m)

  -- The parts of a pool that count.
  abbrev pub Kept : RelayPool K → (ℕ → ℕ) → Type 0
  Kept p total =
      Unique dec p.entries × ((r : ℕ) → count r (relays_of p.entries) + count r p.closed ≡ total r)

  abbrev pub total_of : RelayPool K → ℕ → ℕ
  total_of p r = count r (relays_of p.entries) + count r p.closed

  pub touched-Kept :
      (now : ℕ) (k : K) (o : Option RelayEntry) (p : RelayPool K)
      → find dec k p.entries ≡ o
      → Unique dec p.entries
      → Kept (touched dec now k o p).1 (total_of p)
  unfolding touched
  touched-Kept now k none p e u = (u, λ r. refl)
  touched-Kept now k (some f) p e u = (
    put-Unique dec k (record f { last_used = now }) p.entries u,
    λ r. omega (arith, count-put_same r k (record f { last_used = now }) f p.entries e refl),
  )

  pub pooled-Kept :
      (now : ℕ) (k : K) (q : ℕ) (o : Option RelayEntry) (p : RelayPool K)
      → find dec k p.entries ≡ o
      → Unique dec p.entries
      → Kept (pooled dec now k (some q) o p).1 (λ r. count r (q ∷ []) + total_of p r)
  unfolding pooled
  pooled-Kept now k q none p e u = (
    put-Unique dec k (record { relay = some q; last_used = now }) p.entries u,
    λ r. omega (arith, count-put_new r k (record { relay = some q; last_used = now }) p.entries e),
  )
  pooled-Kept now k q (some f) p e u = (
    put-Unique dec k (record f { last_used = now }) p.entries u,
    λ r. omega (
      arith,
      count-put_same r k (record f { last_used = now }) f p.entries e refl,
      count-append r p.closed (q ∷ []),
    ),
  )

  pub remove_found-Kept :
      (k : K) (q : Option ℕ) (o : Option RelayEntry) (p : RelayPool K)
      → find dec k p.entries ≡ o
      → Unique dec p.entries
      → Kept (remove_found dec k q o p) (total_of p)
  unfolding remove_found
  remove_found-Kept k q none p e u = (u, λ r. refl)
  remove_found-Kept k q (some f) p e u =
      if_cases (λ v. Kept v (total_of p)) (same_relay f.relay q)
        (λ _. (
          delete-Unique dec k p.entries u,
          λ r.
              omega (
                arith,
                count-delete r k f p.entries u e,
                count-append r p.closed (closing f.relay),
              ),
        ))
        (λ _. (u, λ r. refl))

  pub cleanup-Kept :
      (now : ℕ) (p : RelayPool K) → Unique dec p.entries → Kept (cleanup now p) (total_of p)
  unfolding cleanup
  cleanup-Kept now p u = (
    filterb-Unique (λ e. not (is_stale now p.ttl e)) p.entries u,
    λ r. omega (
      arith,
      count-filterb r (is_stale now p.ttl) p.entries,
      count-append r p.closed (relays_of (filterb (is_stale now p.ttl) p.entries)),
    ),
  )

  pub clear-Kept : (p : RelayPool K) → Kept (clear p) (total_of p)
  unfolding clear count
  clear-Kept p = (tt, λ r. omega (arith, count-append r p.closed (relays_of p.entries)))
