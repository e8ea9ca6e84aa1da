-- ===== src/Autoroutes/Longest.antt =====
-- Lemmas on lookupPathInDashboard (internal/autoroutes/snapshot.go).
use mutiauk.Base.{
  ℕ, ◌≡◌, ◌≤◌, refl, Bool, true, false, ◌&&◌, Option, none, some, List, [], ◌∷◌, Bytes, bytes,
  arith, if_cases, All, ltb, filterb,
}
use mutiauk.Route.Types.{IpNet}
use mutiauk.Autoroutes.Rules.{Net, DashboardRoute, is_text, longer, best_match}

module _ (net : Net) where
  -- A CIDR route of the dashboard whose network contains the address.
  abbrev pub covers_in : Bytes → Option IpNet → Bool
  covers_in ip none = false
  covers_in ip (some n) = net.net_contains n ip

  abbrev pub covers : Bytes → DashboardRoute → Bool
  covers ip r = is_text r.route_type (bytes "cidr") && covers_in ip (net.parse_cidr r.network)

  abbrev pub ones_of : Option IpNet → ℕ
  ones_of none = 0
  ones_of (some n) = net.ones n

  -- The best match, where its prefix is at least m long.
  abbrev pub AtLeast : ℕ → Option (DashboardRoute × ℕ) → Type 0
  AtLeast m none = ⊥
  AtLeast m (some (r, n)) = m ≤ n

  longer-AtLeast :
      (m : ℕ) (r : DashboardRoute) (ip : Bytes) (o : Option IpNet)
      (best : Option (DashboardRoute × ℕ))
      → AtLeast m best
      → AtLeast m (longer net r ip o best)
  unfolding longer
  longer-AtLeast m r ip none best h = h
  longer-AtLeast m r ip (some n) none h = absurd h
  longer-AtLeast m r ip (some n) (some (q, k)) h = ground arith

  best_match-AtLeast :
      (m : ℕ) (rs : List DashboardRoute) (ip : Bytes) (best : Option (DashboardRoute × ℕ))
      → AtLeast m best
      → AtLeast m (best_match net rs ip best)
  unfolding best_match
  best_match-AtLeast m [] ip best h = h
  best_match-AtLeast m (r ∷ rs) ip best h = best_match-AtLeast m rs ip _ (
      if_cases (AtLeast m) (is_text r.route_type (bytes "cidr"))
        (λ _. longer-AtLeast m r ip (net.parse_cidr r.network) best h) (λ _. h))

  longer_self :
      (r : DashboardRoute) (ip : Bytes) (o : Option IpNet) (best : Option (DashboardRoute × ℕ))
      → covers_in ip o ≡ true
      → AtLeast (ones_of o) (longer net r ip o best)
  unfolding longer
  longer_self r ip none best h = cc
  longer_self r ip (some n) none h = ground arith
  longer_self r ip (some n) (some (q, k)) h = ground arith

  best_match_longest :
      (rs : List DashboardRoute) (ip : Bytes) (best : Option (DashboardRoute × ℕ))
      → All
          (λ r.
            covers ip r ≡ true
            → AtLeast (ones_of (net.parse_cidr r.network)) (best_match net rs ip best))
          rs
  unfolding best_match
  best_match_longest [] ip best = tt
  best_match_longest (r ∷ rs) ip best = (
    λ h. best_match-AtLeast (ones_of (net.parse_cidr r.network)) rs ip _ (
        if_cases (AtLeast (ones_of (net.parse_cidr r.network)))
          (is_text r.route_type (bytes "cidr"))
          (λ e. longer_self r ip (net.parse_cidr r.network) best (ground arith))
          (λ e. absurd (ground arith))),
    best_match_longest rs ip _,
  )

  -- A best match covers the address, has the length that goes with it, and is one of the routes.
  abbrev pub Matched : (DashboardRoute → Type 0) → Bytes → Option (DashboardRoute × ℕ) → Type 0
  Matched P ip none = Unit
  Matched P ip (some (r, n)) = P r × (covers ip r ≡ true) × (n ≡ ones_of (net.parse_cidr r.network))

  longer-Matched :
      (P : DashboardRoute → Type 0) (r : DashboardRoute) (ip : Bytes) (o : Option IpNet)
      (best : Option (DashboardRoute × ℕ))
      → net.parse_cidr r.network ≡ o
      → is_text r.route_type (bytes "cidr") ≡ true
      → P r
      → Matched P ip best
      → Matched P ip (longer net r ip o best)
  unfolding longer
  longer-Matched P r ip none best e c p h = h
  longer-Matched P r ip (some n) none e c p h =
      if_cases (Matched P ip) (net.net_contains n ip)
        (λ t. (p, ground (arith, e), ground (arith, e))) (λ _. tt)
  longer-Matched P r ip (some n) (some (q, k)) e c p h =
      if_cases (Matched P ip) (net.net_contains n ip && ltb k (net.ones n))
        (λ t. (p, ground (arith, e), ground (arith, e))) (λ _. h)

  best_match-Matched :
      (P : DashboardRoute → Type 0) (rs : List DashboardRoute) (ip : Bytes)
      (best : Option (DashboardRoute × ℕ))
      → All P rs
      → Matched P ip best
      → Matched P ip (best_match net rs ip best)
  unfolding best_match
  best_match-Matched P [] ip best p h = h
  best_match-Matched P (r ∷ rs) ip best p h = best_match-Matched P rs ip _ p.1 (
      if_cases (Matched P ip) (is_text r.route_type (bytes "cidr"))
        (λ c. longer-Matched P r ip (net.parse_cidr r.network) best refl c p.0 h) (λ _. h))

  All-filterb :
      (p : DashboardRoute → Bool) (Q : DashboardRoute → Type 0) (rs : List DashboardRoute)
      → All (λ r. p r ≡ true → Q r) rs
      → All Q (filterb p rs)
  All-filterb p Q [] h = tt
  All-filterb p Q (r ∷ rs) h = ground (arith, All-filterb p Q rs h.1)

  -- The best match of a lookup, if there is one, covers the address and has whatever property all
  -- the routes have; and the best match is at least as long as every route that covers the address,
  -- so that there is none only if no route covers it.
  pub best_match_exact :
      (P : DashboardRoute → Type 0) (rs : List DashboardRoute) (ip : Bytes)
      → All P rs
      → Matched P ip (best_match net rs ip none)
        × All
            (λ r. AtLeast (ones_of (net.parse_cidr r.network)) (best_match net rs ip none))
            (filterb (covers ip) rs)
  best_match_exact P rs ip p = (
    best_match-Matched P rs ip none p tt,
    All-filterb (covers ip) _ rs (best_match_longest rs ip none),
  )
