-- ===== src/Route/Overlaps.antt =====
-- The conflicts that are reported among proposed routes (internal/route/conflict.go).
use mutiauk.Base.{
  ◌≡◌, refl, ◌≤◌, ◌<◌, true, Option, some, List, [], ◌∷◌, ◌++◌, Bytes, arith, ◌⊎◌, inl, inr,
  Bool-cases, sym,
}
use mutiauk.Base.Conn.{Result, ok, err}
use mutiauk.Route.Types.{IpNet, Route, RouteError, State}
use mutiauk.Route.Conflicts.{
  Nets, Conflict, route_contains, route_overlaps, same_text, net_conflict, pair_conflict,
  conflicts_with, conflicts_within, detect_conflicts,
}

-- What package net documents of networks whose masks are those of CIDR notation (for other masks
-- Size answers 0 bits) and have the same number of bits: of two that share an address the wider one
-- has the other's first address.
pub record NetsDocumented (nets : Nets) : Type 0 where
  pub nested :
      (a b : IpNet) (ip : Bytes)
      → 0 < nets.mask_bits a.mask
      → nets.mask_bits a.mask ≡ nets.mask_bits b.mask
      → nets.net_contains a ip ≡ true
      → nets.net_contains b ip ≡ true
      → nets.mask_ones a.mask ≤ nets.mask_ones b.mask
      → nets.net_contains a b.ip ≡ true

-- A conflict of the two routes is among those reported.
abbrev pub Reported : Route → Route → List Conflict → Type 0
Reported r1 r2 [] = ⊥
Reported r1 r2 (c ∷ cs) = ((c.existing ≡ r1) × (c.proposed ≡ r2)) ⊎ Reported r1 r2 cs

append_first-Reported :
    (r1 r2 : Route) (cs ds : List Conflict) → Reported r1 r2 cs → Reported r1 r2 (cs ++ ds)
append_first-Reported r1 r2 [] ds h = absurd h
append_first-Reported r1 r2 (c ∷ cs) ds (inl e) = inl e
append_first-Reported r1 r2 (c ∷ cs) ds (inr h) = inr (append_first-Reported r1 r2 cs ds h)

append_second-Reported :
    (r1 r2 : Route) (cs ds : List Conflict) → Reported r1 r2 ds → Reported r1 r2 (cs ++ ds)
append_second-Reported r1 r2 [] ds h = h
append_second-Reported r1 r2 (c ∷ cs) ds h = inr (append_second-Reported r1 r2 cs ds h)

module _ (nets : Nets) (doc : NetsDocumented nets) where
  shared_overlaps :
      (a b : IpNet) (ip : Bytes)
      → 0 < nets.mask_bits a.mask
      → nets.mask_bits a.mask ≡ nets.mask_bits b.mask
      → nets.net_contains a ip ≡ true
      → nets.net_contains b ip ≡ true
      → route_overlaps nets a b ≡ true
  unfolding route_overlaps route_contains
  shared_overlaps a b ip cidr same ha hb =
      ground
        (arith, doc.nested a b ip cidr same ha hb, doc.nested b a ip (omega arith) (sym same) hb ha)

  net_conflict-Reported :
      (r1 r2 : Route) (a b : IpNet)
      → route_overlaps nets a b ≡ true
      → Reported r1 r2 (net_conflict nets r1 r2 a b)
  unfolding net_conflict
  net_conflict-Reported r1 r2 a b h = elim (Bool-cases (same_text nets a b)) [
    | inl e ↦ rw e (inl (refl, refl))
    | inr e ↦ rw e (rw h (inl (refl, refl)))
  ]

  pair_conflict-Reported :
      (r1 r2 : Route) (a b : IpNet) (o p : Option IpNet)
      → o ≡ some a
      → p ≡ some b
      → route_overlaps nets a b ≡ true
      → Reported r1 r2 (pair_conflict nets r1 r2 o p)
  unfolding pair_conflict
  pair_conflict-Reported r1 r2 a b o p eo ep h = rw eo (rw ep (net_conflict-Reported r1 r2 a b h))

  conflicts_with-Reported :
      (r1 r2 : Route) (a b : IpNet) (ys zs : List Route)
      → r1.destination ≡ some a
      → r2.destination ≡ some b
      → route_overlaps nets a b ≡ true
      → Reported r1 r2 (conflicts_with nets r1 (ys ++ r2 ∷ zs))
  unfolding conflicts_with
  conflicts_with-Reported r1 r2 a b [] zs ea eb h =
      append_first-Reported r1 r2 _ (conflicts_with nets r1 zs)
        (pair_conflict-Reported r1 r2 a b r1.destination r2.destination ea eb h)
  conflicts_with-Reported r1 r2 a b (y ∷ ys) zs ea eb h =
      append_second-Reported r1 r2 (pair_conflict nets r1 y r1.destination y.destination) _
        (conflicts_with-Reported r1 r2 a b ys zs ea eb h)

  conflicts_within-Reported :
      (r1 r2 : Route) (a b : IpNet) (xs ys zs : List Route)
      → r1.destination ≡ some a
      → r2.destination ≡ some b
      → route_overlaps nets a b ≡ true
      → Reported r1 r2 (conflicts_within nets (xs ++ (r1 ∷ (ys ++ r2 ∷ zs))))
  unfolding conflicts_within
  conflicts_within-Reported r1 r2 a b [] ys zs ea eb h =
      append_first-Reported r1 r2 _ (conflicts_within nets (ys ++ r2 ∷ zs))
        (conflicts_with-Reported r1 r2 a b ys zs ea eb h)
  conflicts_within-Reported r1 r2 a b (x ∷ xs) ys zs ea eb h =
      append_second-Reported r1 r2 (conflicts_with nets x (xs ++ (r1 ∷ (ys ++ r2 ∷ zs)))) _
        (conflicts_within-Reported r1 r2 a b xs ys zs ea eb h)

  detect_conflicts-within :
      (r1 r2 : Route) (routes : List Route) (kernel : Result RouteError (List Route))
      (state : Result RouteError State)
      → Reported r1 r2 (conflicts_within nets routes)
      → Reported r1 r2 (detect_conflicts nets routes kernel state)
  unfolding detect_conflicts
  detect_conflicts-within r1 r2 routes (err e) state h = h
  detect_conflicts-within r1 r2 routes (ok kernel) state h =
      append_first-Reported r1 r2 (conflicts_within nets routes) _ h

  -- If the networks of two proposed routes have masks of CIDR notation, of the same number of bits,
  -- and share an address, then, with package net as documented, the later route is reported to conflict with the earlier one, wherever they stand and
  -- whatever the kernel and the state file answer.
  pub shared-Reported :
      (r1 r2 : Route) (a b : IpNet) (xs ys zs : List Route) (ip : Bytes)
      (kernel : Result RouteError (List Route)) (state : Result RouteError State)
      → r1.destination ≡ some a
      → r2.destination ≡ some b
      → 0 < nets.mask_bits a.mask
      → nets.mask_bits a.mask ≡ nets.mask_bits b.mask
      → nets.net_contains a ip ≡ true
      → nets.net_contains b ip ≡ true
      → Reported r1 r2 (detect_conflicts nets (xs ++ (r1 ∷ (ys ++ r2 ∷ zs))) kernel state)
  shared-Reported r1 r2 a b xs ys zs ip kernel state ea eb cidr same ha hb =
      detect_conflicts-within r1 r2 _ kernel state (
        conflicts_within-Reported r1 r2 a b xs ys zs ea eb (shared_overlaps a b ip cidr same ha hb))
