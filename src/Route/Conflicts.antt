-- ===== src/Route/Conflicts.antt =====
-- DetectConflicts and ValidateRoutes (internal/route/conflict.go), with routeContains and
-- routeOverlaps (internal/route/plan.go). What package net tells of a network is in `Nets`.
use mutiauk.Base.{
  ℕ, suc, Bool, false, not, ◌&&◌, ◌||◌, Option, none, some, List, [], ◌∷◌, ◌++◌, Bytes, Text,
  text_discrete, does, is_some, ltb, ◌==◌, if◌then◌else◌,
}
use mutiauk.Base.Ip.{to4}
use mutiauk.Base.Conn.{Result, ok, err}
use mutiauk.Base.GoMap.{find}
use mutiauk.Route.Types.{IpNet, Route, RouteError, State}

-- IPMask.Size, IPNet.Contains and IPNet.String.
pub record Nets : Type 0 where
  pub mask_ones : Bytes → ℕ
  pub mask_bits : Bytes → ℕ
  pub net_contains : IpNet → Bytes → Bool
  pub net_text : IpNet → Text

pub data Reason : Type 0 where
  duplicate_route system_route shadows_existing : Reason
  contained_within : (inner outer : IpNet) → Reason

pub record Conflict : Type 0 where
  pub existing : Route
  pub proposed : Route
  pub reason : Reason

pub data RouteProblem : Type 0 where
  destination_required invalid_mask ipv4_gateway ipv6_gateway : ℕ → RouteProblem
  broad_ipv4 broad_ipv6 : (i ones : ℕ) → RouteProblem

abbrev pub conflict : Route → Route → Reason → List Conflict
conflict existing proposed reason =
    record { existing = existing; proposed = proposed; reason = reason } ∷ []

abbrev pub when : {A : Type 0} → Bool → A → List A
when b a = if b then a ∷ [] else []

module _ (nets : Nets) where
  unfoldable pub route_contains : IpNet → IpNet → Bool
  route_contains a b =
      if not (nets.mask_bits a.mask == nets.mask_bits b.mask)
      then false
      else (if ltb (nets.mask_ones b.mask) (nets.mask_ones a.mask)
          then false
          else nets.net_contains a b.ip)

  unfoldable pub route_overlaps : IpNet → IpNet → Bool
  unfolding route_contains
  route_overlaps a b = route_contains a b || route_contains b a

  unfoldable pub same_text : IpNet → IpNet → Bool
  unfolding text_discrete
  same_text a b = does (text_discrete (nets.net_text a) (nets.net_text b))

  unfoldable pub net_conflict : Route → Route → IpNet → IpNet → List Conflict
  unfolding same_text route_overlaps
  net_conflict r1 r2 a b =
      if same_text a b
      then conflict r1 r2 duplicate_route
      else (if route_overlaps a b
          then conflict r1 r2
              (if route_contains a b then contained_within b a else contained_within a b)
          else [])

  unfoldable pub pair_conflict : Route → Route → Option IpNet → Option IpNet → List Conflict
  unfolding net_conflict
  pair_conflict r1 r2 none b = []
  pair_conflict r1 r2 (some a) none = []
  pair_conflict r1 r2 (some a) (some b) = net_conflict r1 r2 a b

  -- One route against those after it, and all pairs.
  unfoldable pub conflicts_with : Route → List Route → List Conflict
  unfolding pair_conflict
  conflicts_with r1 [] = []
  conflicts_with r1 (r2 ∷ rs) =
      pair_conflict r1 r2 r1.destination r2.destination ++ conflicts_with r1 rs

  unfoldable pub conflicts_within : List Route → List Conflict
  unfolding conflicts_with
  conflicts_within [] = []
  conflicts_within (r ∷ rs) = conflicts_with r rs ++ conflicts_within rs

  unfoldable pub kernel_conflict :
      State → Route → Route → Option IpNet → Option IpNet → List Conflict
  unfolding find same_text route_contains text_discrete
  kernel_conflict managed proposed existing none b = []
  kernel_conflict managed proposed existing (some a) none = []
  kernel_conflict managed proposed existing (some a) (some b) =
      if is_some (find text_discrete (nets.net_text b) managed)
      then []
      else (if same_text a b
          then conflict existing proposed system_route
          else (if route_contains a b then conflict existing proposed shadows_existing else []))

  unfoldable pub conflicts_with_kernel : State → Route → List Route → List Conflict
  unfolding kernel_conflict
  conflicts_with_kernel managed proposed [] = []
  conflicts_with_kernel managed proposed (existing ∷ rs) =
      kernel_conflict managed proposed existing proposed.destination existing.destination
      ++ conflicts_with_kernel managed proposed rs

  unfoldable pub all_kernel_conflicts : State → List Route → List Route → List Conflict
  unfolding conflicts_with_kernel
  all_kernel_conflicts managed kernel [] = []
  all_kernel_conflicts managed kernel (r ∷ rs) =
      conflicts_with_kernel managed r kernel ++ all_kernel_conflicts managed kernel rs

  -- A state that cannot be loaded counts as empty.
  abbrev pub managed_state : Result RouteError State → State
  managed_state (ok s) = s
  managed_state (err e) = []

  -- DetectConflicts, with the answers of ListKernel and loadState.
  unfoldable pub detect_conflicts :
      List Route → Result RouteError (List Route) → Result RouteError State → List Conflict
  unfolding conflicts_within all_kernel_conflicts
  detect_conflicts routes (err e) state = conflicts_within routes
  detect_conflicts routes (ok kernel) state =
      conflicts_within routes ++ all_kernel_conflicts (managed_state state) kernel routes

  abbrev pub gateway_problems : ℕ → Bytes → IpNet → List RouteProblem
  gateway_problems i [] d = []
  gateway_problems i (b ∷ gw) d =
      when (is_some (to4 (b ∷ gw)) && not (is_some (to4 d.ip))) (ipv4_gateway i)
      ++ when (not (is_some (to4 (b ∷ gw))) && is_some (to4 d.ip)) (ipv6_gateway i)

  abbrev pub route_problems : ℕ → Route → Option IpNet → List RouteProblem
  route_problems i r none = destination_required i ∷ []
  route_problems i r (some d) =
      let ones = nets.mask_ones d.mask in
      let bits = nets.mask_bits d.mask in
      when (bits == 0) (invalid_mask i)
      ++ (when (ltb ones 8 && bits == 32) (broad_ipv4 i ones)
          ++ (when (ltb ones 16 && bits == 128) (broad_ipv6 i ones)
              ++ gateway_problems i r.gateway d))

  unfoldable pub validate_from : ℕ → List Route → List RouteProblem
  unfolding to4
  validate_from i [] = []
  validate_from i (r ∷ rs) = route_problems i r r.destination ++ validate_from (suc i) rs

  unfoldable pub validate_routes : List Route → List RouteProblem
  unfolding validate_from
  validate_routes routes = validate_from 0 routes
