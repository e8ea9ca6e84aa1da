-- ===== src/Daemon/Protected.antt =====
-- The routes that are refused because they cover the proxy (internal/daemon/protected_routes.go).
-- IPNet.Contains is an argument; a refusal has the address that its reason names.
use mutiauk.Base.{Bool, false, ◌||◌, Option, none, some, List, [], ◌∷◌, Bytes, Text, if◌then◌else◌}
use mutiauk.Route.Types.{IpNet, Route}
use mutiauk.Daemon.Events.{Sets, dest_string, classify_route}

pub record RefusedRoute : Type 0 where
  pub destination : Text
  pub source : Text
  pub covered : Bytes

module _ (net_contains : IpNet → Bytes → Bool) where
  unfoldable pub first_in : IpNet → List Bytes → Option Bytes
  first_in n [] = none
  first_in n (ip ∷ ips) = let rest = first_in n ips in if net_contains n ip then some ip else rest

  unfoldable pub contains_protected_ip : Option IpNet → List Bytes → Option Bytes
  unfolding first_in
  contains_protected_ip none protected = none
  contains_protected_ip (some n) protected = first_in n protected

  -- One route of the loop: the lists that follow it, with the route put to one of them.
  unfoldable pub put_route :
      Sets → Route → Option Bytes → List Route × List RefusedRoute → List Route × List RefusedRoute
  unfolding classify_route
  put_route sets r none (keep, refused) = (r ∷ keep, refused)
  put_route sets r (some ip) (keep, refused) = (
    keep,
    record {
      destination = dest_string sets r;
      source = classify_route sets.auto_set sets.config_set (dest_string sets r) r.comment;
      covered = ip;
    }
        ∷ refused,
  )

  unfoldable pub split_protected_routes :
      Sets → List Bytes → List Route → List Route × List RefusedRoute
  unfolding put_route contains_protected_ip
  split_protected_routes sets protected [] = ([], [])
  split_protected_routes sets protected (r ∷ rs) =
      put_route sets r (contains_protected_ip r.destination protected)
        (split_protected_routes sets protected rs)

  -- Whether a network covers an address of the list.
  abbrev pub covers_any : Option IpNet → List Bytes → Bool
  covers_any none ips = false
  covers_any (some n) [] = false
  covers_any (some n) (ip ∷ ips) = net_contains n ip || covers_any (some n) ips

  -- The routes of a list that cover no address, in order.
  abbrev pub uncovered : List Bytes → List Route → List Route
  uncovered ips [] = []
  uncovered ips (r ∷ rs) =
      let rest = uncovered ips rs in if covers_any r.destination ips then rest else r ∷ rest
