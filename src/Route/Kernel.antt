-- ===== src/Route/Kernel.antt =====
-- The kernel's routes on the tunnel (internal/route/kernel_linux.go). The link is the index that
-- the last successful RefreshLink found, `none` for a nil link.
use mutiauk.Base.{
  ℕ, Bool, true, false, ◌&&◌, ◌||◌, Option, none, some, List, [], ◌∷◌, ◌==◌, text_discrete, does,
  is_some, length, if◌then◌else◌,
}
use mutiauk.Base.Conn.{Result, ok, err}
use mutiauk.Route.Types.{
  ℤ, pos, negsuc, IpNet, Route, NlRoute, AddAnswer, installed, already_there, add_refused,
  DelAnswer, deleted, not_there, del_refused, Env, RouteError, link_not_available, nil_link_panic,
  list_failed, kernel_add_failed, kernel_remove_failed,
}

-- netlink.SCOPE_UNIVERSE and SCOPE_LINK
abbrev pub scope_universe : ℕ
scope_universe = 0

abbrev pub scope_link : ℕ
scope_link = 253

-- A metric that is not positive is left out of the request.
abbrev pub positive : ℤ → ℤ
positive (pos n) = pos n
positive (negsuc n) = pos 0

abbrev pub nl_route : ℕ → Route → NlRoute
nl_route i r = record {
  link_index = i;
  dst = r.destination;
  gw = r.gateway;
  scope = if length r.gateway == 0 then scope_link else scope_universe;
  priority = positive r.metric;
}

-- The route that a removal names.
abbrev pub nl_target : ℕ → Route → NlRoute
nl_target i r = record { link_index = i; dst = r.destination; gw = []; scope = 0; priority = pos 0 }

module _ {K : Type 0} (env : Env K) where
  unfoldable pub any_dst : Option IpNet → List NlRoute → Bool
  any_dst d [] = false
  any_dst d (existing ∷ rs) =
      is_some existing.dst && does (text_discrete (env.net_string existing.dst) (env.net_string d))
      || any_dst d rs

  unfoldable pub exists_in : Option IpNet → Option (List NlRoute) → Result RouteError Bool
  unfolding any_dst
  exists_in d none = err list_failed
  exists_in d (some rs) = ok (any_dst d rs)

  -- routeExistsLocked
  unfoldable pub route_exists : Option ℕ → Option IpNet → K → Result RouteError Bool
  unfolding exists_in
  route_exists none d k = err link_not_available
  route_exists (some i) d k = exists_in d (env.route_list i k)

  -- The request of `add`. A nil link is dereferenced there; no caller reaches it with one.
  unfoldable pub add_answered : AddAnswer × K → Result RouteError Bool × K
  add_answered (installed, k) = (ok true, k)
  add_answered (already_there, k) = (ok false, k)
  add_answered (add_refused, k) = (err kernel_add_failed, k)

  unfoldable pub install : Option ℕ → Route → K → Result RouteError Bool × K
  unfolding add_answered
  install none r k = (err nil_link_panic, k)
  install (some i) r k = add_answered (env.route_add (nl_route i r) k)

  unfoldable pub add_checked :
      Result RouteError Bool → Option ℕ → Route → K → Result RouteError Bool × K
  unfolding install
  add_checked (err e) link r k = (err e, k)
  add_checked (ok true) link r k = (ok false, k)
  add_checked (ok false) link r k = install link r k

  unfoldable pub kernel_add : Bool → Option ℕ → Route → K → Result RouteError Bool × K
  unfolding add_checked route_exists
  kernel_add check_exists link r k =
      if check_exists
      then add_checked (route_exists link r.destination k) link r k
      else install link r k

  unfoldable pub del_answered : DelAnswer × K → Result RouteError Bool × K
  del_answered (deleted, k) = (ok true, k)
  del_answered (not_there, k) = (ok false, k)
  del_answered (del_refused, k) = (err kernel_remove_failed, k)

  unfoldable pub kernel_remove : Option ℕ → Route → K → Result RouteError Bool × K
  unfolding del_answered
  kernel_remove none r k = (ok false, k)
  kernel_remove (some i) r k = del_answered (env.route_del (nl_target i r) k)

  -- List, which leaves out what has no destination.
  unfoldable pub listed_routes : List NlRoute → List Route
  listed_routes [] = []
  listed_routes (nlr ∷ rs) =
      let rest = listed_routes rs in
      if is_some nlr.dst
      then record {
        destination = nlr.dst;
        gateway = nlr.gw;
        interface = env.tun_name;
        metric = nlr.priority;
        comment = [];
        enabled = true;
      }
        ∷ rest
      else rest

  unfoldable pub listing : Option (List NlRoute) → Result RouteError (List Route)
  unfolding listed_routes
  listing none = err list_failed
  listing (some rs) = ok (listed_routes rs)

  unfoldable pub kernel_list : Option ℕ → K → Result RouteError (List Route)
  unfolding listing
  kernel_list none k = ok []
  kernel_list (some i) k = listing (env.route_list i k)
