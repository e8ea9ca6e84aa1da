-- ===== src/Route/Samples.antt =====
-- A table in memory with a simple form of the saved state, and the theorems on it.
use mutiauk.Base.{
  ℕ, zero, suc, ◌+◌, ◌≤◌, ◌≡◌, ◌≢◌, refl, sym, ap, ◌∙◌, Bool, true, false, ◌&&◌, ◌||◌, not, Option,
  none, some, List, [], ◌∷◌, ◌++◌, Text, Bytes, bytes, text_discrete, does, is_some, if◌then◌else◌,
  arith, length, take, drop, take_append, drop_append, length-append, filterb,
}
use mutiauk.Base.GoMap.{find}
use mutiauk.Route.Types.{
  pos, IpNet, Route, State, NlRoute, installed, already_there, deleted, not_there, Env, any_key,
}
use mutiauk.Route.Kernel.{listed_routes}
use mutiauk.Route.Plan.{Plan, System, plan_of, present, wanted, apply}
use mutiauk.Route.Manager.{sync}
use mutiauk.Route.DiffExact.{any_with, plan_of_exact}
use mutiauk.Route.ApplyExact.{leads_to, count_in, routes_for, number, Netlink, apply_exact}
use mutiauk.Route.Converge.{sync_converges}
use mutiauk.Route.Persisted.{map_values, JsonRoundTrip}

abbrev text_of : Option IpNet → Text
text_of none = []
text_of (some n) = n.ip

abbrev same_dst : NlRoute → NlRoute → Bool
same_dst r q = is_some q.dst && does (text_discrete (text_of r.dst) (text_of q.dst))

abbrev in_table : NlRoute → List NlRoute → Bool
in_table r [] = false
in_table r (q ∷ k) = same_dst r q || in_table r k

-- The table less the first route with that destination.
abbrev without : NlRoute → List NlRoute → List NlRoute
without r [] = []
without r (q ∷ k) = let rest = without r k in if same_dst r q then k else q ∷ rest

abbrev blank : Route
blank = record {
  destination = none;
  gateway = [];
  interface = [];
  metric = pos 0;
  comment = [];
  enabled = true;
}

-- The saved form keeps the keys.
abbrev write_keys : State → Bytes
write_keys [] = []
write_keys ((key, r) ∷ m) = length key ∷ (key ++ write_keys m)

abbrev read_keys : ℕ → Bytes → State
read_keys zero bs = []
read_keys (suc fuel) [] = []
read_keys (suc fuel) (n ∷ bs) = (take n bs, blank) ∷ read_keys fuel (drop n bs)

unfoldable memory_env : Env (List NlRoute)
memory_env = record {
  tun_name = bytes "tun0";
  net_string = text_of;
  marshal = write_keys;
  unmarshal = λ bs. some (read_keys (length bs) bs);
  link_by_name = λ k. some 3;
  route_list = λ i k. some k;
  route_add = λ r k. if in_table r k then (already_there, k) else (installed, r ∷ k);
  route_del = λ r k. if in_table r k then (deleted, without r k) else (not_there, k);
}

count_in-without :
    (r : NlRoute) (key : Text) (k : List NlRoute)
    → is_some r.dst ≡ true
    → in_table r k ≡ true
    → (if leads_to memory_env key r then 1 else 0) + count_in memory_env key (without r k)
      ≡ count_in memory_env key k
unfolding memory_env count_in
count_in-without r key [] h t = cc
count_in-without r key (q ∷ k) h t = ground (arith, count_in-without r key k)

memory_env-Netlink : Netlink memory_env
unfolding memory_env routes_for count_in
memory_env-Netlink = record {
  routes_for-add = λ r key k h. ground arith;
  routes_for-del = λ r key k h. ground (arith, count_in-without r key k);
}

keys_back :
    (m : State) (fuel : ℕ)
    → length (write_keys m) ≤ fuel
    → read_keys fuel (write_keys m) ≡ map_values (λ r. blank) m
keys_back [] zero h = refl
keys_back [] (suc fuel) h = refl
keys_back ((key, r) ∷ m) zero h = absurd (omega arith)
keys_back ((key, r) ∷ m) (suc fuel) h = ground (
  arith,
  keys_back m fuel,
  take_append key (write_keys m),
  drop_append key (write_keys m),
  length-append key (write_keys m),
)

memory_env-JsonRoundTrip : JsonRoundTrip memory_env (λ r. blank)
unfolding memory_env
memory_env-JsonRoundTrip state = ap some (keys_back state _ (omega arith))

abbrev route_to : ℕ → Route
route_to n = record blank { destination = some (record { ip = n ∷ []; mask = [] }) }

abbrev row : ℕ → NlRoute
row n = record {
  link_index = 3;
  dst = some (record { ip = n ∷ []; mask = [] });
  gw = [];
  scope = 0;
  priority = pos 0;
}

abbrev system : System (List NlRoute)
system = record {
  kernel = row 1 ∷ row 2 ∷ [];
  link = none;
  disk = record { content = none; readable = true; writable = true };
}

-- Of 2 and 4 desired, and 1 and 2 present, 4 is added and 1 removed.
abbrev desired : List Route
desired = route_to 2 ∷ route_to 4 ∷ []

abbrev planned : Plan
planned = record { to_add = route_to 4 ∷ []; to_remove = route_to 1 ∷ [] }

plan_of_exact_example :
    (any_key memory_env (4 ∷ []) (plan_of memory_env desired (route_to 1 ∷ route_to 2 ∷ [])).to_add
      ≡ any_with memory_env (wanted memory_env) (4 ∷ []) desired
        && not (any_with memory_env (present memory_env) (4 ∷ []) (route_to 1 ∷ route_to 2 ∷ [])))
    × (any_key memory_env
          (4 ∷ [])
          (plan_of memory_env desired (route_to 1 ∷ route_to 2 ∷ [])).to_remove
        ≡ any_with memory_env (present memory_env) (4 ∷ []) (route_to 1 ∷ route_to 2 ∷ [])
          && not (any_with memory_env (wanted memory_env) (4 ∷ []) desired))
plan_of_exact_example = plan_of_exact memory_env desired (route_to 1 ∷ route_to 2 ∷ []) (4 ∷ [])

apply_exact_example :
    routes_for memory_env 3 (1 ∷ []) (apply memory_env planned system).1.kernel
      + number memory_env (1 ∷ []) (apply memory_env planned system).0.0.removed
    ≡ routes_for memory_env 3 (1 ∷ []) system.kernel
      + number memory_env (1 ∷ []) (apply memory_env planned system).0.0.added
unfolding memory_env
apply_exact_example =
    apply_exact memory_env memory_env-Netlink 3 (1 ∷ []) planned system refl (refl, tt) (refl, tt)

sync_converges_example :
    routes_for memory_env 3 (4 ∷ []) (sync memory_env desired system).1.kernel
    ≡ (if any_with memory_env (wanted memory_env) (4 ∷ []) desired then 1 else 0)
unfolding memory_env apply plan_of text_discrete mutiauk.Base.GoMap.put find listed_routes count_in
sync_converges_example =
    sync_converges memory_env memory_env-Netlink 3 (4 ∷ []) desired (row 1 ∷ row 2 ∷ []) system refl
      refl (omega arith) refl refl

-- Two routes to one destination, which differ in their metric.
abbrev doubled : System (List NlRoute)
doubled = record system { kernel = row 1 ∷ record (row 1) { priority = pos 5 } ∷ [] }

-- Sync reports the destination as removed, and a route to it is left.
left_over :
    (routes_for memory_env 3 (1 ∷ []) (sync memory_env [] doubled).1.kernel ≡ 1)
    × (number memory_env
          (1 ∷ [])
          (apply memory_env
            (plan_of memory_env [] (listed_routes memory_env doubled.kernel))
            (record doubled { link = some 3 })).0.0.removed
        ≡ 1)
unfolding memory_env sync apply plan_of text_discrete mutiauk.Base.GoMap.put find listed_routes
    count_in routes_for number
left_over = (refl, refl)

unfoldable gone_env : Env (List NlRoute)
unfolding memory_env
gone_env = record memory_env { link_by_name = λ k. none }
