-- ===== src/Route/ApplyExact.antt =====
-- Apply's result and the number of routes in the kernel's table (internal/route/plan.go).
use mutiauk.Base.{
  ℕ, ◌+◌, if◌then◌else◌, ◌≡◌, refl, Bool, true, false, ◌&&◌, Option, none, some, List, [], ◌∷◌,
  ◌++◌, Text, text_discrete, does, is_some, arith, All, if_cases,
}
use mutiauk.Base.Conn.{Result, ok, err}
use mutiauk.Route.Types.{
  Route, NlRoute, State, Env, RouteError, AddAnswer, installed, already_there, add_refused,
  DelAnswer, deleted, not_there, del_refused, has_key,
}
use mutiauk.Route.Kernel.{
  nl_route, nl_target, add_answered, install, kernel_add, del_answered, kernel_remove,
}
use mutiauk.Route.Store.{load}
use mutiauk.Route.Plan.{
  Plan, is_empty, ApplyResult, System, Work, present, note_removed, remove_all, note_added, add_all,
  persisted, loaded, no_result, apply_work, apply, refresh_link,
}

abbrev pub is_installed : AddAnswer → Bool
is_installed installed = true
is_installed already_there = false
is_installed add_refused = false

abbrev pub is_deleted : DelAnswer → Bool
is_deleted deleted = true
is_deleted not_there = false
is_deleted del_refused = false

module _ {K : Type 0} (env : Env K) where
  -- Whether a route of the table has a destination with the key's text.
  abbrev pub leads_to : Text → NlRoute → Bool
  leads_to key r = is_some r.dst && does (text_discrete (env.net_string r.dst) key)

  unfoldable pub count_in : Text → List NlRoute → ℕ
  count_in key [] = 0
  count_in key (r ∷ rs) = (if leads_to key r then 1 else 0) + count_in key rs

  abbrev pub count_listed : Text → Option (List NlRoute) → ℕ
  count_listed key none = 0
  count_listed key (some rs) = count_in key rs

  -- How many routes for the key the table has on a link.
  unfoldable pub routes_for : ℕ → Text → K → ℕ
  routes_for i key k = count_listed key (env.route_list i k)

  -- What netlink documents of a request for a route with a destination: RouteAdd's success adds one
  -- route for that destination to those of the link, RouteDel's success takes one of them away, and
  -- every other answer leaves the link's routes as they were.
  pub record Netlink : Type 0 where
    pub routes_for-add :
        (r : NlRoute) (key : Text) (k : K)
        → is_some r.dst ≡ true
        → routes_for r.link_index key (env.route_add r k).1
          ≡ (if is_installed (env.route_add r k).0 && leads_to key r then 1 else 0)
            + routes_for r.link_index key k
    pub routes_for-del :
        (r : NlRoute) (key : Text) (k : K)
        → is_some r.dst ≡ true
        → (if is_deleted (env.route_del r k).0 && leads_to key r then 1 else 0)
            + routes_for r.link_index key (env.route_del r k).1
          ≡ routes_for r.link_index key k

  -- How many routes of a list have the key.
  unfoldable pub number : Text → List Route → ℕ
  number key [] = 0
  number key (r ∷ rs) = (if has_key env key r then 1 else 0) + number key rs

  number-append :
      (key : Text) (rs qs : List Route) → number key (rs ++ qs) ≡ number key rs + number key qs
  unfolding number
  number-append key [] qs = omega arith
  number-append key (r ∷ rs) qs = ground (arith, number-append key rs qs)

  -- The routes for a key, against those that there were before and the changes reported so far.
  abbrev Tallied : ℕ → Text → ℕ → Work K → Type 0
  Tallied i key before w =
      routes_for i key w.kernel + number key w.result.removed ≡ before + number key w.result.added

  removed_one :
      (i : ℕ) (key : Text) (before : ℕ) (r : Route) (w : Work K) (p : DelAnswer × K)
      → (if is_deleted p.0 && has_key env key r then 1 else 0) + routes_for i key p.1
        ≡ routes_for i key w.kernel
      → Tallied i key before w
      → Tallied i key before (note_removed env r w (del_answered env p))
  unfolding note_removed del_answered number
  removed_one i key before r w (deleted, k) e h =
      ground (arith, e, h, number-append key w.result.removed (r ∷ []))
  removed_one i key before r w (not_there, k) e h = ground (arith, e, h)
  removed_one i key before r w (del_refused, k) e h = ground (arith, e, h)

  added_one :
      (i : ℕ) (key : Text) (before : ℕ) (r : Route) (w : Work K) (p : AddAnswer × K)
      → routes_for i key p.1
        ≡ (if is_installed p.0 && has_key env key r then 1 else 0) + routes_for i key w.kernel
      → Tallied i key before w
      → Tallied i key before (note_added env r w (add_answered env p))
  unfolding note_added add_answered number
  added_one i key before r w (installed, k) e h =
      ground (arith, e, h, number-append key w.result.added (r ∷ []))
  added_one i key before r w (already_there, k) e h = ground (arith, e, h)
  added_one i key before r w (add_refused, k) e h = ground (arith, e, h)

  abbrev pub Present : List Route → Type 0
  Present rs = All (λ r. present env r ≡ true) rs

  remove_all_exact :
      (laws : Netlink) (i : ℕ) (key : Text) (before : ℕ) (rs : List Route) (w : Work K)
      → Present rs
      → Tallied i key before w
      → Tallied i key before (remove_all env (some i) rs w)
  unfolding remove_all kernel_remove
  remove_all_exact laws i key before [] w p h = h
  remove_all_exact laws i key before (r ∷ rs) w p h = remove_all_exact laws i key before rs _ p.1 (
      removed_one i key before r w (env.route_del (nl_target i r) w.kernel)
        (rw p.0 at (laws.routes_for-del (nl_target i r) key w.kernel p.0)) h)

  add_all_exact :
      (laws : Netlink) (i : ℕ) (key : Text) (before : ℕ) (rs : List Route) (w : Work K)
      → Present rs
      → Tallied i key before w
      → Tallied i key before (add_all env (some i) rs w)
  unfolding add_all kernel_add install
  add_all_exact laws i key before [] w p h = h
  add_all_exact laws i key before (r ∷ rs) w p h = add_all_exact laws i key before rs _ p.1 (
      added_one i key before r w (env.route_add (nl_route i r) w.kernel)
        (rw p.0 at (laws.routes_for-add (nl_route i r) key w.kernel p.0)) h)

  apply_work_exact :
      (laws : Netlink) (i : ℕ) (key : Text) (plan : Plan) (k : K) (state : Option State)
      → Present plan.to_add
      → Present plan.to_remove
      → Tallied i key (routes_for i key k) (apply_work env (some i) plan k state)
  unfolding apply_work number
  apply_work_exact laws i key plan k state pa pr =
      add_all_exact laws i key (routes_for i key k) plan.to_add _ pa (
        remove_all_exact laws i key (routes_for i key k) plan.to_remove
          (record { kernel = k; result = no_result; state = state; dirty = false }) pr refl)

  abbrev pub Outcome : Type 0
  Outcome = (ApplyResult × Option RouteError) × System K

  pub persisted_same :
      (state : Result RouteError State) (w : Work K) (s : System K)
      → ((persisted env state w s).0.0 ≡ w.result) × ((persisted env state w s).1.kernel ≡ w.kernel)
  unfolding persisted
  persisted_same (err e) w s = (refl, refl)
  persisted_same (ok state) w s = ground arith

  -- After Apply on a link, with netlink as documented and a destination in every route of the plan:
  -- the number of the link's routes for a key is the number before, less the routes for the key that
  -- the result reports as removed, plus those that it reports as added.
  pub apply_exact :
      (laws : Netlink) (i : ℕ) (key : Text) (plan : Plan) (s : System K)
      → env.link_by_name s.kernel ≡ some i
      → Present plan.to_add
      → Present plan.to_remove
      → routes_for i key (apply env plan s).1.kernel + number key (apply env plan s).0.0.removed
        ≡ routes_for i key s.kernel + number key (apply env plan s).0.0.added
  unfolding apply
  apply_exact laws i key plan s l pa pr =
      if_cases {A = Outcome}
        (λ out.
          routes_for i key out.1.kernel + number key out.0.0.removed
          ≡ routes_for i key s.kernel + number key out.0.0.added)
        (is_empty plan) (λ _. refl)
        (λ _. ground (
          arith,
          persisted_same (load env s.disk)
              (apply_work env (env.link_by_name s.kernel) plan s.kernel (loaded (load env s.disk)))
              (refresh_link env s),
          apply_work_exact laws i key plan s.kernel (loaded (load env s.disk)) pa pr,
          l,
        ))
