-- ===== src/Route/Converge.antt =====
-- Sync and the number of routes in the table after it (internal/route/manager.go, plan.go).
use mutiauk.Base.{
  ap, false, ltb, ◌+◌, ◌≤◌, if◌then◌else◌, ℕ, ◌≡◌, refl, true, some, List, [], ◌∷◌, Text, arith,
  All,
}
use mutiauk.Base.Conn.{ok}
use mutiauk.Route.Types.{Route, NlRoute, Env, any_key, key_of}
use mutiauk.Route.Plan.{Plan, System, present, apply, refresh_link}
use mutiauk.Route.Kernel.{listed_routes, listing, kernel_list}
use mutiauk.Route.Plan.{wanted, plan_of, planned, list_kernel, diff}
use mutiauk.Route.DiffExact.{any_with, plan_of_exact, plan_of-All, NoRepeat, plan_of-NoRepeat}
use mutiauk.Route.Manager.{applied, sync}
use mutiauk.Route.ApplyExact.{count_in, number, routes_for, Netlink, Present, apply_exact}

module _ {K : Type 0} (env : Env K) where
  any_with-listed_routes :
      (key : Text) (rs : List NlRoute)
      → any_with env (present env) key (listed_routes env rs) ≡ ltb 0 (count_in env key rs)
  unfolding listed_routes count_in
  any_with-listed_routes key [] = refl
  any_with-listed_routes key (r ∷ rs) = ground (arith, any_with-listed_routes key rs)

  number_absent :
      (key : Text) (rs : List Route) → any_key env key rs ≡ false → number env key rs ≡ 0
  unfolding number
  number_absent key [] h = refl
  number_absent key (r ∷ rs) h = ground (arith, number_absent key rs)

  any_key-same : (j key : Text) (rs : List Route) → j ≡ key → any_key env j rs ≡ any_key env key rs
  any_key-same j key rs e = ap (λ k. any_key env k rs) e

  number-NoRepeat :
      (key : Text) (rs : List Route)
      → NoRepeat env rs
      → number env key rs ≡ (if any_key env key rs then 1 else 0)
  unfolding number
  number-NoRepeat key [] h = refl
  number-NoRepeat key (r ∷ rs) h =
      ground (arith, number-NoRepeat key rs h.1, any_key-same (key_of env r) key rs, h.0)

  present-Present : (rs : List Route) → All (λ r. present env r ≡ true → present env r ≡ true) rs
  present-Present [] = tt
  present-Present (r ∷ rs) = (λ h. h, present-Present rs)

  planned_adds-Present :
      (desired : List Route) → All (λ r. wanted env r ≡ true → present env r ≡ true) desired
  planned_adds-Present [] = tt
  planned_adds-Present (r ∷ rs) = (ground arith, planned_adds-Present rs)

  diff_listed :
      (i : ℕ) (desired : List Route) (rs : List NlRoute) (s : System K)
      → env.link_by_name s.kernel ≡ some i
      → env.route_list i s.kernel ≡ some rs
      → diff env desired s
        ≡ (ok (plan_of env desired (listed_routes env rs)), record s { link = some i })
  unfolding diff list_kernel refresh_link kernel_list planned listing
  diff_listed i desired rs s l h = rw l (rw h refl)

  -- The plan for a listed table has a key at most once on each side.
  planned_number :
      (desired : List Route) (rs : List NlRoute) (key : Text)
      → let plan = plan_of env desired (listed_routes env rs) in
        count_in env key rs ≤ 1
        → count_in env key rs + number env key plan.to_add
          ≡ (if any_with env (wanted env) key desired then 1 else 0) + number env key plan.to_remove
  planned_number desired rs key single = ground (
    arith,
    number-NoRepeat key (plan_of env desired (listed_routes env rs)).to_add
        (plan_of-NoRepeat env desired (listed_routes env rs)).0,
    number-NoRepeat key (plan_of env desired (listed_routes env rs)).to_remove
        (plan_of-NoRepeat env desired (listed_routes env rs)).1,
    plan_of_exact env desired (listed_routes env rs) key,
    any_with-listed_routes key rs,
  )

  -- If the link is there, its routes are listed, with at most one of them for a key, and Apply reports
  -- all that the plan adds as added and all that it removes as removed, then, with netlink as
  -- documented, after Sync the link has exactly one route for the key if an enabled desired route has
  -- the key, and none otherwise.
  pub sync_converges :
      (laws : Netlink env) (i : ℕ) (key : Text) (desired : List Route) (rs : List NlRoute)
      (s : System K)
      → env.link_by_name s.kernel ≡ some i
      → env.route_list i s.kernel ≡ some rs
      → count_in env key rs ≤ 1
      → (apply env
          (plan_of env desired (listed_routes env rs))
          (record s { link = some i })).0.0.added
        ≡ (plan_of env desired (listed_routes env rs)).to_add
      → (apply env
          (plan_of env desired (listed_routes env rs))
          (record s { link = some i })).0.0.removed
        ≡ (plan_of env desired (listed_routes env rs)).to_remove
      → routes_for env i key (sync env desired s).1.kernel
        ≡ (if any_with env (wanted env) key desired then 1 else 0)
  unfolding sync applied routes_for
  sync_converges laws i key desired rs s l h single a r = rw (diff_listed i desired rs s l h) (
      ground (
        arith,
        apply_exact env laws i key plan s' l planned_All.0 planned_All.1,
        planned_number desired rs key single,
        a,
        r,
        h,
      ))
    where
      plan : Plan
      plan = plan_of env desired (listed_routes env rs)

      s' : System K
      s' = record s { link = some i }

      planned_All : Present env plan.to_add × Present env plan.to_remove
      planned_All =
          plan_of-All env (λ r. present env r ≡ true) (λ r. present env r ≡ true) desired
            (listed_routes env rs) (planned_adds-Present desired)
            (present-Present (listed_routes env rs))
