-- ===== src/Route/Manager.antt =====
-- The manager (internal/route/manager.go). Its lock makes each of these a step of its own.
use mutiauk.Base.{Bool, true, Option, some, List, [], ◌∷◌, is_some, if◌then◌else◌}
use mutiauk.Base.Conn.{Result, ok, err}
use mutiauk.Base.GoMap.{values}
use mutiauk.Route.Types.{Route, State, Env, RouteError, link_not_found}
use mutiauk.Route.Kernel.{kernel_add, kernel_remove}
use mutiauk.Route.Store.{Disk, load, add_route, remove_route}
use mutiauk.Route.Plan.{Plan, System, refresh_link, diff, apply}

module _ {K : Type 0} (env : Env K) where
  unfoldable pub stored : System K → Option RouteError × Disk → Option RouteError × System K
  stored s (e, disk) = (e, record s { disk = disk })

  unfoldable pub add_saved :
      Route → Result RouteError Bool × K → System K → Option RouteError × System K
  unfolding stored add_route
  add_saved r (err e, k) s = (some e, record s { kernel = k })
  add_saved r (ok added, k) s =
      stored (record s { kernel = k })
        (add_route env (record r { interface = env.tun_name }) s.disk)

  unfoldable pub add : Route → System K → Option RouteError × System K
  unfolding refresh_link add_saved kernel_add
  add r s =
      let s' = refresh_link env s in
      if is_some (env.link_by_name s.kernel)
      then add_saved r (kernel_add env true s'.link r s'.kernel) s'
      else (some link_not_found, s)

  unfoldable pub remove_saved :
      Route → Result RouteError Bool × K → System K → Option RouteError × System K
  unfolding stored remove_route
  remove_saved r (err e, k) s = (some e, record s { kernel = k })
  remove_saved r (ok removed, k) s = stored (record s { kernel = k }) (remove_route env r s.disk)

  unfoldable pub remove : Route → System K → Option RouteError × System K
  unfolding refresh_link remove_saved kernel_remove
  remove r s =
      let s' = refresh_link env s in
      if is_some (env.link_by_name s.kernel)
      then remove_saved r (kernel_remove env s'.link r s'.kernel) s'
      else stored s (remove_route env r s.disk)

  unfoldable pub tun_routes : List Route → List Route
  tun_routes [] = []
  tun_routes (r ∷ rs) = record r { interface = env.tun_name } ∷ tun_routes rs

  unfoldable pub listed : Result RouteError State → Result RouteError (List Route)
  unfolding tun_routes
  listed (err e) = err e
  listed (ok state) = ok (tun_routes (values state))

  unfoldable pub list_saved : System K → Result RouteError (List Route)
  unfolding listed load
  list_saved s = listed (load env s.disk)

  unfoldable pub applied : Result RouteError Plan × System K → Option RouteError × System K
  unfolding apply
  applied (err e, s) = (some e, s)
  applied (ok plan, s) = let (outcome, s') = apply env plan s in (outcome.1, s')

  unfoldable pub sync : List Route → System K → Option RouteError × System K
  unfolding applied diff
  sync desired s = applied (diff env desired s)
