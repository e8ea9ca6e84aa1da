-- ===== src/Route/Plan.antt =====
-- Plans: the difference of the desired and the present routes, and its application
-- (internal/route/plan.go).
use mutiauk.Base.{
  ℕ, Bool, true, false, ◌&&◌, Option, none, some, List, [], ◌∷◌, ◌++◌, ◌==◌, text_discrete, is_some,
  length, if◌then◌else◌,
}
use mathlib.Core.Option.{map as option_map}
use mutiauk.Base.Conn.{Result, ok, err}
use mutiauk.Base.GoMap.{find, put, delete}
use mutiauk.Route.Types.{Route, State, Env, RouteError, link_not_found, apply_errors, key_of}
use mutiauk.Route.Kernel.{kernel_add, kernel_remove, kernel_list}
use mutiauk.Route.Store.{Disk, load, save}

pub record Plan : Type 0 where
  pub to_add : List Route
  pub to_remove : List Route

abbrev pub is_empty : Plan → Bool
is_empty plan = length plan.to_add == 0 && length plan.to_remove == 0

pub record ApplyFailure : Type 0 where
  pub route : Route
  pub removal : Bool
  pub cause : RouteError

pub record ApplyResult : Type 0 where
  pub added : List Route
  pub removed : List Route
  pub failed : List ApplyFailure

-- The manager's view of the world: the kernel, the link that it holds, and the state file.
pub record System (K : Type 0) : Type 0 where
  pub kernel : K
  pub link : Option ℕ
  pub disk : Disk

-- The variables of Apply.
pub record Work (K : Type 0) : Type 0 where
  pub kernel : K
  pub result : ApplyResult
  pub state : Option State
  pub dirty : Bool

abbrev pub loaded : Result RouteError State → Option State
loaded (err e) = none
loaded (ok state) = some state

abbrev pub no_result : ApplyResult
no_result = record { added = []; removed = []; failed = [] }

abbrev pub fail : Route → Bool → RouteError → ApplyResult → ApplyResult
fail r removal e res = record res {
  failed = res.failed ++ record { route = r; removal = removal; cause = e } ∷ [];
}

unfoldable pub reported : ApplyResult → Option RouteError
reported res = if length res.failed == 0 then none else some (apply_errors (length res.failed))

module _ {K : Type 0} (env : Env K) where
  -- The routes that a map is built of, by key; a later one replaces an earlier.
  unfoldable pub index : (Route → Bool) → List Route → State → State
  index p [] m = m
  index p (r ∷ rs) m = index p rs (if p r then put text_discrete (key_of env r) r m else m)

  abbrev pub present : Route → Bool
  present r = is_some r.destination

  abbrev pub wanted : Route → Bool
  wanted r = is_some r.destination && r.enabled

  -- The routes of a map whose keys another lacks.
  unfoldable pub missing_from : State → State → List Route
  missing_from other [] = []
  missing_from other ((key, r) ∷ m) =
      let rest = missing_from other m in
      if is_some (find text_discrete key other) then rest else r ∷ rest

  unfoldable pub plan_of : List Route → List Route → Plan
  unfolding index missing_from
  plan_of desired current = record {
    to_add = missing_from (index present current []) (index wanted desired []);
    to_remove = missing_from (index wanted desired []) (index present current []);
  }

  -- RefreshLink keeps the old link when there is no such interface.
  unfoldable pub refresh_link : System K → System K
  refresh_link s = record s {
    link = elim (env.link_by_name s.kernel) [ none ↦ s.link | some i ↦ some i ];
  }

  -- ListKernel
  unfoldable pub list_kernel : System K → Result RouteError (List Route) × System K
  unfolding refresh_link kernel_list
  list_kernel s =
      if is_some (env.link_by_name s.kernel)
      then (kernel_list env (refresh_link s).link s.kernel, refresh_link s)
      else (ok [], s)

  unfoldable pub planned : List Route → Result RouteError (List Route) → Result RouteError Plan
  unfolding plan_of
  planned desired (err e) = err e
  planned desired (ok current) = ok (plan_of desired current)

  unfoldable pub diff : List Route → System K → Result RouteError Plan × System K
  unfolding planned list_kernel
  diff desired s = let (current, s') = list_kernel s in (planned desired current, s')

  -- What the loop does with the kernel's answer to a removal.
  unfoldable pub note_removed : Route → Work K → Result RouteError Bool × K → Work K
  note_removed r w (err e, k) = record w { kernel = k; result = fail r true e w.result }
  note_removed r w (ok removed, k) = record w {
    kernel = k;
    result =
        if removed then record (w.result) { removed = w.result.removed ++ r ∷ [] } else w.result;
    state = option_map (delete text_discrete (key_of env r)) w.state;
    dirty = true;
  }

  -- The loop over the removals, with the link or with none after a failed refresh.
  unfoldable pub remove_all : Option ℕ → List Route → Work K → Work K
  unfolding note_removed kernel_remove
  remove_all link [] w = w
  remove_all none (r ∷ rs) w = remove_all none rs (note_removed r w (ok true, w.kernel))
  remove_all (some i) (r ∷ rs) w =
      remove_all (some i) rs (note_removed r w (kernel_remove env (some i) r w.kernel))

  unfoldable pub note_added : Route → Work K → Result RouteError Bool × K → Work K
  note_added r w (err e, k) = record w { kernel = k; result = fail r false e w.result }
  note_added r w (ok added, k) = record w {
    kernel = k;
    result = if added then record (w.result) { added = w.result.added ++ r ∷ [] } else w.result;
    state =
        option_map
          (put text_discrete (key_of env r) (record r { interface = env.tun_name; enabled = true }))
          w.state;
    dirty = true;
  }

  unfoldable pub add_all : Option ℕ → List Route → Work K → Work K
  unfolding note_added kernel_add
  add_all link [] w = w
  add_all none (r ∷ rs) w = add_all none rs (note_added r w (err link_not_found, w.kernel))
  add_all (some i) (r ∷ rs) w =
      add_all (some i) rs (note_added r w (kernel_add env false (some i) r w.kernel))

  -- The end of Apply: the state is written if it was loaded and changed.
  unfoldable pub persisted :
      Result RouteError State → Work K → System K → (ApplyResult × Option RouteError) × System K
  unfolding reported save
  persisted (err e) w s = ((w.result, some e), record s { kernel = w.kernel })
  persisted (ok _) w s =
      let (e, disk) = save env (elim w.state [ none ↦ [] | some state ↦ state ]) s.disk in
      if w.dirty
      then (
        (w.result, if is_some e then e else reported w.result),
        record s { kernel = w.kernel; disk = disk },
      )
      else ((w.result, reported w.result), record s { kernel = w.kernel })

  unfoldable pub apply_work : Option ℕ → Plan → K → Option State → Work K
  unfolding remove_all add_all
  apply_work link plan k state = add_all link plan.to_add (
      remove_all link plan.to_remove
        (record { kernel = k; result = no_result; state = state; dirty = false }))

  unfoldable pub apply : Plan → System K → (ApplyResult × Option RouteError) × System K
  unfolding apply_work persisted refresh_link load
  apply plan s =
      let state = load env s.disk in
      let work = apply_work (env.link_by_name s.kernel) plan s.kernel (loaded state) in
      if is_empty plan then ((no_result, none), s) else persisted state work (refresh_link s)
