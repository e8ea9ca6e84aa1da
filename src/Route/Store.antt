-- ===== src/Route/Store.antt =====
-- The saved state (internal/route/state.go). The file is its content, `none` if it does not exist;
-- whether it can be read and written is part of the system.
use mutiauk.Base.{Bool, true, Option, none, some, [], Bytes, text_discrete, if◌then◌else◌}
use mutiauk.Base.Conn.{Result, ok, err}
use mutiauk.Base.GoMap.{put, delete}
use mutiauk.Route.Types.{
  Route, State, Env, RouteError, read_state_failed, parse_state_failed, write_state_failed, key_of,
}

pub record Disk : Type 0 where
  pub content : Option Bytes
  pub readable : Bool
  pub writable : Bool

module _ {K : Type 0} (env : Env K) where
  unfoldable pub parsed : Option State → Result RouteError State
  parsed none = err parse_state_failed
  parsed (some state) = ok state

  unfoldable pub load_content : Option Bytes → Result RouteError State
  unfolding parsed
  load_content none = ok []
  load_content (some bs) = parsed (env.unmarshal bs)

  unfoldable pub load : Disk → Result RouteError State
  unfolding load_content
  load disk = if disk.readable then load_content disk.content else err read_state_failed

  unfoldable pub save : State → Disk → Option RouteError × Disk
  save state disk =
      if disk.writable
      then (none, record disk { content = some (env.marshal state) })
      else (some write_state_failed, disk)

  -- AddRoute and RemoveRoute, after the load.
  unfoldable pub add_to : Route → Result RouteError State → Disk → Option RouteError × Disk
  unfolding save
  add_to r (err e) disk = (some e, disk)
  add_to r (ok state) disk =
      save (put text_discrete (key_of env r) (record r { enabled = true }) state) disk

  unfoldable pub add_route : Route → Disk → Option RouteError × Disk
  unfolding add_to load
  add_route r disk = add_to r (load disk) disk

  unfoldable pub remove_from : Route → Result RouteError State → Disk → Option RouteError × Disk
  unfolding save
  remove_from r (err e) disk = (some e, disk)
  remove_from r (ok state) disk = save (delete text_discrete (key_of env r) state) disk

  unfoldable pub remove_route : Route → Disk → Option RouteError × Disk
  unfolding remove_from load
  remove_route r disk = remove_from r (load disk) disk
