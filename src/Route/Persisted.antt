-- ===== src/Route/Persisted.antt =====
-- Add, Remove and the state file (internal/route/manager.go, state.go).
use mutiauk.Base.{◌≡◌, refl, Bool, true, Option, none, some, [], ◌∷◌, Text, text_discrete, arith}
use mathlib.Core.Logic.{ite}
use mathlib.Core.Option.{map as option_map}
use mutiauk.Base.Conn.{Result, ok, err}
use mutiauk.Base.GoMap.{find, put, delete, find-put, find-delete}
use mutiauk.Route.Types.{Route, State, Env, RouteError, key_of}
use mutiauk.Route.Kernel.{kernel_add, kernel_remove}
use mutiauk.Route.Store.{
  Disk, parsed, load_content, load, save, add_to, add_route, remove_from, remove_route,
}
use mutiauk.Route.Plan.{System, refresh_link}
use mutiauk.Route.Manager.{stored, add_saved, add, remove_saved, remove}

abbrev pub map_values : (Route → Route) → State → State
map_values f [] = []
map_values f ((key, r) ∷ m) = (key, f r) ∷ map_values f m

module _ {K : Type 0} (env : Env K) where
  -- encoding/json reads back a state that it wrote, up to the form of its routes' addresses:
  -- `reread` is what a route is after a round trip.
  abbrev pub JsonRoundTrip : (Route → Route) → Type 0
  JsonRoundTrip reread =
      (state : State) → env.unmarshal (env.marshal state) ≡ some (map_values reread state)

  find-map_values :
      (f : Route → Route) (key : Text) (m : State)
      → find text_discrete key (map_values f m) ≡ option_map f (find text_discrete key m)
  unfolding find
  find-map_values f key [] = refl
  find-map_values f key ((j, r) ∷ m) = ground (arith, find-map_values f key m)

  -- What the state file has under a key; an unreadable file has nothing.
  abbrev pub saved_at : Text → Result RouteError State → Option Route
  saved_at key (err e) = none
  saved_at key (ok state) = find text_discrete key state

  saved_at-save :
      (reread : Route → Route) (json : JsonRoundTrip reread) (key : Text) (state : State)
      (disk : Disk)
      → disk.readable ≡ true
      → (save env state disk).0 ≡ none
      → saved_at key (load env (save env state disk).1)
        ≡ option_map reread (find text_discrete key state)
  unfolding load load_content parsed save
  saved_at-save reread json key state disk r h =
      ground (arith, json state, find-map_values reread key state)

  add_to_saved :
      (reread : Route → Route) (json : JsonRoundTrip reread) (r : Route) (key : Text)
      (o : Result RouteError State) (disk : Disk)
      → disk.readable ≡ true
      → (add_to env r o disk).0 ≡ none
      → saved_at key (load env (add_to env r o disk).1)
        ≡ ite
            (text_discrete (key_of env r) key)
            (some (reread (record r { enabled = true })))
            (option_map reread (saved_at key o))
  unfolding add_to
  add_to_saved reread json r key (err e) disk d h = cc
  add_to_saved reread json r key (ok state) disk d h = ground (
    arith,
    saved_at-save reread json key
        (put text_discrete (key_of env r) (record r { enabled = true }) state) disk d h,
    find-put text_discrete key (key_of env r) (record r { enabled = true }) state,
  )

  remove_from_saved :
      (reread : Route → Route) (json : JsonRoundTrip reread) (r : Route) (key : Text)
      (o : Result RouteError State) (disk : Disk)
      → disk.readable ≡ true
      → (remove_from env r o disk).0 ≡ none
      → saved_at key (load env (remove_from env r o disk).1)
        ≡ ite (text_discrete (key_of env r) key) none (option_map reread (saved_at key o))
  unfolding remove_from
  remove_from_saved reread json r key (err e) disk d h = cc
  remove_from_saved reread json r key (ok state) disk d h = ground (
    arith,
    saved_at-save reread json key (delete text_discrete (key_of env r) state) disk d h,
    find-delete text_discrete key (key_of env r) state,
  )

  readable-add_to :
      (r : Route) (disk : Disk)
      → (add_to env r (load env disk) disk).0 ≡ none
      → disk.readable ≡ true
  unfolding load add_to
  readable-add_to r disk h = ground arith

  readable-remove_from :
      (r : Route) (disk : Disk)
      → (remove_from env r (load env disk) disk).0 ≡ none
      → disk.readable ≡ true
  unfolding load remove_from
  readable-remove_from r disk h = ground arith

  add_saved_disk :
      (r : Route) (p : Result RouteError Bool × K) (s : System K)
      → (add_saved env r p s).0 ≡ none
      → ((add_route env (record r { interface = env.tun_name }) s.disk).0 ≡ none)
        × ((add_saved env r p s).1.disk
            ≡ (add_route env (record r { interface = env.tun_name }) s.disk).1)
  unfolding add_saved stored
  add_saved_disk r (err e, k) s h = cc
  add_saved_disk r (ok added, k) s h = (h, refl)

  remove_saved_disk :
      (r : Route) (p : Result RouteError Bool × K) (s : System K)
      → (remove_saved env r p s).0 ≡ none
      → ((remove_route env r s.disk).0 ≡ none)
        × ((remove_saved env r p s).1.disk ≡ (remove_route env r s.disk).1)
  unfolding remove_saved stored
  remove_saved_disk r (err e, k) s h = cc
  remove_saved_disk r (ok removed, k) s h = (h, refl)

  add_disk :
      (r : Route) (s : System K)
      → (add env r s).0 ≡ none
      → ((add_route env (record r { interface = env.tun_name }) s.disk).0 ≡ none)
        × ((add env r s).1.disk ≡ (add_route env (record r { interface = env.tun_name }) s.disk).1)
  unfolding add refresh_link
  add_disk r s h = ground (
    arith,
    add_saved_disk r (kernel_add env true (refresh_link env s).link r (refresh_link env s).kernel)
        (refresh_link env s),
  )

  remove_disk :
      (r : Route) (s : System K)
      → (remove env r s).0 ≡ none
      → ((remove_route env r s.disk).0 ≡ none)
        × ((remove env r s).1.disk ≡ (remove_route env r s.disk).1)
  unfolding remove refresh_link stored
  remove_disk r s h = ground (
    arith,
    remove_saved_disk r (kernel_remove env (refresh_link env s).link r (refresh_link env s).kernel)
        (refresh_link env s),
  )

  -- If Add succeeds, the state file has the route under its key, with the tunnel's name and
  -- enabled, and under every other key what it had; all as JSON reads it back.
  pub add_persists :
      (reread : Route → Route) (json : JsonRoundTrip reread) (r : Route) (key : Text) (s : System K)
      → (add env r s).0 ≡ none
      → saved_at key (load env (add env r s).1.disk)
        ≡ ite
            (text_discrete (key_of env r) key)
            (some (reread (record r { interface = env.tun_name; enabled = true })))
            (option_map reread (saved_at key (load env s.disk)))
  unfolding add_route
  add_persists reread json r key s h = rw (add_disk r s h).1 (
      add_to_saved reread json r' key (load env s.disk) s.disk
        (readable-add_to r' s.disk (add_disk r s h).0) (add_disk r s h).0)
    where
      r' : Route
      r' = record r { interface = env.tun_name }

  -- If Remove succeeds, the state file has nothing under the route's key, and under every other
  -- key what it had, as JSON reads it back; with the link there or not.
  pub remove_persists :
      (reread : Route → Route) (json : JsonRoundTrip reread) (r : Route) (key : Text) (s : System K)
      → (remove env r s).0 ≡ none
      → saved_at key (load env (remove env r s).1.disk)
        ≡ ite
            (text_discrete (key_of env r) key)
            none
            (option_map reread (saved_at key (load env s.disk)))
  unfolding remove_route
  remove_persists reread json r key s h = rw (remove_disk r s h).1 (
      remove_from_saved reread json r key (load env s.disk) s.disk
        (readable-remove_from r s.disk (remove_disk r s h).0) (remove_disk r s h).0)
