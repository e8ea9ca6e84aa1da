-- ===== src/NatTable/Table.antt =====
-- The methods of the table (internal/nat/table.go) and its collector (internal/nat/gc.go).
use mutiauk.Base.{
  ℕ, ◌+◌, ◌*◌, Bool, not, ◌&&◌, ◌||◌, Option, none, some, List, [], ◌∷◌, ltb, leb, ◌==◌,
  if◌then◌else◌, is_some, does, length, filterb, Text, bytes, text_discrete,
}
use mutiauk.Base.GoMap.{find, put, delete, delete_all, keys, values}
use mutiauk.NatTable.Entry.{
  ConnState, is_closed, Ref, Entry, Table, Config, World, write, minute, hour, touch, get_state,
  entry_expired, close, make_key, key,
}

abbrev pub or_default : ℕ → ℕ → ℕ
or_default n d = if n == 0 then d else n

-- DefaultConfig and NewTable.
unfoldable pub default_config : Config
default_config = record { max_entries = 65536; tcp_ttl = hour; udp_ttl = 5 * minute }

unfoldable pub new_table : Config → Table
new_table cfg = record {
  entries = [];
  max_entries = or_default cfg.max_entries 65536;
  tcp_ttl = or_default cfg.tcp_ttl hour;
  udp_ttl = or_default cfg.udp_ttl (5 * minute);
}

abbrev pub with_entries : World → List (Text × Ref) → World
with_entries w m = record w { table = record (w.table) { entries = m } }

abbrev pub entry_at : World → Text → Option Ref
entry_at w k = find text_discrete k w.table.entries

-- What LookupByKey does with the entry that the map gave.
unfoldable pub lookup_found : ℕ → World → Option Ref → World × Option Ref
lookup_found now w none = (w, none)
lookup_found now w (some r) =
    if not (is_closed (get_state w r)) then (touch now w r, some r) else (w, none)

unfoldable pub lookup_by_key : ℕ → World → Text → World × Option Ref
unfolding lookup_found get_state touch
lookup_by_key now w k = lookup_found now w (entry_at w k)

unfoldable pub lookup : ℕ → World → Text → Text → Text → World × Option Ref
unfolding lookup_found get_state touch make_key
lookup now w protocol src dst = lookup_found now w (entry_at w (make_key protocol src dst))

pub data InsertError : Type 0 where
  table_full : ℕ → InsertError
  already_exists : Text → InsertError

abbrev pub is_proto : Text → Text → Bool
is_proto p q = does (text_discrete p q)

unfoldable pub ttl_for : Table → Text → ℕ
ttl_for t protocol =
    if is_proto protocol (bytes "tcp")
    then t.tcp_ttl
    else (if is_proto protocol (bytes "udp") then t.udp_ttl else t.udp_ttl)

-- The defaults that Insert fills in. Its assignment to a zero State writes the same zero value.
unfoldable pub fill_entry : ℕ → Table → Entry → Entry
unfolding ttl_for
fill_entry now t e = record e {
  ttl = if e.ttl == 0 then ttl_for t e.protocol else e.ttl;
  created = or_default e.created now;
  last_seen = or_default e.last_seen now;
}

unfoldable pub insert : ℕ → World → Ref → World × Option InsertError
unfolding fill_entry key
insert now w r =
    let e = w.heap r in
    let k = key e in
    let entered = with_entries w (put text_discrete k r w.table.entries) in
    if leb w.table.max_entries (length w.table.entries)
    then (w, some (table_full w.table.max_entries))
    else (if is_some (entry_at w k)
        then (w, some (already_exists k))
        else (record entered { heap = write w.heap r (fill_entry now w.table e) }, none))

unfoldable pub remove_found : ℕ → World → Text → Option Ref → World
remove_found now w k none = w
remove_found now w k (some r) =
    close now (with_entries w (delete text_discrete k w.table.entries)) r

unfoldable pub remove_by_key : ℕ → World → Text → World
unfolding remove_found close
remove_by_key now w k = remove_found now w k (entry_at w k)

unfoldable pub remove : ℕ → World → Text → Text → Text → World
unfolding remove_found close make_key
remove now w protocol src dst =
    let k = make_key protocol src dst in remove_found now w k (entry_at w k)

unfoldable pub size : World → ℕ
size w = length w.table.entries

unfoldable pub list : World → List Ref
list w = values w.table.entries

unfoldable pub close_all : ℕ → World → List Ref → World
unfolding close
close_all now w [] = w
close_all now w (r ∷ rs) = close_all now (close now w r) rs

unfoldable pub clear : ℕ → World → World
unfolding close_all
clear now w = close_all now (with_entries w []) (values w.table.entries)

pub record Stats : Type 0 where
  pub total_entries : ℕ
  pub tcp_entries : ℕ
  pub udp_entries : ℕ
  pub new_entries : ℕ
  pub established : ℕ
  pub closing : ℕ

-- The two switches of the loop in Stats.
unfoldable pub count_protocol : Text → Stats → Stats
count_protocol p s =
    if is_proto p (bytes "tcp")
    then record s { tcp_entries = s.tcp_entries + 1 }
    else (if is_proto p (bytes "udp") then record s { udp_entries = s.udp_entries + 1 } else s)

unfoldable pub count_state : ConnState → Stats → Stats
count_state ConnState.new s = record s { new_entries = s.new_entries + 1 }
count_state ConnState.established s = record s { established = s.established + 1 }
count_state ConnState.closing s = record s { closing = s.closing + 1 }
count_state ConnState.closed s = s

unfoldable pub stats_loop : World → List (Text × Ref) → Stats → Stats
unfolding count_protocol count_state
stats_loop w [] s = s
stats_loop w ((k, r) ∷ m) s =
    stats_loop w m (count_state (w.heap r).state (count_protocol (w.heap r).protocol s))

unfoldable pub stats : World → Stats
unfolding stats_loop
stats w = stats_loop w w.table.entries (record {
  total_entries = length w.table.entries;
  tcp_entries = 0;
  udp_entries = 0;
  new_entries = 0;
  established = 0;
  closing = 0;
})

-- The test of the loop in gc, on one entry.
unfoldable pub collectable : ℕ → Entry → Bool
unfolding entry_expired
collectable now e = is_closed e.state || (entry_expired now e && not (ltb 0 e.refs))

-- gc: the table without the collected entries, and the entries that its goroutine closes later.
unfoldable pub gc : ℕ → World → World × List Ref
unfolding collectable
gc now w =
    let dead = filterb (λ e. collectable now (w.heap e.1)) w.table.entries in
    (with_entries w (delete_all text_discrete (keys dead) w.table.entries), values dead)
