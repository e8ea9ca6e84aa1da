-- ===== src/NatTable/Samples.antt =====
-- Runs of the table, and its theorems at concrete inputs.
use mutiauk.Base.{
  ℕ, ◌<◌, ◌≡◌, ◌≢◌, ◌↔◌, ◌+◌, refl, false, true, none, some, [], ◌∷◌, ◌++◌, length, All, bytes,
  text_discrete, if◌then◌else◌, ◌⊎◌, Text,
}
use mathlib.Core.Logic.{ite}
use mutiauk.Base.GoMap.{find, put, contains}
use mutiauk.NatTable.Entry.{
  ConnState, is_closed, Entry, World, Config, acquire, release, in_use, close, key,
}
use mutiauk.NatTable.Table.{
  new_table, insert, entry_at, lookup_by_key, remove_by_key, gc, table_full,
}
use mutiauk.NatTable.Invariant.{IsValid, Call, step, run, start, run-start-IsValid}
use mutiauk.NatTable.Lookups.{insert_accepts, lookup-insert, lookup_gives_open, entry_at-remove}
use mutiauk.NatTable.Collect.{kept, gc-kept, gc_keeps_acquired, gc_closes_collectable}
use mutiauk.NatTable.Handles.{release-acquire}

abbrev flow : ℕ → Entry
flow n = record {
  protocol = bytes "tcp";
  src_addr = bytes "10.0.0.1:" ++ n ∷ [];
  dst_addr = bytes "1.1.1.1:443";
  proxy_conn = some n;
  udp_relay = none;
  created = 0;
  last_seen = 0;
  state = ConnState.new;
  ttl = 0;
  close_done = false;
  refs = 0;
}

abbrev small : Config
small = record { max_entries = 2; tcp_ttl = 100; udp_ttl = 50 }

-- The store that holds the flow of each number.
abbrev empty : World
empty = start small flow

abbrev one : World
one = (insert 10 empty 1).0

one_key : Text
one_key = key (flow 1)

program : Unit {0}
unfolding new_table insert find put contains text_discrete key gc lookup_by_key acquire close
program = tt

insert_runs : (insert 10 empty 1).1 ≡ none
unfolding program
insert_runs = refl

inserted : entry_at one one_key ≡ some 1
unfolding program one_key
inserted = refl

expires : (gc 111 one).1 ≡ 1 ∷ []
unfolding program
expires = refl

held : (gc 111 (acquire one 1)).1 ≡ []
unfolding program
held = refl

full : (insert 12 (insert 11 one 2).0 3).1 ≡ some (table_full 2)
unfolding program
full = refl

one-IsValid : IsValid one
unfolding run step
one-IsValid = run-start-IsValid small flow ((10, Call.inserts 1) ∷ [])

run-start-IsValid_example : IsValid (run empty ((10, Call.inserts 1) ∷ (200, Call.collects) ∷ []))
run-start-IsValid_example =
    run-start-IsValid small flow ((10, Call.inserts 1) ∷ (200, Call.collects) ∷ [])

insert_accepts_example :
    ((insert 11 one 1).1 ≡ none) ↔ ((length one.table.entries < 2) × (entry_at one one_key ≡ none))
unfolding one_key program
insert_accepts_example = insert_accepts 11 one 1

lookup-insert_example :
    (lookup_by_key 20 one one_key).1
    ≡ ite
        (text_discrete one_key one_key)
        (if is_closed ConnState.new then none else some 1)
        (lookup_by_key 20 empty one_key).1
unfolding one_key
lookup-insert_example = lookup-insert 10 20 empty 1 one_key insert_runs

looked_up : (lookup_by_key 20 one one_key).1 ≡ some 1
unfolding program one_key
looked_up = refl

lookup_gives_open_example :
    (entry_at one one_key ≡ some 1)
    × ((one.heap 1).state ≢ ConnState.closed)
    × (((lookup_by_key 20 one one_key).0.heap 1).last_seen ≡ 20)
lookup_gives_open_example = lookup_gives_open 20 one one_key 1 looked_up

entry_at-remove_example :
    entry_at (remove_by_key 30 one one_key) one_key
    ≡ ite (text_discrete one_key one_key) none (entry_at one one_key)
entry_at-remove_example = entry_at-remove 30 one one_key one_key

gc-kept_example : entry_at (gc 111 one).0 one_key ≡ kept 111 one.heap (entry_at one one_key)
gc-kept_example = gc-kept 111 one one_key one-IsValid

one_open : (one.heap 1).state ≢ ConnState.closed
unfolding program
one_open e = cc

gc_keeps_acquired_example : entry_at (gc 111 (acquire one 1)).0 one_key ≡ some 1
gc_keeps_acquired_example =
    gc_keeps_acquired 111 one one_key 1 one-IsValid inserted (λ e. one_open e)

gc_closes_collectable_example :
    All
      (λ r.
        ((one.heap r).state ≡ ConnState.closed)
        ⊎ (((one.heap r).last_seen + (one.heap r).ttl < 111) × ((one.heap r).refs ≡ 0)))
      (gc 111 one).1
gc_closes_collectable_example = gc_closes_collectable 111 one

not_done : (one.heap 1).close_done ≡ false
unfolding program
not_done = refl

release-acquire_example :
    (((release (acquire one 1) 1).heap 1).refs ≡ (one.heap 1).refs)
    × (in_use (acquire one 1) 1 ≡ true)
release-acquire_example = release-acquire one 1 1
