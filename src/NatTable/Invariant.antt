-- ===== src/NatTable/Invariant.antt =====
-- The invariant of the table, over every sequence of calls of internal/nat.
use mutiauk.Base.{
  ℕ, ◌≤◌, ◌<◌, ◌≡◌, refl, Option, none, some, List, [], ◌∷◌, length, Text, text_discrete, arith,
  ◌∙◌, true, if_cases, ltb, filterb,
}
use mathlib.Core.Logic.{ite}
use mutiauk.Base.GoMap.{
  find, put, delete, Unique, keys, values, put-Unique, delete-Unique, delete_all-Unique,
  length-put_new, length-delete-le, length-delete_all-le, find-put, find-delete, find-delete_all,
}
use mutiauk.NatTable.Entry.{
  ConnState, Ref, Entry, Config, World, write, acquire, release, touch, set_state, close,
  close_conn, key,
}
use mutiauk.NatTable.Table.{
  new_table, with_entries, entry_at, lookup_found, lookup_by_key, fill_entry, insert, remove_found,
  remove_by_key, close_all, clear, collectable, gc,
}

-- The keys are distinct, the table holds `max_entries` at most, and each entry stands under its key.
pub record IsValid (w : World) : Type 0 where
  pub unique : Unique text_discrete w.table.entries
  pub bounded : length w.table.entries ≤ w.table.max_entries
  pub keyed : (k : Text) (r : Ref) → entry_at w k ≡ some r → key (w.heap r) ≡ k

-- A step that leaves the table and the keys of all entries alone.
heap-IsValid :
    (w : World) (h : Ref → Entry) (cs : List ℕ)
    → ((r : Ref) → key (h r) ≡ key (w.heap r))
    → IsValid w
    → IsValid (record w { heap = h; conns_closed = cs })
heap-IsValid w h cs same v = record {
  unique = v.unique;
  bounded = v.bounded;
  keyed = λ k r f. same r ∙ v.keyed k r f;
}

key-write :
    (h : Ref → Entry) (r : Ref) (e : Entry)
    → key e ≡ key (h r)
    → (q : Ref) → key (write h r e q) ≡ key (h q)
key-write h r e same q = ground arith

pub acquire-IsValid : (w : World) (r : Ref) → IsValid w → IsValid (acquire w r)
unfolding acquire key
acquire-IsValid w r = heap-IsValid w _ _ (key-write w.heap r _ refl)

release-IsValid : (w : World) (r : Ref) → IsValid w → IsValid (release w r)
unfolding release key
release-IsValid w r v =
    if_cases IsValid (ltb 0 (w.heap r).refs) (λ _. heap-IsValid w _ _ (key-write w.heap r _ refl) v)
      (λ _. v)

touch-IsValid : (now : ℕ) (w : World) (r : Ref) → IsValid w → IsValid (touch now w r)
unfolding touch key
touch-IsValid now w r = heap-IsValid w _ _ (key-write w.heap r _ refl)

set_state-IsValid :
    (now : ℕ) (w : World) (r : Ref) (s : ConnState) → IsValid w → IsValid (set_state now w r s)
unfolding set_state key
set_state-IsValid now w r s = heap-IsValid w _ _ (key-write w.heap r _ refl)

close_conn-IsValid : (c : Option ℕ) (w : World) → IsValid w → IsValid (close_conn c w)
unfolding close_conn
close_conn-IsValid none w v = v
close_conn-IsValid (some c) w v = heap-IsValid w w.heap _ (λ r. refl) v

close-IsValid : (now : ℕ) (w : World) (r : Ref) → IsValid w → IsValid (close now w r)
unfolding close key
close-IsValid now w r v =
    if_cases IsValid (w.heap r).close_done (λ _. v)
      (λ _.
        close_conn-IsValid (w.heap r).proxy_conn _
          (set_state-IsValid now marked r ConnState.closed ready))
  where
    marked : World
    marked = record w { heap = write w.heap r (record (w.heap r) { close_done = true }) }

    ready : IsValid marked
    ready = heap-IsValid w _ _ (key-write w.heap r _ refl) v

close_all-IsValid : (now : ℕ) (rs : List Ref) (w : World) → IsValid w → IsValid (close_all now w rs)
unfolding close_all
close_all-IsValid now [] w v = v
close_all-IsValid now (r ∷ rs) w v =
    close_all-IsValid now rs (close now w r) (close-IsValid now w r v)

lookup_by_key-IsValid :
    (now : ℕ) (w : World) (k : Text) → IsValid w → IsValid (lookup_by_key now w k).0
unfolding lookup_by_key
lookup_by_key-IsValid now w k v = found (entry_at w k)
  where
    found : (o : Option Ref) → IsValid (lookup_found now w o).0
    found none = v
    found (some r) = ground (arith, touch-IsValid now w r)

-- A table whose entries are among those of another, and which holds no more.
fewer-IsValid :
    (w : World) (m : List (Text × Ref))
    → Unique text_discrete m
    → length m ≤ length w.table.entries
    → ((k : Text) (r : Ref) → find text_discrete k m ≡ some r → entry_at w k ≡ some r)
    → IsValid w
    → IsValid (with_entries w m)
fewer-IsValid w m u le sub v = record {
  unique = u;
  bounded = omega (arith, v.bounded);
  keyed = λ k r f. v.keyed k r (sub k r f);
}

entered-IsValid :
    (w : World) (r : Ref) (e : Entry)
    → key e ≡ key (w.heap r)
    → length w.table.entries < w.table.max_entries
    → entry_at w (key (w.heap r)) ≡ none
    → IsValid w
    → IsValid (record (with_entries w (put text_discrete (key (w.heap r)) r w.table.entries)) {
      heap = write w.heap r e;
    })
entered-IsValid w r e same room free v = record {
  unique = put-Unique text_discrete _ _ _ v.unique;
  bounded = omega (arith, length-put_new text_discrete (key (w.heap r)) r w.table.entries free);
  keyed = λ k q f. key-write w.heap r e same q ∙ at k q (rw (find-put text_discrete) at f);
}
  where
    at :
        (k : Text) (q : Ref)
        → ite (text_discrete (key (w.heap r)) k) (some r) (entry_at w k) ≡ some q
        → key (w.heap q) ≡ k
    at k q f = ground (arith, v.keyed k q)

insert-IsValid : (now : ℕ) (w : World) (r : Ref) → IsValid w → IsValid (insert now w r).0
unfolding insert
insert-IsValid now w r v =
    ground (arith, entered-IsValid w r (fill_entry now w.table (w.heap r)) same)
  where
    same : key (fill_entry now w.table (w.heap r)) ≡ key (w.heap r)
    same = unfold fill_entry key in refl

remove_by_key-IsValid :
    (now : ℕ) (w : World) (k : Text) → IsValid w → IsValid (remove_by_key now w k)
unfolding remove_by_key
remove_by_key-IsValid now w k v = found (entry_at w k)
  where
    less : IsValid (with_entries w (delete text_discrete k w.table.entries))
    less =
        fewer-IsValid w _ (delete-Unique text_discrete k _ v.unique)
          (length-delete-le text_discrete k _)
          (λ j r f. ground (arith, find-delete text_discrete j k w.table.entries)) v

    found : (o : Option Ref) → IsValid (remove_found now w k o)
    found none = v
    found (some r) = close-IsValid now _ r less

clear-IsValid : (now : ℕ) (w : World) → IsValid w → IsValid (clear now w)
unfolding clear find
clear-IsValid now w v =
    close_all-IsValid now (values w.table.entries) (with_entries w [])
      (record { unique = tt; bounded = omega arith; keyed = λ k r f. cc })

gc-IsValid : (now : ℕ) (w : World) → IsValid w → IsValid (gc now w).0
unfolding gc
gc-IsValid now w v =
    fewer-IsValid w _ (delete_all-Unique text_discrete _ _ v.unique)
      (length-delete_all-le text_discrete _ _)
      (λ k r f. ground (arith, find-delete_all text_discrete k dead w.table.entries)) v
  where
    dead : List Text
    dead = keys (filterb (λ e. collectable now (w.heap e.1)) w.table.entries)

-- The calls that the other packages and the collector make, each with the time at which it reads
-- the clock. `closes` are the closes that a collection leaves to its goroutine.
pub data Call : Type 0 where
  acquires releases inserts : Ref → Call
  touches : Ref → Call
  sets_state : Ref → ConnState → Call
  closes : List Ref → Call
  looks_up removes : Text → Call
  clears collects : Call

unfoldable pub step : World → ℕ × Call → World
step w (now, acquires r) = acquire w r
step w (now, releases r) = release w r
step w (now, inserts r) = (insert now w r).0
step w (now, touches r) = touch now w r
step w (now, sets_state r s) = set_state now w r s
step w (now, closes rs) = close_all now w rs
step w (now, looks_up k) = (lookup_by_key now w k).0
step w (now, removes k) = remove_by_key now w k
step w (now, clears) = clear now w
step w (now, collects) = (gc now w).0

unfoldable pub run : World → List (ℕ × Call) → World
unfolding step
run w [] = w
run w (c ∷ cs) = run (step w c) cs

step-IsValid : (w : World) (c : ℕ × Call) → IsValid w → IsValid (step w c)
unfolding step
step-IsValid w (now, acquires r) = acquire-IsValid w r
step-IsValid w (now, releases r) = release-IsValid w r
step-IsValid w (now, inserts r) = insert-IsValid now w r
step-IsValid w (now, touches r) = touch-IsValid now w r
step-IsValid w (now, sets_state r s) = set_state-IsValid now w r s
step-IsValid w (now, closes rs) = close_all-IsValid now rs w
step-IsValid w (now, looks_up k) = lookup_by_key-IsValid now w k
step-IsValid w (now, removes k) = remove_by_key-IsValid now w k
step-IsValid w (now, clears) = clear-IsValid now w
step-IsValid w (now, collects) = gc-IsValid now w

pub run-IsValid : (cs : List (ℕ × Call)) (w : World) → IsValid w → IsValid (run w cs)
unfolding run
run-IsValid [] w v = v
run-IsValid (c ∷ cs) w v = run-IsValid cs (step w c) (step-IsValid w c v)

abbrev pub start : Config → (Ref → Entry) → World
start cfg h = record { table = new_table cfg; heap = h; conns_closed = [] }

-- From a new table, whatever the calls and their times, the keys of the table are distinct, it
-- holds no more entries than its limit, and each entry stands under its own key.
pub run-start-IsValid :
    (cfg : Config) (h : Ref → Entry) (cs : List (ℕ × Call)) → IsValid (run (start cfg h) cs)
unfolding new_table find
run-start-IsValid cfg h cs =
    run-IsValid cs _ (record { unique = tt; bounded = omega arith; keyed = λ k r f. cc })
