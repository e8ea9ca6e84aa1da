-- ===== src/NatTable/Lookups.antt =====
-- What Lookup, Insert and Remove of the table answer, on every branch.
use mutiauk.Base.{
  ℕ, ◌<◌, ◌≡◌, ◌≢◌, refl, Option, none, some, length, leb, if◌then◌else◌, Text, text_discrete,
  arith, ◌↔◌,
}
use mathlib.Core.Logic.{ite}
use mutiauk.Base.GoMap.{find-put, find-delete}
use mutiauk.NatTable.Entry.{ConnState, is_closed, Ref, Entry, World, get_state, key}
use mutiauk.NatTable.Handles.{close-table}
use mutiauk.NatTable.Table.{
  entry_at, lookup_found, lookup_by_key, fill_entry, insert, InsertError, table_full,
  already_exists, remove_found, remove_by_key,
}

-- Insert succeeds exactly when there is room and no entry under the key.
pub insert_accepts :
    (now : ℕ) (w : World) (r : Ref)
    → ((insert now w r).1 ≡ none)
      ↔ ((length w.table.entries < w.table.max_entries) × (entry_at w (key (w.heap r)) ≡ none))
unfolding insert
insert_accepts now w r = ground arith

-- A refused Insert changes nothing, and its error says why: the table is full, or else the key is taken.
pub insert_refused :
    (now : ℕ) (w : World) (r : Ref) (e : InsertError)
    → (insert now w r).1 ≡ some e
    → ((insert now w r).0 ≡ w)
      × (e ≡ (
          if leb w.table.max_entries (length w.table.entries)
          then table_full w.table.max_entries
          else already_exists (key (w.heap r))))
unfolding insert
insert_refused now w r e h = ground arith

-- What a lookup answers: the entry of the map, unless it is closed.
abbrev pub open_entry : (Ref → Entry) → Option Ref → Option Ref
open_entry h none = none
open_entry h (some r) = if is_closed (h r).state then none else some r

lookup_found-open_entry :
    (now : ℕ) (w : World) (o : Option Ref) → (lookup_found now w o).1 ≡ open_entry w.heap o
unfolding lookup_found get_state
lookup_found-open_entry now w none = refl
lookup_found-open_entry now w (some r) = ground arith

entry_at-insert :
    (now : ℕ) (w : World) (r : Ref) (k : Text)
    → (insert now w r).1 ≡ none
    → entry_at (insert now w r).0 k ≡ ite (text_discrete (key (w.heap r)) k) (some r) (entry_at w k)
unfolding insert
entry_at-insert now w r k h =
    ground (arith, find-put text_discrete k (key (w.heap r)) r w.table.entries)

state-insert :
    (now : ℕ) (w : World) (r q : Ref) → ((insert now w r).0.heap q).state ≡ (w.heap q).state
unfolding insert fill_entry
state-insert now w r q = ground arith

open_entry-state :
    (h g : Ref → Entry) (o : Option Ref)
    → ((r : Ref) → (h r).state ≡ (g r).state)
    → open_entry h o ≡ open_entry g o
open_entry-state h g none same = refl
open_entry-state h g (some r) same = rw (same r)

-- After a successful Insert a lookup of the entry's key finds the entry, unless it was already
-- closed, and a lookup of any other key answers as before.
pub lookup-insert :
    (now later : ℕ) (w : World) (r : Ref) (k : Text)
    → (insert now w r).1 ≡ none
    → (lookup_by_key later (insert now w r).0 k).1
      ≡ ite
          (text_discrete (key (w.heap r)) k)
          (if is_closed (w.heap r).state then none else some r)
          (lookup_by_key later w k).1
unfolding lookup_by_key
lookup-insert now later w r k h = ground (
  arith,
  lookup_found-open_entry later (insert now w r).0 (entry_at (insert now w r).0 k),
  lookup_found-open_entry later w (entry_at w k),
  open_entry-state (insert now w r).0.heap w.heap (entry_at (insert now w r).0 k)
      (state-insert now w r),
  entry_at-insert now w r k h,
)

-- A lookup refreshes what it finds: the entry that it gives is in the table, is not closed, and has
-- been seen now.
pub lookup_gives_open :
    (now : ℕ) (w : World) (k : Text) (r : Ref)
    → (lookup_by_key now w k).1 ≡ some r
    → (entry_at w k ≡ some r)
      × ((w.heap r).state ≢ ConnState.closed)
      × (((lookup_by_key now w k).0.heap r).last_seen ≡ now)
unfolding lookup_by_key
lookup_gives_open now w k r h = found (entry_at w k) h
  where
    found :
        (o : Option Ref)
        → (lookup_found now w o).1 ≡ some r
        → (o ≡ some r)
          × ((w.heap r).state ≢ ConnState.closed)
          × (((lookup_found now w o).0.heap r).last_seen ≡ now)
    found none e = cc
    found (some q) e = ground arith

remove_found-entries :
    (now : ℕ) (w : World) (k j : Text) (o : Option Ref)
    → o ≡ entry_at w k
    → entry_at (remove_found now w k o) j ≡ ite (text_discrete k j) none (entry_at w j)
unfolding remove_found
remove_found-entries now w k j none h = ground arith
remove_found-entries now w k j (some r) h =
    rw (close-table now _ r) (find-delete text_discrete j k w.table.entries)

-- Remove takes the key out, and leaves every other key of the table as it was.
pub entry_at-remove :
    (now : ℕ) (w : World) (k j : Text)
    → entry_at (remove_by_key now w k) j ≡ ite (text_discrete k j) none (entry_at w j)
unfolding remove_by_key
entry_at-remove now w k j = remove_found-entries now w k j (entry_at w k) refl
