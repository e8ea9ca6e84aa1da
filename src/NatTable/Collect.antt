-- ===== src/NatTable/Collect.antt =====
-- What a collection (internal/nat/gc.go) keeps and what it drops.
use mutiauk.Base.{
  ℕ, ◌∙◌, ◌+◌, ◌<◌, ◌≡◌, ◌≢◌, refl, true, Bool, Option, none, some, List, [], ◌∷◌, filterb,
  if◌then◌else◌, Text, not, ◌&&◌, ◌||◌, leb, ltb, text_discrete, arith, All, All-map, ◌⊎◌,
}
use mutiauk.Base.GoMap.{keys, values, test_at, find-delete_all, contains-keys-filterb}
use mutiauk.NatTable.Entry.{ConnState, is_closed, Ref, Entry, World, acquire}
use mutiauk.NatTable.Table.{entry_at, collectable, gc}
use mutiauk.NatTable.Invariant.{IsValid, acquire-IsValid}

-- Whether an entry is to stay: it is not closed, and it is within its time or a handler holds it.
abbrev pub stays : ℕ → Entry → Bool
stays now e = not (is_closed e.state) && (leb now (e.last_seen + e.ttl) || ltb 0 e.refs)

abbrev pub kept : ℕ → (Ref → Entry) → Option Ref → Option Ref
kept now h none = none
kept now h (some r) = if stays now (h r) then some r else none

-- The code's test is the opposite.
collectable-stays : (now : ℕ) (e : Entry) → collectable now e ≡ not (stays now e)
unfolding collectable
collectable-stays now e = ground arith

kept-test_at :
    (now : ℕ) (h : Ref → Entry) (o : Option Ref)
    → (if test_at (λ r. collectable now (h r)) o then none else o) ≡ kept now h o
kept-test_at now h none = refl
kept-test_at now h (some r) = ground (arith, collectable-stays now (h r))

-- A collection of a valid table keeps an entry exactly if it is not closed and its time since it was
-- last seen has not passed its lifetime or a handler holds it; a key without an entry gets none.
pub gc-kept :
    (now : ℕ) (w : World) (k : Text)
    → IsValid w
    → entry_at (gc now w).0 k ≡ kept now w.heap (entry_at w k)
unfolding gc
gc-kept now w k v =
    find-delete_all text_discrete k (keys dead) w.table.entries
    ∙ rw
        (contains-keys-filterb text_discrete (λ r. collectable now (w.heap r)) k w.table.entries
          v.unique)
        (kept-test_at now w.heap (entry_at w k))
  where
    dead : List (Text × Ref)
    dead = filterb (λ e. collectable now (w.heap e.1)) w.table.entries

-- An entry that a handler has acquired and that is not closed stays in the table, however long ago
-- it was last seen.
pub gc_keeps_acquired :
    (now : ℕ) (w : World) (k : Text) (r : Ref)
    → IsValid w
    → entry_at w k ≡ some r
    → (w.heap r).state ≢ ConnState.closed
    → entry_at (gc now (acquire w r)).0 k ≡ some r
unfolding acquire
gc_keeps_acquired now w k r v e running =
    gc-kept now (acquire w r) k (acquire-IsValid w r v) ∙ rw e (ground arith)

All-collected :
    (p : Ref → Bool) (m : List (Text × Ref))
    → All (λ r. p r ≡ true) (values (filterb (λ e. p e.1) m))
All-collected p [] = tt
All-collected p ((k, r) ∷ m) = ground (arith, All-collected p m)

-- Every entry that a collection hands over to be closed was closed already, or was expired and held
-- by no handler.
pub gc_closes_collectable :
    (now : ℕ) (w : World)
    → All
        (λ r.
          ((w.heap r).state ≡ ConnState.closed)
          ⊎ (((w.heap r).last_seen + (w.heap r).ttl < now) × ((w.heap r).refs ≡ 0)))
        (gc now w).1
unfolding gc collectable
gc_closes_collectable now w =
    All-map reason _ (All-collected (λ r. collectable now (w.heap r)) w.table.entries)
  where
    reason :
        (r : Ref)
        → collectable now (w.heap r) ≡ true
        → ((w.heap r).state ≡ ConnState.closed)
          ⊎ (((w.heap r).last_seen + (w.heap r).ttl < now) × ((w.heap r).refs ≡ 0))
    reason r h = ground arith
