-- ===== src/NatTable/Handles.antt =====
-- Entry.Close, Acquire and Release: what one call does to the entry, the table and the connections.
use mutiauk.Base.{
  ℕ, ◌≡◌, ◌≢◌, refl, sym, true, false, Option, none, some, List, [], ◌∷◌, ◌++◌, if_cases, arith,
}
use mathlib.Core.List.{append-nil}
use mutiauk.NatTable.Entry.{
  ConnState, Ref, World, mark_done, acquire, release, in_use, set_state, close_conn, close,
}

close_conn-table : (c : Option ℕ) (w : World) → (close_conn c w).table ≡ w.table
unfolding close_conn
close_conn-table none w = refl
close_conn-table (some c) w = refl

close_conn-heap : (c : Option ℕ) (w : World) → (close_conn c w).heap ≡ w.heap
unfolding close_conn
close_conn-heap none w = refl
close_conn-heap (some c) w = refl

abbrev pub conns_of : Option ℕ → List ℕ
conns_of none = []
conns_of (some c) = c ∷ []

close_conn-conns :
    (c : Option ℕ) (w : World) → (close_conn c w).conns_closed ≡ w.conns_closed ++ conns_of c
unfolding close_conn
close_conn-conns none w = sym (append-nil _)
close_conn-conns (some c) w = refl

-- Close leaves the table alone.
pub close-table : (now : ℕ) (w : World) (r : Ref) → (close now w r).table ≡ w.table
unfolding close
close-table now w r =
    if_cases {A = World} (λ v. v.table ≡ w.table) (w.heap r).close_done (λ _. refl)
      (λ _. close_conn-table (w.heap r).proxy_conn _)

close-done : (now : ℕ) (w : World) (r : Ref) → ((close now w r).heap r).close_done ≡ true
unfolding close
close-done now w r =
    if_cases {A = World} (λ v. (v.heap r).close_done ≡ true) (w.heap r).close_done (λ e. e)
      (λ _. rw (close_conn-heap (w.heap r).proxy_conn) (ground arith))

close_of_done : (now : ℕ) (w : World) (r : Ref) → (w.heap r).close_done ≡ true → close now w r ≡ w
unfolding close
close_of_done now w r h = ground arith

-- Closing an entry again, at any later time, does nothing.
pub close-close :
    (now later : ℕ) (w : World) (r : Ref) → close later (close now w r) r ≡ close now w r
close-close now later w r = close_of_done later (close now w r) r (close-done now w r)

close_open :
    (now : ℕ) (w : World) (r : Ref)
    → (w.heap r).close_done ≡ false
    → ((close now w r).heap ≡ (set_state now (mark_done w r) r ConnState.closed).heap)
      × ((close now w r).conns_closed ≡ w.conns_closed ++ conns_of (w.heap r).proxy_conn)
unfolding close
close_open now w r h =
    if_cases {A = World}
      (λ v.
        (v.heap ≡ (set_state now (mark_done w r) r ConnState.closed).heap)
        × (v.conns_closed ≡ w.conns_closed ++ conns_of (w.heap r).proxy_conn))
      (w.heap r).close_done (λ e. cc)
      (λ _. (close_conn-heap (w.heap r).proxy_conn _, close_conn-conns (w.heap r).proxy_conn _))

-- The first Close of an entry marks it closed, closes its proxy connection and no other, and
-- touches no other entry.
pub close_first :
    (now : ℕ) (w : World) (r : Ref)
    → (w.heap r).close_done ≡ false
    → (((close now w r).heap r).state ≡ ConnState.closed)
      × ((close now w r).conns_closed ≡ w.conns_closed ++ conns_of (w.heap r).proxy_conn)
      × ((q : Ref) → r ≢ q → (close now w r).heap q ≡ w.heap q)
close_first now w r h =
    let (hs, cs) = close_open now w r h in
    (rw hs (unfold set_state in ground arith), cs, λ q n. rw hs (unfold set_state in ground arith))

-- Release undoes Acquire; an entry is in use after Acquire, and Release never goes below zero.
pub release-acquire :
    (w : World) (r q : Ref)
    → (((release (acquire w r) r).heap q).refs ≡ (w.heap q).refs) × (in_use (acquire w r) r ≡ true)
unfolding acquire release in_use
release-acquire w r q = ground arith
