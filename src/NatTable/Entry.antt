-- ===== src/NatTable/Entry.antt =====
-- Entries and their methods (internal/nat/table.go, the first part), and the state of the package.
--
-- An `*Entry` is a reference into a store, since the table, the handlers and a pending close share
-- it. A `netip.AddrPort` is represented by what the package reads of it, the text of its
-- `String()`. Times are nanoseconds, 0 the zero `time.Time`; each operation that reads the clock is
-- given `now`. A method is one step: the locks serialise the methods of an entry and of the table.
use mutiauk.Base.{
  ℕ, ◌+◌, ◌-◌, Bool, true, false, Option, none, some, List, ◌∷◌, [], ◌++◌, ltb, ◌==◌, if◌then◌else◌,
  Text, bytes,
}

pub data ConnState : Type 0 where
  new established closing closed : ConnState

pub ConnState-discrete : Discrete ConnState
ConnState-discrete = hlevel

abbrev pub is_closed : ConnState → Bool
is_closed ConnState.closed = true
is_closed _ = false

abbrev pub Ref : Type 0
Ref = ℕ

pub record Entry : Type 0 where
  pub protocol : Text
  pub src_addr : Text
  pub dst_addr : Text
  pub proxy_conn : Option ℕ
  pub udp_relay : Option ℕ
  pub created : ℕ
  pub last_seen : ℕ
  pub state : ConnState
  pub ttl : ℕ
  pub close_done : Bool
  pub refs : ℕ

pub record Table : Type 0 where
  pub entries : List (Text × Ref)
  pub max_entries : ℕ
  pub tcp_ttl : ℕ
  pub udp_ttl : ℕ

pub record Config : Type 0 where
  pub max_entries : ℕ
  pub tcp_ttl : ℕ
  pub udp_ttl : ℕ

-- The table, the entries that references lead to, and the connections closed so far.
pub record World : Type 0 where
  pub table : Table
  pub heap : Ref → Entry
  pub conns_closed : List ℕ

-- A store with one entry written.
abbrev pub write : (Ref → Entry) → Ref → Entry → Ref → Entry
write h r e q = if r == q then e else h q

-- time.Minute and time.Hour.
abbrev pub minute : ℕ
minute = 60_000_000_000

abbrev pub hour : ℕ
hour = 3_600_000_000_000

-- Entry.Acquire, Release, InUse.
unfoldable pub acquire : World → Ref → World
acquire w r = record w { heap = write w.heap r (record (w.heap r) { refs = (w.heap r).refs + 1 }) }

unfoldable pub release : World → Ref → World
release w r =
    let e = w.heap r in
    if ltb 0 e.refs then record w { heap = write w.heap r (record e { refs = e.refs - 1 }) } else w

unfoldable pub in_use : World → Ref → Bool
in_use w r = ltb 0 (w.heap r).refs

unfoldable pub touch : ℕ → World → Ref → World
touch now w r = record w { heap = write w.heap r (record (w.heap r) { last_seen = now }) }

unfoldable pub set_state : ℕ → World → Ref → ConnState → World
set_state now w r s = record w {
  heap = write w.heap r (record (w.heap r) { state = s; last_seen = now });
}

unfoldable pub get_state : World → Ref → ConnState
get_state w r = (w.heap r).state

-- `since > TTL`. A clock that stands behind LastSeen gives a negative duration, so no expiry.
unfoldable pub entry_expired : ℕ → Entry → Bool
entry_expired now e = ltb e.ttl (now - e.last_seen)

unfoldable pub is_expired : ℕ → World → Ref → Bool
unfolding entry_expired
is_expired now w r = entry_expired now (w.heap r)

-- `ProxyConn.Close()`; its error is dropped by every caller of `Entry.Close` here.
unfoldable pub close_conn : Option ℕ → World → World
close_conn none w = w
close_conn (some c) w = record w { conns_closed = w.conns_closed ++ c ∷ [] }

abbrev pub mark_done : World → Ref → World
mark_done w r = record w { heap = write w.heap r (record (w.heap r) { close_done = true }) }

-- Entry.Close; `close_done` is the state of `closeOnce`.
unfoldable pub close : ℕ → World → Ref → World
unfolding set_state close_conn
close now w r =
    let closing = close_conn (w.heap r).proxy_conn in
    if (w.heap r).close_done then w else closing (set_state now (mark_done w r) r ConnState.closed)

unfoldable pub make_key : Text → Text → Text → Text
make_key protocol src dst = protocol ++ (bytes ":" ++ (src ++ (bytes "->" ++ dst)))

unfoldable pub key : Entry → Text
unfolding make_key
key e = make_key e.protocol e.src_addr e.dst_addr
