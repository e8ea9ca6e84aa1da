-- ===== src/Proxy/Tcp.antt =====
-- The life of a forwarded TCP connection (internal/proxy/tcp_forwarder.go) over the NAT table. The
-- proxy's connections are numbers; the connect to the proxy and the reference of the entry that
-- HandleTCP allocates are arguments, and the copying between the ends is left out.
use mutiauk.Base.{
  ℕ, ◌≡◌, ◌≢◌, refl, ◌∙◌, ap, Bool, true, false, Option, none, some, List, [], ◌∷◌, ◌++◌, is_some,
  if◌then◌else◌, Text, bytes, text_discrete, arith,
}
use mutiauk.Base.Conn.{Result, ok, err}
use mutiauk.Base.GoMap.{find, put, delete, find-delete}
use mutiauk.NatTable.Entry.{
  ConnState, Ref, Entry, World, write, acquire, release, close_conn, make_key, key,
}
use mutiauk.NatTable.Handles.{close_first, close-table, conns_of}
use mutiauk.NatTable.Table.{InsertError, entry_at, with_entries, insert, remove_found, remove}

pub record TcpForwarder : Type 0 where
  pub pending : List (Text × ℕ)
  pub nat : World

-- newConnKey, as the text of both ends.
abbrev pub conn_key : Text → Text → Text
conn_key src dst = make_key [] src dst

-- PreConnect, with the answer of client.Connect.
unfoldable pub pre_connect :
    {E : Type 0} → Text → Text → Result E ℕ → TcpForwarder → Result E ℕ × TcpForwarder
pre_connect src dst (err e) f = (err e, f)
pre_connect src dst (ok conn) f =
    (ok conn, record f { pending = put text_discrete (conn_key src dst) conn f.pending })

-- LoadAndDelete of the pending connections.
unfoldable pub take_pending : Text → Text → TcpForwarder → Option ℕ × TcpForwarder
take_pending src dst f = (
  find text_discrete (conn_key src dst) f.pending,
  record f { pending = delete text_discrete (conn_key src dst) f.pending },
)

unfoldable pub cleanup_pending : Text → Text → TcpForwarder → TcpForwarder
unfolding take_pending close_conn
cleanup_pending src dst f =
    let (conn, f') = take_pending src dst f in record f' { nat = close_conn conn f'.nat }

-- The entry of a forwarded connection.
abbrev pub tcp_entry : Text → Text → ℕ → Entry
tcp_entry src dst conn = record {
  protocol = bytes "tcp";
  src_addr = src;
  dst_addr = dst;
  proxy_conn = some conn;
  udp_relay = none;
  created = 0;
  last_seen = 0;
  state = ConnState.established;
  ttl = 0;
  close_done = false;
  refs = 0;
}

-- What HandleTCP does with the table's answer: the entry is acquired if it was inserted.
unfoldable pub inserted : Ref → World × Option InsertError → Bool × World
unfolding acquire
inserted r (w, none) = (true, acquire w r)
inserted r (w, some e) = (false, w)

unfoldable pub insert_tcp : ℕ → Ref → Text → Text → ℕ → World → Bool × World
unfolding inserted insert
insert_tcp now r src dst conn w =
    inserted r (insert now (record w { heap = write w.heap r (tcp_entry src dst conn) }) r)

-- The connection to the proxy: the pending one, or a new one.
abbrev pub proxy_conn_of : {E : Type 0} → Option ℕ → Result E ℕ → Result E ℕ
proxy_conn_of none connected = connected
proxy_conn_of (some conn) connected = ok conn

unfoldable pub started :
    {E : Type 0}
    → ℕ
    → Ref
    → Text
    → Text
    → Result E ℕ
    → TcpForwarder
    → Result E (ℕ × Bool) × TcpForwarder
unfolding insert_tcp
started now r src dst (err e) f = (err e, f)
started now r src dst (ok conn) f =
    let (held, w) = insert_tcp now r src dst conn f.nat in (ok (conn, held), record f { nat = w })

-- HandleTCP up to the copying: the connection and whether its entry was inserted.
unfoldable pub start_tcp :
    {E : Type 0}
    → ℕ
    → Ref
    → Text
    → Text
    → Result E ℕ
    → TcpForwarder
    → Result E (ℕ × Bool) × TcpForwarder
unfolding started take_pending
start_tcp now r src dst connected f =
    let (pending, f') = take_pending src dst f in
    started now r src dst (proxy_conn_of pending connected) f'

-- The deferred calls, last one first: the entry is removed, released if it was inserted, and the
-- connection is closed.
unfoldable pub finish_tcp : ℕ → Ref → Text → Text → ℕ → Bool → TcpForwarder → TcpForwarder
unfolding remove release close_conn
finish_tcp now r src dst conn held f =
    let removed = remove now f.nat (bytes "tcp") src dst in
    record f { nat = close_conn (some conn) (if held then release removed r else removed) }

insert-taken :
    (now : ℕ) (w : World) (r q : Ref)
    → entry_at w (key (w.heap r)) ≡ some q
    → ((insert now w r).0 ≡ w) × (is_some (insert now w r).1 ≡ true)
unfolding insert
insert-taken now w r q h = ground arith

inserted_refused :
    (r : Ref) (p : World × Option InsertError) → is_some p.1 ≡ true → inserted r p ≡ (false, p.0)
unfolding inserted
inserted_refused r (w, none) h = cc
inserted_refused r (w, some e) h = refl

write_self : (h : Ref → Entry) (r : Ref) (e : Entry) → write h r e r ≡ e
write_self h r e = ground arith

abbrev allocated : Ref → Text → Text → ℕ → World → World
allocated r src dst conn w = record w { heap = write w.heap r (tcp_entry src dst conn) }

-- A key that the table has is refused, and the world is as it was but for the new entry.
insert_tcp_taken :
    (now : ℕ) (r q : Ref) (src dst : Text) (conn : ℕ) (w : World)
    → entry_at w (key (tcp_entry src dst conn)) ≡ some q
    → insert_tcp now r src dst conn w ≡ (false, allocated r src dst conn w)
unfolding insert_tcp
insert_tcp_taken now r q src dst conn w h =
    let taken =
      insert-taken now (allocated r src dst conn w) r q
        (rw (write_self w.heap r (tcp_entry src dst conn)) h) in
    inserted_refused r (insert now (allocated r src dst conn w) r) taken.1
    ∙ ap (λ v. (false, v)) taken.0

write_other : (h : Ref → Entry) (r q : Ref) (e : Entry) → r ≢ q → write h r e q ≡ h q
write_other h r q e n = ground arith

find-delete_self :
    {V : Type 0} (k : Text) (m : List (Text × V))
    → find text_discrete k (delete text_discrete k m) ≡ none
find-delete_self k m = ground (arith, find-delete text_discrete k k m)

-- The removal of a key closes the connection of the entry that stands under it.
remove_closes :
    (now : ℕ) (q : Ref) (src dst : Text) (conn c : ℕ) (w : World)
    → entry_at w (key (tcp_entry src dst conn)) ≡ some q
    → (w.heap q).proxy_conn ≡ some c
    → (w.heap q).close_done ≡ false
    → (entry_at (remove now w (bytes "tcp") src dst) (key (tcp_entry src dst conn)) ≡ none)
      × ((remove now w (bytes "tcp") src dst).conns_closed ≡ w.conns_closed ++ c ∷ [])
unfolding remove remove_found key
remove_closes now q src dst conn c w h hc hd =
    let w' : World =
      with_entries w (delete text_discrete (make_key (bytes "tcp") src dst) w.table.entries) in
    rw h (
      ap (λ t. find text_discrete (make_key (bytes "tcp") src dst) t.entries) (close-table now w' q)
          ∙ find-delete_self (make_key (bytes "tcp") src dst) w.table.entries,
      (close_first now w' q hd).1 ∙ ap (λ o. w.conns_closed ++ conns_of o) hc,
    )

-- If the table has an entry under the ends of a connection, with a connection of its own that is
-- open, then a second connection with the same ends is refused by the table, and when it ends, the
-- first one's entry is removed and its connection closed, beside its own.
pub refused_closes_first :
    (now later : ℕ) (r q : Ref) (src dst : Text) (conn c : ℕ) (f : TcpForwarder)
    → entry_at f.nat (key (tcp_entry src dst conn)) ≡ some q
    → r ≢ q
    → (f.nat.heap q).proxy_conn ≡ some c
    → (f.nat.heap q).close_done ≡ false
    → let (held, w) = insert_tcp now r src dst conn f.nat in
      let g = finish_tcp later r src dst conn held (record f { nat = w }) in
      (held ≡ false)
      × (entry_at g.nat (key (tcp_entry src dst conn)) ≡ none)
      × (g.nat.conns_closed ≡ (f.nat.conns_closed ++ c ∷ []) ++ conn ∷ [])
unfolding finish_tcp close_conn
refused_closes_first now later r q src dst conn c f h n hc hd =
    let w = allocated r src dst conn f.nat in
    let same = write_other f.nat.heap r q (tcp_entry src dst conn) n in
    let closed =
      remove_closes later q src dst conn c w h (ap (λ e. e.proxy_conn) same ∙ hc)
        (ap (λ e. e.close_done) same ∙ hd) in
    rw (insert_tcp_taken now r q src dst conn f.nat h)
      (refl, closed.0, ap (λ l. l ++ conn ∷ []) closed.1)
