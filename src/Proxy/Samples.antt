-- ===== src/Proxy/Samples.antt =====
-- Runs of the forwarders, and their theorems at concrete inputs.
use mutiauk.Base.{
  ℕ, ◌≡◌, refl, false, none, some, List, [], ◌∷◌, ◌++◌, All, arith, bytes, Text, ℕ_discrete,
  text_discrete,
}
use mutiauk.Base.Conn.{Conn}
use mutiauk.Base.GoMap.{find, put}
use mutiauk.NatTable.Entry.{key}
use mutiauk.NatTable.Table.{insert, entry_at, new_table}
use mutiauk.NatTable.Invariant
use mutiauk.Socks5.Client.{echo_frame}
use mutiauk.Proxy.Pool.{RelayPool, new_relay_pool, get, add_created, remove, close}
use mutiauk.Proxy.Relays.{
  Shared, Step, Reach, start, Accounted, Reach_start-Accounted, late_relay_stays,
}
use mutiauk.Proxy.Echo.{Echo, Mismatch, late_echoes, late_echoes-Mismatch}
use mutiauk.Proxy.Tcp.{TcpForwarder, tcp_entry, insert_tcp, finish_tcp, refused_closes_first}

-- Two calls create a relay for the same key; the second to finish closes its own.
abbrev raced : Shared ℕ
raced = record {
  pool =
      (add_created ℕ_discrete 5 7 (some 1)
        (add_created ℕ_discrete 4 7 (some 0) (new_relay_pool 60)).1).1;
  pending = [];
  fresh = 2;
}

program : Unit {0}
unfolding new_relay_pool add_created remove close find put ℕ_discrete get
program = tt

race : Reach ℕ_discrete (start ℕ_discrete 60) raced
unfolding program
race =
    Reach.next
      (Reach.next (Reach.next (Reach.next Reach.here (Step.create 7 refl)) (Step.create 7 refl))
        (Step.finish 4 7 0 ((7, 1) ∷ []) [] refl))
      (Step.finish 5 7 1 [] [] refl)

Reach_start-Accounted_example : Accounted ℕ_discrete raced
Reach_start-Accounted_example = Reach_start-Accounted ℕ_discrete 60 raced race

late_relay_stays_example :
    let p : RelayPool ℕ = new_relay_pool 60 in
    (find ℕ_discrete 7
        (add_created ℕ_discrete 9 7 (some 0) (remove ℕ_discrete 7 (some 0) p)).1.entries
      ≡ some (record { relay = some 0; last_used = 9 }))
    × ((add_created ℕ_discrete 9 7 (some 0) (remove ℕ_discrete 7 (some 0) p)).1.closed ≡ p.closed)
    × (find ℕ_discrete 7 (add_created ℕ_discrete 9 7 (some 0) (close p)).1.entries
        ≡ some (record { relay = some 0; last_used = 9 }))
    × ((add_created ℕ_discrete 9 7 (some 0) (close p)).1.closed ≡ (close p).closed)
unfolding program
late_relay_stays_example = late_relay_stays ℕ_discrete 9 7 0 (new_relay_pool 60) refl

abbrev line : Conn
line = record { input = echo_frame 5 1 (bytes "pong"); output = []; writes_left = 2 }

abbrev echoes : List Echo
echoes =
    record { seq = 2; payload = bytes "a"; reply = bytes "b" }
    ∷ record { seq = 3; payload = bytes "c"; reply = bytes "d" }
    ∷ []

late_echoes-Mismatch_example : All Mismatch (late_echoes 5 echoes line)
late_echoes-Mismatch_example =
    late_echoes-Mismatch 5 1 0 (bytes "pong") echoes line (omega arith) (omega arith) (omega arith)
      refl refl

-- A forwarder whose table has the entry of a connection 8.
abbrev src : Text
src = bytes "10.0.0.1:5"

abbrev dst : Text
dst = bytes "1.1.1.1:443"

abbrev shared : TcpForwarder
shared = record {
  pending = [];
  nat =
      (insert_tcp 10 0 src dst 8 (
        Invariant.start (record { max_entries = 9; tcp_ttl = 60; udp_ttl = 60 })
          (λ r. tcp_entry src dst 0))).1;
}

shared_entry : entry_at shared.nat (key (tcp_entry src dst 9)) ≡ some 0
unfolding insert_tcp insert find put text_discrete key program new_table
shared_entry = refl

refused_closes_first_example :
    let (held, w) = insert_tcp 20 1 src dst 9 shared.nat in
    let g = finish_tcp 30 1 src dst 9 held (record shared { nat = w }) in
    (held ≡ false)
    × (entry_at g.nat (key (tcp_entry src dst 9)) ≡ none)
    × (g.nat.conns_closed ≡ (shared.nat.conns_closed ++ 8 ∷ []) ++ 9 ∷ [])
unfolding insert_tcp insert find put text_discrete key program new_table
refused_closes_first_example =
    refused_closes_first 20 30 1 0 src dst 9 8 shared shared_entry (omega arith) refl refl
