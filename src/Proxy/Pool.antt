-- ===== src/Proxy/Pool.antt =====
-- The pool of UDP relays (internal/proxy/relay_pool.go). A relay is a number, a nil relay `none`;
-- `closed` has the relays that the pool closed, in order. GetOrCreate holds the lock twice: what
-- happens to the pool while `create` runs is an argument, the pool that `create` leaves.
use mutiauk.Base.{
  ℕ, ◌-◌, Bool, true, false, not, Option, none, some, List, [], ◌∷◌, ◌++◌, ltb, ◌==◌, if◌then◌else◌,
  filterb,
}
use mutiauk.Base.Conn.{Result, ok, err}
use mutiauk.Base.GoMap.{find, put, delete}

pub record RelayEntry : Type 0 where
  pub relay : Option ℕ
  pub last_used : ℕ

pub record RelayPool (K : Type 0) : Type 0 where
  pub entries : List (K × RelayEntry)
  pub ttl : ℕ
  pub closed : List ℕ
  pub stopped : Bool

unfoldable pub new_relay_pool : {K : Type 0} → ℕ → RelayPool K
new_relay_pool ttl = record { entries = []; ttl = ttl; closed = []; stopped = false }

-- `if relay != nil { relay.Close() }`
abbrev pub closing : Option ℕ → List ℕ
closing none = []
closing (some r) = r ∷ []

abbrev pub same_relay : Option ℕ → Option ℕ → Bool
same_relay none none = true
same_relay none (some r) = false
same_relay (some q) none = false
same_relay (some q) (some r) = q == r

module _ {K : Type 0} where
  abbrev pub relays_of : List (K × RelayEntry) → List ℕ
  relays_of [] = []
  relays_of ((k, e) ∷ m) = closing e.relay ++ relays_of m

  unfoldable pub clear : RelayPool K → RelayPool K
  clear p = record p { entries = []; closed = p.closed ++ relays_of p.entries }

  unfoldable pub close : RelayPool K → RelayPool K
  unfolding clear
  close p = clear (record p { stopped = true })

  abbrev pub is_stale : ℕ → ℕ → K × RelayEntry → Bool
  is_stale now ttl (k, e) = ltb ttl (now - e.last_used)

  unfoldable pub cleanup : ℕ → RelayPool K → RelayPool K
  cleanup now p = record p {
    entries = filterb (λ e. not (is_stale now p.ttl e)) p.entries;
    closed = p.closed ++ relays_of (filterb (is_stale now p.ttl) p.entries);
  }

module _ {K : Type 0} (dec : Discrete K) where
  -- The fast path: the pooled relay, and its entry used.
  unfoldable pub touched : ℕ → K → Option RelayEntry → RelayPool K → Option RelayEntry × RelayPool K
  touched now k none p = (none, p)
  touched now k (some e) p =
      (some e, record p { entries = put dec k (record e { last_used = now }) p.entries })

  unfoldable pub get : ℕ → K → RelayPool K → Option RelayEntry × RelayPool K
  unfolding touched
  get now k p = touched now k (find dec k p.entries) p

  -- The slow path after `create`: the relay is pooled, unless there is one by then.
  unfoldable pub pooled :
      ℕ → K → Option ℕ → Option RelayEntry → RelayPool K → Option ℕ × RelayPool K
  pooled now k relay none p = (
    relay,
    record p { entries = put dec k (record { relay = relay; last_used = now }) p.entries },
  )
  pooled now k relay (some e) p = (
    e.relay,
    record p {
      entries = put dec k (record e { last_used = now }) p.entries;
      closed = p.closed ++ closing relay;
    },
  )

  unfoldable pub add_created : ℕ → K → Option ℕ → RelayPool K → Option ℕ × RelayPool K
  unfolding pooled
  add_created now k relay p = pooled now k relay (find dec k p.entries) p

  unfoldable pub created :
      {E : Type 0} → ℕ → K → Result E (Option ℕ) × RelayPool K → Result E (Option ℕ) × RelayPool K
  unfolding add_created
  created now k (err e, p) = (err e, p)
  created now k (ok relay, p) = let (r, p') = add_created now k relay p in (ok r, p')

  unfoldable pub got_or_created :
      {E : Type 0}
      → ℕ
      → K
      → (RelayPool K → Result E (Option ℕ) × RelayPool K)
      → Option RelayEntry × RelayPool K
      → Result E (Option ℕ) × RelayPool K
  unfolding created
  got_or_created later k create (some e, p) = (ok e.relay, p)
  got_or_created later k create (none, p) = created later k (create p)

  unfoldable pub get_or_create :
      {E : Type 0}
      → (now later : ℕ) → K
      → (RelayPool K → Result E (Option ℕ) × RelayPool K)
      → RelayPool K
      → Result E (Option ℕ) × RelayPool K
  unfolding got_or_created get
  get_or_create now later k create p = got_or_created later k create (get now k p)

  unfoldable pub remove_found : K → Option ℕ → Option RelayEntry → RelayPool K → RelayPool K
  remove_found k relay none p = p
  remove_found k relay (some e) p =
      if same_relay e.relay relay
      then record p { entries = delete dec k p.entries; closed = p.closed ++ closing e.relay }
      else p

  unfoldable pub remove : K → Option ℕ → RelayPool K → RelayPool K
  unfolding remove_found
  remove k relay p = remove_found k relay (find dec k p.entries) p
