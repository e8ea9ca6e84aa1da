-- ===== src/NatTable/Counts.antt =====
-- The statistics of the table, and the keys of its entries.
use mutiauk.Base.{
  ℕ, ◌+◌, ◌≡◌, refl, true, false, Bool, List, [], ◌∷◌, ◌++◌, length, if◌then◌else◌, Text, bytes,
  arith, All, ◌≢◌,
}
use mutiauk.NatTable.Entry.{ConnState, Ref, World, make_key}
use mutiauk.NatTable.Table.{is_proto, Stats, count_protocol, count_state, stats_loop, stats}

-- How many entries of a list pass a test.
abbrev pub count : (Ref → Bool) → List (Text × Ref) → ℕ
count p [] = 0
count p ((k, r) ∷ m) = (if p r then 1 else 0) + count p m

abbrev pub one_if : Bool → ℕ
one_if b = if b then 1 else 0

abbrev pub is_state : ConnState → ConnState → Bool
is_state ConnState.new ConnState.new = true
is_state ConnState.established ConnState.established = true
is_state ConnState.closing ConnState.closing = true
is_state ConnState.closed ConnState.closed = true
is_state _ _ = false

-- The counters of `t` are those of `s` with these numbers added.
abbrev Adds : Stats → Stats → ℕ → ℕ → ℕ → ℕ → ℕ → Type 0
Adds t s a b c d e =
    (t.total_entries ≡ s.total_entries)
    × (t.tcp_entries ≡ s.tcp_entries + a)
    × (t.udp_entries ≡ s.udp_entries + b)
    × (t.new_entries ≡ s.new_entries + c)
    × (t.established ≡ s.established + d)
    × (t.closing ≡ s.closing + e)

count_protocol-Adds :
    (p : Text) (s : Stats)
    → Adds
        (count_protocol p s)
        s
        (one_if (is_proto p (bytes "tcp")))
        (one_if (is_proto p (bytes "udp")))
        0
        0
        0
unfolding count_protocol
count_protocol-Adds p s = ground arith

count_state-Adds :
    (c : ConnState) (s : Stats)
    → Adds
        (count_state c s)
        s
        0
        0
        (one_if (is_state c ConnState.new))
        (one_if (is_state c ConnState.established))
        (one_if (is_state c ConnState.closing))
unfolding count_state
count_state-Adds ConnState.new s = ground arith
count_state-Adds ConnState.established s = ground arith
count_state-Adds ConnState.closing s = ground arith
count_state-Adds ConnState.closed s = ground arith

one_state :
    (c : ConnState)
    → one_if (is_state c ConnState.new)
        + one_if (is_state c ConnState.established)
        + one_if (is_state c ConnState.closing)
        + one_if (is_state c ConnState.closed)
      ≡ 1
one_state ConnState.new = refl
one_state ConnState.established = refl
one_state ConnState.closing = refl
one_state ConnState.closed = refl

module _ (w : World) where
  abbrev pub in_proto : Text → List (Text × Ref) → ℕ
  in_proto p = count (λ r. is_proto (w.heap r).protocol p)

  abbrev pub in_state : ConnState → List (Text × Ref) → ℕ
  in_state c = count (λ r. is_state (w.heap r).state c)

  stats_loop-Adds :
      (m : List (Text × Ref)) (s : Stats)
      → Adds
          (stats_loop w m s)
          s
          (in_proto (bytes "tcp") m)
          (in_proto (bytes "udp") m)
          (in_state ConnState.new m)
          (in_state ConnState.established m)
          (in_state ConnState.closing m)
  unfolding stats_loop
  stats_loop-Adds [] s = omega arith
  stats_loop-Adds ((k, r) ∷ m) s = omega (
    arith,
    count_protocol-Adds (w.heap r).protocol s,
    count_state-Adds (w.heap r).state (count_protocol (w.heap r).protocol s),
    stats_loop-Adds m (count_state (w.heap r).state (count_protocol (w.heap r).protocol s)),
  )

  states_partition :
      (m : List (Text × Ref))
      → length m
        ≡ in_state ConnState.new m
          + in_state ConnState.established m
          + in_state ConnState.closing m
          + in_state ConnState.closed m
  states_partition [] = omega arith
  states_partition ((k, r) ∷ m) = omega (arith, states_partition m, one_state (w.heap r).state)

  -- Stats counts exactly the entries of each protocol and of each state, and the entries that it
  -- counts under no state are the closed ones.
  pub stats-count :
      ((stats w).tcp_entries ≡ in_proto (bytes "tcp") w.table.entries)
      × ((stats w).udp_entries ≡ in_proto (bytes "udp") w.table.entries)
      × ((stats w).new_entries ≡ in_state ConnState.new w.table.entries)
      × ((stats w).established ≡ in_state ConnState.established w.table.entries)
      × ((stats w).closing ≡ in_state ConnState.closing w.table.entries)
      × ((stats w).total_entries
          ≡ (stats w).new_entries
            + (stats w).established
            + (stats w).closing
            + in_state ConnState.closed w.table.entries)
  unfolding stats
  stats-count = omega (arith, stats_loop-Adds w.table.entries, states_partition w.table.entries)

-- A text holds no such byte.
abbrev pub Without : ℕ → Text → Type 0
Without c = All (λ x. x ≢ c)

append_cancel :
    (c : ℕ) (xs ys a b : Text)
    → Without c xs
    → Without c ys
    → xs ++ c ∷ a ≡ ys ++ c ∷ b
    → (xs ≡ ys) × (a ≡ b)
append_cancel c [] [] a b hx hy e = ground arith
append_cancel c [] (y ∷ ys) a b hx hy e = ground arith
append_cancel c (x ∷ xs) [] a b hx hy e = ground arith
append_cancel c (x ∷ xs) (y ∷ ys) a b hx hy e = ground (arith, append_cancel c xs ys a b)

-- Two connections have one key only if their protocols and addresses agree, where a protocol holds
-- no `:` and the text of a source address no `-`, as it does unless an IPv6 zone has one.
pub make_key-injective :
    (p p' s s' d d' : Text)
    → Without b':' p
    → Without b':' p'
    → Without b'-' s
    → Without b'-' s'
    → make_key p s d ≡ make_key p' s' d'
    → (p ≡ p') × (s ≡ s') × (d ≡ d')
unfolding make_key
make_key-injective p p' s s' d d' hp hp' hs hs' e = ground (
  arith,
  append_cancel b':' p p' (s ++ (bytes "->" ++ d)) (s' ++ (bytes "->" ++ d')),
  append_cancel b'-' s s' (b'>' ∷ d) (b'>' ∷ d'),
)
