-- ===== src/Route/ConflictSamples.antt =====
-- Conflicts between routes, at concrete inputs.
use mutiauk.Base.{
  ◌≡◌, ◌≤◌, refl, ℕ, Bool, true, some, [], ◌∷◌, ◌++◌, Bytes, bytes, get_or, arith, ◌==◌,
}
use mutiauk.Base.Conn.{ok}
use mutiauk.Route.Types.{IpNet, Route, pos}
use mutiauk.Route.Conflicts.{Nets, detect_conflicts}
use mutiauk.Route.Overlaps.{NetsDocumented, Reported, shared-Reported}

-- The networks of IPv4 with no mask or with a mask of one byte.
abbrev ones_of : Bytes → ℕ
ones_of [] = 0
ones_of (b ∷ mask) = 8

abbrev contains_byte : Bytes → ℕ → ℕ → Bool
contains_byte [] a b = true
contains_byte (m ∷ mask) a b = a == b

abbrev nets : Nets
nets = record {
  mask_ones = ones_of;
  mask_bits = λ mask. 32;
  net_contains = λ n ip. contains_byte n.mask (get_or n.ip 0 0) (get_or ip 0 0);
  net_text = λ n. n.ip ++ n.mask;
}

nested_bytes :
    (m n : Bytes) (a b c : ℕ)
    → contains_byte m a c ≡ true
    → contains_byte n b c ≡ true
    → ones_of m ≤ ones_of n
    → contains_byte m a b ≡ true
nested_bytes [] n a b c h k l = refl
nested_bytes (x ∷ m) [] a b c h k l = absurd (omega arith)
nested_bytes (x ∷ m) (y ∷ n) a b c h k l = ground arith

nets-documented : NetsDocumented nets
nets-documented = record {
  nested = λ a b ip cidr same h k l.
      nested_bytes a.mask b.mask (get_or a.ip 0 0) (get_or b.ip 0 0) (get_or ip 0 0) h k l;
}

abbrev to_net : IpNet → Route
to_net n = record {
  destination = some n;
  gateway = [];
  interface = bytes "tun0";
  metric = pos 0;
  comment = [];
  enabled = true;
}

abbrev everything : IpNet
everything = record { ip = 0 ∷ 0 ∷ 0 ∷ 0 ∷ []; mask = [] }

abbrev ten : IpNet
ten = record { ip = 10 ∷ 0 ∷ 0 ∷ 0 ∷ []; mask = 255 ∷ [] }

shared-Reported_example :
    Reported
      (to_net everything)
      (to_net ten)
      (detect_conflicts nets ([] ++ (to_net everything ∷ ([] ++ to_net ten ∷ []))) (ok []) (ok []))
shared-Reported_example =
    shared-Reported nets nets-documented (to_net everything) (to_net ten) everything ten [] [] []
      (10 ∷ 0 ∷ 0 ∷ 1 ∷ []) (ok []) (ok []) refl refl (omega arith) refl refl refl
