-- ===== src/Base/Ip.antt =====
-- net.IP: a slice of 4 or 16 bytes, or nil, which is the empty slice here.
use Prim.Native.Nat.{ℕ, zero, suc}
use mathlib.Core.Path.{◌≡◌, refl, ap}
use mathlib.Core.Bool.{◌&&◌}
use mathlib.Core.List.{[], ◌∷◌, ◌++◌}
use mathlib.Core.Option.{Option, none, some}
use native.Mathlib.Omega.{arith}
use mutiauk.Base.Lists.{Bytes, length, take, drop, text_discrete}
use mutiauk.Base.Tests.{◌==◌, if◌then◌else◌, does}

abbrev pub v4_in_v6_prefix : Bytes
v4_in_v6_prefix = 0 ∷ 0 ∷ 0 ∷ 0 ∷ 0 ∷ 0 ∷ 0 ∷ 0 ∷ 0 ∷ 0 ∷ 255 ∷ 255 ∷ []

unfoldable pub to4 : Bytes → Option Bytes
unfolding text_discrete
to4 ip =
    if length ip == 4
    then some ip
    else (if length ip == 16 && does (text_discrete (take 12 ip) v4_in_v6_prefix)
        then some (drop 12 ip)
        else none)

unfoldable pub to16 : Bytes → Option Bytes
to16 ip =
    if length ip == 4
    then some (v4_in_v6_prefix ++ ip)
    else (if length ip == 16 then some ip else none)

abbrev pub or_nil : Option Bytes → Bytes
or_nil none = []
or_nil (some ip) = ip

-- `copy` of a slice to the start of n fresh bytes.
unfoldable pub copy_to : ℕ → Bytes → Bytes
copy_to zero bs = []
copy_to (suc n) [] = 0 ∷ copy_to n []
copy_to (suc n) (b ∷ bs) = b ∷ copy_to n bs

pub length-copy_to : (n : ℕ) (bs : Bytes) → length (copy_to n bs) ≡ n
unfolding copy_to
length-copy_to zero bs = refl
length-copy_to (suc n) [] = ap suc (length-copy_to n [])
length-copy_to (suc n) (b ∷ bs) = ap suc (length-copy_to n bs)

pub copy_to_all : (n : ℕ) (bs : Bytes) → length bs ≡ n → copy_to n bs ≡ bs
unfolding copy_to
copy_to_all zero [] h = refl
copy_to_all zero (b ∷ bs) h = absurd (omega arith)
copy_to_all (suc n) [] h = absurd (omega arith)
copy_to_all (suc n) (b ∷ bs) h = ap (◌∷◌ b) (copy_to_all n bs (omega arith))

pub to4_of_four : (ip : Bytes) → length ip ≡ 4 → to4 ip ≡ some ip
unfolding to4
to4_of_four ip h = ground arith

pub to16_of_sixteen : (ip : Bytes) → length ip ≡ 16 → to16 ip ≡ some ip
unfolding to16
to16_of_sixteen ip h = ground arith
