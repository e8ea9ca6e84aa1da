-- ===== src/Base/Words.antt =====
-- encoding/binary's big-endian words. Reading is at the front of a slice whose length the caller
-- has checked; a byte that is missing reads as 0, where Go would panic.
use Prim.Native.Nat.{ℕ, ◌+◌, ◌*◌, ◌/◌, ◌%◌, ◌<◌}
use mathlib.Core.Path.{◌≡◌}
use mathlib.Core.List.{[], ◌∷◌, ◌++◌}
use native.Mathlib.Omega.{arith}
use mutiauk.Base.Lists.{Bytes, get_or, drop}

abbrev pub IsByte : ℕ → Type 0
IsByte b = b < 256

-- `byte(n)` and `uint16(n)`.
abbrev pub byte : ℕ → ℕ
byte n = n % 256

abbrev pub uint16 : ℕ → ℕ
uint16 n = n % 65536

unfoldable pub put_uint16 : ℕ → Bytes
put_uint16 n = byte (n / 256) ∷ byte n ∷ []

unfoldable pub put_uint32 : ℕ → Bytes
put_uint32 n = byte (n / 16777216) ∷ byte (n / 65536) ∷ byte (n / 256) ∷ byte n ∷ []

unfoldable pub put_uint64 : ℕ → Bytes
unfolding put_uint32
put_uint64 n = put_uint32 (n / 4294967296) ++ put_uint32 n

unfoldable pub read_uint16 : Bytes → ℕ
read_uint16 bs = get_or bs 0 0 * 256 + get_or bs 1 0

unfoldable pub read_uint32 : Bytes → ℕ
read_uint32 bs =
    get_or bs 0 0 * 16777216 + get_or bs 1 0 * 65536 + get_or bs 2 0 * 256 + get_or bs 3 0

unfoldable pub read_uint64 : Bytes → ℕ
read_uint64 bs = read_uint32 bs * 4294967296 + read_uint32 (drop 4 bs)

pub read-put_uint16 : (n : ℕ) (rest : Bytes) → read_uint16 (put_uint16 n ++ rest) ≡ n % 65536
unfolding read_uint16 put_uint16
read-put_uint16 n rest = omega arith

pub read-put_uint32 : (n : ℕ) (rest : Bytes) → read_uint32 (put_uint32 n ++ rest) ≡ n % 4294967296
unfolding read_uint32 put_uint32
read-put_uint32 n rest = omega arith

pub read-put_uint64 :
    (n : ℕ) (rest : Bytes) → n < 18446744073709551616 → read_uint64 (put_uint64 n ++ rest) ≡ n
unfolding read_uint64 put_uint64
read-put_uint64 n rest h =
    omega (arith, read-put_uint32 (n / 4294967296) (put_uint32 n ++ rest), read-put_uint32 n rest)
