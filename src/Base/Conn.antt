-- ===== src/Base/Conn.antt =====
-- A net.Conn as the code uses it: the bytes that the peer will have sent, the bytes written so far,
-- and how many further writes succeed. Every caller gives up at its first failing write, so the
-- count stands for any behaviour of the transport.
use Prim.Native.Nat.{ℕ, zero, suc}
use mathlib.Core.Path.{◌≡◌}
use mathlib.Core.List.{[], ◌++◌}
use native.Mathlib.Omega.{arith}
use mutiauk.Base.Lists.{Bytes, length, take, drop, take_append, drop_append, length-append}
use mutiauk.Base.Tests.{ltb, if◌then◌else◌}

pub record Conn : Type 0 where
  pub input : Bytes
  pub output : Bytes
  pub writes_left : ℕ

pub data Result {ℓ} (E : Type 0) (A : Type ℓ) : Type ℓ where
  ok : A → Result E A
  err : E → Result E A

-- A step that uses the connection: its outcome, and the connection after it.
abbrev pub Io : Type 0 → Type 0 → Type 0
Io E A = Conn → Result E A × Conn

abbrev pub bind_result : {E A B : Type 0} → Result E A × Conn → (A → Io E B) → Result E B × Conn
bind_result (ok a, c) f = f a c
bind_result (err e, c) f = (err e, c)

infixl 5 ◌>>=◌ ◌>>◌
abbrev pub ◌>>=◌ : {E A B : Type 0} → Io E A → (A → Io E B) → Io E B
◌>>=◌ m f c = bind_result (m c) f

abbrev pub ◌>>◌ : {E B : Type 0} → Io E (Unit {0}) → Io E B → Io E B
◌>>◌ m k c = bind_result (m c) (λ _. k)

abbrev pub return : {E A : Type 0} → A → Io E A
return a c = (ok a, c)

abbrev pub throw : {E A : Type 0} → E → Io E A
throw e c = (err e, c)

-- `conn.Write(bs)`, with the error that the caller makes of a failure.
unfoldable pub write : {E : Type 0} → E → Bytes → Io E (Unit {0})
write e bs c = elim c.writes_left [
  | zero ↦ (err e, c)
  | suc n ↦ (ok tt, record c { output = c.output ++ bs; writes_left = n })
]

-- `io.ReadFull(conn, buf)` for a buffer of n bytes.
unfoldable pub read_full : {E : Type 0} → E → ℕ → Io E Bytes
read_full e n c =
    if ltb (length c.input) n
    then (err e, record c { input = [] })
    else (ok (take n c.input), record c { input = drop n c.input })

-- A read takes exactly the bytes that it asks for.
pub read_full-append :
    {E : Type 0} (e : E) (n : ℕ) (bs rest : Bytes) (c : Conn)
    → length bs ≡ n
    → c.input ≡ bs ++ rest
    → read_full e n c ≡ (ok bs, record c { input = rest })
unfolding read_full
read_full-append e n bs rest c hn hc =
    ground (arith, length-append bs rest, take_append bs rest, drop_append bs rest)
