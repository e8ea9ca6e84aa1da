-- ===== src/Stack/Windows.antt =====
-- Writing through a window into a packet (internal/stack/intercept_endpoint.go): what changes and how
-- long the packet stays.
use mutiauk.Base.{
  ℕ, suc, zero, ◌+◌, ◌≤◌, ◌≡◌, refl, ap, ◌∙◌, Bytes, [], ◌∷◌, ◌++◌, length, take, drop, replicate,
  length-append, length-take_le, length-drop, arith, All,
}
use mutiauk.Base.Words.{IsByte}
use mutiauk.Stack.ChecksumExact.{All-append}
use mutiauk.Stack.Headers.{WritesWithin}
use mutiauk.Stack.Packets.{from, overwrite}

pub overwrite_all : (dst src : Bytes) → length src ≡ length dst → overwrite dst src ≡ src
overwrite_all [] [] h = refl
overwrite_all [] (s ∷ src) h = absurd (omega arith)
overwrite_all (d ∷ dst) [] h = absurd (omega arith)
overwrite_all (d ∷ dst) (s ∷ src) h = ap (◌∷◌ s) (overwrite_all dst src (omega arith))

pub overwrite_nothing : (dst : Bytes) → overwrite dst [] ≡ dst
overwrite_nothing [] = refl
overwrite_nothing (d ∷ dst) = refl

pub length-replicate : (n : ℕ) → length (replicate n (zero)) ≡ n
length-replicate zero = refl
length-replicate (suc n) = ap suc (length-replicate n)

pub drop-take_append : (n : ℕ) (xs ys : Bytes) → n ≤ length xs → drop n (take n xs ++ ys) ≡ ys
drop-take_append zero xs ys h = refl
drop-take_append (suc n) [] ys h = absurd (omega arith)
drop-take_append (suc n) (x ∷ xs) ys h = drop-take_append n xs ys (omega arith)

pub length-from :
    (n : ℕ) (f : Bytes → Bytes) (pkt : Bytes)
    → n ≤ length pkt
    → length (from n f pkt) ≡ n + length (f (drop n pkt))
length-from n f pkt h =
    omega (arith, length-append (take n pkt) (f (drop n pkt)), length-take_le n pkt h)

-- The header first, then what is behind it: the packet keeps its length, and the rest of it is what
-- the second writer makes of a slice of the length that was left for it.
pub from-within :
    (n m : ℕ) (header f : Bytes → Bytes)
    → WritesWithin n header
    → let slice = drop n (header (replicate (n + m) 0)) in
      (length slice ≡ m)
      × (drop n (from n f (header (replicate (n + m) 0))) ≡ f slice)
      × (length (from n f (header (replicate (n + m) 0))) ≡ n + length (f slice))
from-within n m header f w =
    let zeros = replicate (n + m) 0 in
    let l = length-replicate (n + m) in
    let whole = w zeros (omega arith) in
    let le : n ≤ length (header zeros) = omega arith in
    (
      omega (arith, length-drop n (header zeros)),
      drop-take_append n (header zeros) (f (drop n (header zeros))) le,
      length-from n f (header zeros) le,
    )

pub drop-replicate : (n m : ℕ) → drop n (replicate (n + m) (zero)) ≡ replicate m zero
drop-replicate zero m = ap (λ k. replicate k zero) (omega arith)
drop-replicate (suc n) m =
    let e : suc n + m ≡ suc (n + m) = omega arith in
    ap (λ k. drop (suc n) (replicate k zero)) e ∙ drop-replicate n m

pub replicate-IsByte : (n : ℕ) → All IsByte (replicate n zero)
replicate-IsByte zero = tt
replicate-IsByte (suc n) = (omega arith, replicate-IsByte n)

pub take-All : (n : ℕ) (xs : Bytes) → All IsByte xs → All IsByte (take n xs)
take-All zero xs h = tt
take-All (suc n) [] h = tt
take-All (suc n) (x ∷ xs) h = (h.0, take-All n xs h.1)

-- Behind a header in a fresh packet everything is zero.
pub from-zeros :
    (n m : ℕ) (header f : Bytes → Bytes)
    → WritesWithin n header
    → let r = from n f (header (replicate (n + m) 0)) in
      (drop n r ≡ f (replicate m 0))
      × (length r ≡ n + length (f (replicate m 0)))
      × (All IsByte (f (replicate m 0)) → All IsByte r)
from-zeros n m header f w =
    let zeros = replicate (n + m) 0 in
    let l = length-replicate (n + m) in
    let whole = w zeros (omega arith) in
    let slice = whole.1 ∙ drop-replicate n m in
    let parts = from-within n m header f w in
    (
      parts.1 ∙ ap f slice,
      parts.2 ∙ ap (λ t. n + length (f t)) slice,
      λ bytes.
          All-append IsByte (take n (header zeros)) (f (drop n (header zeros)))
            (take-All n (header zeros) (whole.2 (replicate-IsByte (n + m)))) (rw slice bytes),
    )
