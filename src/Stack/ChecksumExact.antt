-- ===== src/Stack/ChecksumExact.antt =====
-- The checksum against the sum of the words in one's complement arithmetic, and what a receiver
-- computes over a packet that carries it (internal/stack/intercept_endpoint.go).
use mutiauk.Base.{
  ℕ, suc, zero, ◌+◌, ◌-◌, ◌*◌, ◌/◌, ◌%◌, ◌≤◌, ◌<◌, ◌≡◌, refl, ap, [], ◌∷◌, ◌++◌, Bytes, All, length,
  length-append, ◌==◌, if◌then◌else◌, arith, dec_lt, sym, ◌∙◌, append_assoc,
}
use mutiauk.Base.Words.{put_uint16, IsByte}
use mutiauk.Stack.Checksum.{uint32, sum_words, fold_carries, checksum, complement}

-- The sum of the words, as a number.
abbrev pub word_sum : Bytes → ℕ
word_sum [] = 0
word_sum (b ∷ []) = b * 256
word_sum (a ∷ b ∷ rest) = (a * 256 + b) + word_sum rest

-- A number in one's complement on 16 bits: its remainder by 65535, as one of 1 to 65535 unless it is
-- zero.
abbrev pub ones_complement : ℕ → ℕ
ones_complement n = if n == 0 then 0 else (n - 1) % 65535 + 1

sum_words_exact :
    (sum : ℕ) (bs : Bytes) → sum + word_sum bs < 4294967296 → sum_words sum bs ≡ sum + word_sum bs
unfolding sum_words
sum_words_exact sum [] h = omega arith
sum_words_exact sum (b ∷ []) h = omega arith
sum_words_exact sum (a ∷ b ∷ rest) h =
    let e : uint32 (sum + (a * 256 + b)) ≡ sum + (a * 256 + b) = omega arith in
    rw e (omega (arith, sum_words_exact (sum + (a * 256 + b)) rest (omega arith)))

word_sum-le : (bs : Bytes) → All IsByte bs → word_sum bs * 2 ≤ 65535 * (length bs + 1)
word_sum-le [] h = omega arith
word_sum-le (b ∷ []) h = omega arith
word_sum-le (a ∷ b ∷ rest) h = omega (arith, word_sum-le rest h.1.1)

-- A sum that needs no carry is left alone.
fold_carries-le : (n sum : ℕ) → sum ≤ 65535 → fold_carries n sum ≡ sum
unfolding fold_carries
fold_carries-le zero sum h = refl
fold_carries-le (suc n) sum h = ground arith

fold_carries_step :
    (n sum : ℕ)
    → 65535 < sum
    → fold_carries (suc n) sum ≡ fold_carries n (sum / 65536 + sum % 65536)
unfolding fold_carries
fold_carries_step n sum h = ground arith

ones_complement_step :
    (sum : ℕ) → 65535 < sum → ones_complement (sum / 65536 + sum % 65536) ≡ ones_complement sum
ones_complement_step sum h = ground arith

ones_complement_small : (sum : ℕ) → sum ≤ 65535 → ones_complement sum ≡ sum
ones_complement_small sum h = ground arith

-- A sum with one carry at most needs one round.
fold_carries_once : (n sum : ℕ) → sum ≤ 131070 → fold_carries (suc n) sum ≡ ones_complement sum
fold_carries_once n sum h = elim (dec_lt 65535 sum) [
  | yes p ↦
      fold_carries_step n sum p
      ∙ fold_carries-le n (sum / 65536 + sum % 65536) (omega arith)
      ∙ sym (ones_complement_small (sum / 65536 + sum % 65536) (omega arith))
      ∙ ones_complement_step sum p
  | no p ↦ fold_carries-le (suc n) sum (omega arith) ∙ sym (ones_complement_small sum (omega arith))
]

-- Two rounds of the second loop are enough for every uint32.
fold_carries_exact :
    (n sum : ℕ) → sum < 4294967296 → fold_carries (suc (suc n)) sum ≡ ones_complement sum
fold_carries_exact n sum h = elim (dec_lt 65535 sum) [
  | yes p ↦
      fold_carries_step (suc n) sum p
      ∙ fold_carries_once n (sum / 65536 + sum % 65536) (omega arith)
      ∙ ones_complement_step sum p
  | no p ↦
      fold_carries-le (suc (suc n)) sum (omega arith)
      ∙ sym (ones_complement_small sum (omega arith))
]

-- The checksum of a buffer of at most 131070 bytes is the sum of its 16-bit words, the last one
-- filled up with a zero byte, and of the initial value, in one's complement; no addition overflows,
-- and more rounds of the second loop than two change nothing.
pub checksum_exact :
    (bs : Bytes) (initial n : ℕ)
    → All IsByte bs
    → initial < 65536
    → length bs ≤ 131070
    → (checksum bs initial ≡ ones_complement (initial + word_sum bs))
      × (fold_carries (suc (suc n)) (sum_words initial bs) ≡ checksum bs initial)
unfolding checksum
checksum_exact bs initial n hb hi hl =
    let small : initial + word_sum bs < 4294967296 = omega (arith, word_sum-le bs hb) in
    let two = fold_carries_exact 0 (initial + word_sum bs) small in
    let more = fold_carries_exact n (initial + word_sum bs) small in
    rw (sum_words_exact initial bs small) (ground (arith, two, more))

word_sum-append :
    (k : ℕ) (xs ys : Bytes) → length xs ≡ 2 * k → word_sum (xs ++ ys) ≡ word_sum xs + word_sum ys
word_sum-append zero [] ys h = omega arith
word_sum-append zero (a ∷ xs) ys h = absurd (omega arith)
word_sum-append (suc k) [] ys h = absurd (omega arith)
word_sum-append (suc k) (a ∷ []) ys h = absurd (omega arith)
word_sum-append (suc k) (a ∷ b ∷ xs) ys h = omega (arith, word_sum-append k xs ys (omega arith))

word_sum-put_uint16 :
    (n : ℕ) (ys : Bytes) → n < 65536 → word_sum (put_uint16 n ++ ys) ≡ n + word_sum ys
unfolding put_uint16
word_sum-put_uint16 n ys h = omega arith

ones_complement-complement : (n : ℕ) → ones_complement (n + complement (ones_complement n)) ≡ 65535
ones_complement-complement n = ground arith

pub All-append : (P : ℕ → Type 0) (xs ys : Bytes) → All P xs → All P ys → All P (xs ++ ys)
All-append P [] ys hx hy = hy
All-append P (x ∷ xs) ys hx hy = (hx.0, All-append P xs ys hx.1 hy)

pub length-put_uint16 : (n : ℕ) → length (put_uint16 n) ≡ 2
unfolding put_uint16
length-put_uint16 n = refl

pub put_uint16-IsByte : (n : ℕ) → All IsByte (put_uint16 n)
unfolding put_uint16
put_uint16-IsByte n = omega arith

-- The checksum of a packet with a number at an even place.
checksum-field :
    (k n : ℕ) (xs ys : Bytes) (initial : ℕ)
    → length xs ≡ 2 * k
    → All IsByte xs
    → All IsByte ys
    → initial < 65536
    → n < 65536
    → length xs + length ys ≤ 131068
    → checksum (xs ++ put_uint16 n ++ ys) initial
      ≡ ones_complement ((initial + (word_sum xs + word_sum ys)) + n)
checksum-field k n xs ys initial hk hx hy hi hn hl =
    let field = All-append IsByte (put_uint16 n) ys (put_uint16-IsByte n) hy in
    let exact =
      checksum_exact (xs ++ (put_uint16 n ++ ys)) initial 0
        (All-append IsByte xs (put_uint16 n ++ ys) hx field) hi
        (omega (
          arith,
          length-append xs (put_uint16 n ++ ys),
          length-append (put_uint16 n) ys,
          length-put_uint16 n,
        )) in
    rw (append_assoc xs (put_uint16 n) ys) (
      exact.0
      ∙ ap ones_complement (
          omega (arith, word_sum-append k xs (put_uint16 n ++ ys) hk, word_sum-put_uint16 n ys hn)))

-- If the complement of the checksum of a packet with a zero checksum field, which stands at an even
-- place, is put into that field, then the checksum of the packet is 65535, as a receiver wants it.
pub checksum_verifies :
    (k : ℕ) (xs ys : Bytes) (initial : ℕ)
    → length xs ≡ 2 * k
    → All IsByte xs
    → All IsByte ys
    → initial < 65536
    → length xs + length ys ≤ 131068
    → checksum
        (xs ++ put_uint16 (complement (checksum (xs ++ put_uint16 0 ++ ys) initial)) ++ ys)
        initial
      ≡ 65535
checksum_verifies k xs ys initial hk hx hy hi hl =
    let total = initial + (word_sum xs + word_sum ys) in
    let empty : checksum (xs ++ put_uint16 0 ++ ys) initial ≡ ones_complement total =
      rw (checksum-field k 0 xs ys initial hk hx hy hi (omega arith) hl)
        (ap ones_complement (omega arith)) in
    rw empty (
      checksum-field k (complement (ones_complement total)) xs ys initial hk hx hy hi (omega arith)
        hl
      ∙ ones_complement-complement total)
