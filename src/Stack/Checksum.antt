-- ===== src/Stack/Checksum.antt =====
-- The Internet checksum of internal/stack/intercept_endpoint.go, on uint32 words with the wrap-around
-- written out. A shift by 16 is a division and the mask 0xffff a remainder; the bits of the two bytes
-- of a word are disjoint, so `|` is a sum.
use mutiauk.Base.{ℕ, suc, zero, ◌+◌, ◌-◌, ◌*◌, ◌/◌, ◌%◌, [], ◌∷◌, Bytes, ltb, if◌then◌else◌}
use mutiauk.Base.Words.{uint16}

abbrev pub uint32 : ℕ → ℕ
uint32 n = n % 4294967296

-- The words of the buffer, and its last byte as the high one of a word.
unfoldable pub sum_words : ℕ → Bytes → ℕ
sum_words sum [] = sum
sum_words sum (b ∷ []) = uint32 (sum + b * 256)
sum_words sum (a ∷ b ∷ rest) = sum_words (uint32 (sum + (a * 256 + b))) rest

-- The second loop, on fuel.
unfoldable pub fold_carries : ℕ → ℕ → ℕ
fold_carries zero sum = sum
fold_carries (suc n) sum =
    let folded = fold_carries n (sum / 65536 + sum % 65536) in if ltb 65535 sum then folded else sum

-- Two rounds are enough for any uint32.
unfoldable pub checksum : Bytes → ℕ → ℕ
unfolding sum_words fold_carries
checksum bs initial = uint16 (fold_carries 2 (sum_words initial bs))

-- `^sum` of a uint16.
abbrev pub complement : ℕ → ℕ
complement sum = 65535 - sum
