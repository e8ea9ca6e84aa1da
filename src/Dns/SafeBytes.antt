-- ===== src/Dns/SafeBytes.antt =====
-- The bytes of the active suffixes (isValidSuffix of internal/dns/server.go), which are written into
-- files and commands of the system.
use mutiauk.Base.{
  ℕ, ◌≤◌, ◌≡◌, ◌⊎◌, inl, inr, refl, true, List, [], ◌∷◌, Text, arith, All, length, ◌==◌, Bool-cases,
}
use mutiauk.Base.GoMap.{contains}
use mutiauk.Dns.Names.{
  dot, all_bytes, all_texts, label_byte, is_valid_dns_label, before_first, split_dots,
  is_valid_suffix, normalize_suffixes,
}
use mutiauk.Dns.Suffixes.{has, normalize_suffixes_exact}

-- A letter of a to z, a digit, a hyphen or a dot.
abbrev pub SafeByte : ℕ → Type 0
SafeByte c = ((97 ≤ c) × (c ≤ 122)) ⊎ (((48 ≤ c) × (c ≤ 57)) ⊎ ((c ≡ 45) ⊎ (c ≡ 46)))

abbrev pub SafeName : Text → Type 0
SafeName s = All SafeByte s × (length s ≤ 253)

label_byte-Safe : (c : ℕ) → label_byte c ≡ true → SafeByte c
label_byte-Safe c h = ground arith

labels_before :
    (c : ℕ) (ls : List Text)
    → all_texts (all_bytes label_byte) (before_first c ls) ≡ true
    → (label_byte c ≡ true) × (all_texts (all_bytes label_byte) ls ≡ true)
labels_before c [] h = ground arith
labels_before c (l ∷ ls) h = ground arith

split_dots-Safe :
    (s : Text) → all_texts (all_bytes label_byte) (split_dots s) ≡ true → All SafeByte s
unfolding split_dots
split_dots-Safe [] h = tt
split_dots-Safe (c ∷ s) h = elim (Bool-cases (c == dot)) [
  | inl e ↦ (inr (inr (inr (ground arith))), split_dots-Safe s (ground arith))
  | inr e ↦
      let parts = labels_before c (split_dots s) (rw e at h) in
      (label_byte-Safe c parts.0, split_dots-Safe s parts.1)
]

label_bytes :
    (ls : List Text)
    → all_texts is_valid_dns_label ls ≡ true
    → all_texts (all_bytes label_byte) ls ≡ true
unfolding is_valid_dns_label
label_bytes [] h = refl
label_bytes (l ∷ ls) h = ground (arith, label_bytes ls)

is_valid_suffix-Safe : (s : Text) → is_valid_suffix s ≡ true → SafeName s
unfolding is_valid_suffix
is_valid_suffix-Safe s h =
    (split_dots-Safe s (ground (arith, label_bytes (split_dots s))), ground arith)

All-has : {P : Text → Type 0} (ts : List Text) → ((k : Text) → has k ts ≡ true → P k) → All P ts
unfolding contains
All-has [] f = tt
All-has (t ∷ ts) f = (f t (ground arith), All-has ts (λ k h. f k (ground arith)))

-- Every active suffix has at most 253 bytes and consists of the letters a to z, digits, hyphens and
-- dots, whatever was received.
pub normalize_suffixes-Safe : (suffixes : List Text) → All SafeName (normalize_suffixes suffixes)
normalize_suffixes-Safe suffixes =
    All-has (normalize_suffixes suffixes)
      (λ k h. is_valid_suffix-Safe k (ground (arith, (normalize_suffixes_exact k suffixes).1)))
