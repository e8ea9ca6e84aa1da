-- ===== src/Dns/SameName.antt =====
-- When the names of internal/dns/server.go have the same canonical form.
use mutiauk.Base.{
  ◌≡◌, refl, ap, ◌∙◌, not, ◌&&◌, [], ◌∷◌, Text, text_discrete, does, arith, ◌==◌, ℕ, ◌+◌, Bool,
  true, false, ◌||◌, leb, Bool-cases, inl, inr, sym,
}
use mutiauk.Dns.Names.{is_empty, lower_byte, canon_name}

-- Equality of bytes up to the case of ASCII letters.
abbrev pub same_letter : ℕ → ℕ → Bool
same_letter c d =
    c == d || (leb 65 c && leb c 90 && c + 32 == d) || (leb 65 d && leb d 90 && d + 32 == c)

abbrev pub at_most_dot : Text → Bool
at_most_dot [] = true
at_most_dot (c ∷ []) = c == 46
at_most_dot (c ∷ d ∷ s) = false

-- Equality of names up to the case of ASCII letters and one dot at the end of either.
unfoldable pub same_name : Text → Text → Bool
same_name [] t = at_most_dot t
same_name (c ∷ s) [] = at_most_dot (c ∷ s)
same_name (c ∷ []) (d ∷ []) = same_letter c d
same_name (c ∷ []) (d ∷ e ∷ t) = not (c == 46) && same_letter c d && e == 46 && is_empty t
same_name (c ∷ e ∷ s) (d ∷ []) = not (d == 46) && same_letter c d && e == 46 && is_empty s
same_name (c ∷ e ∷ s) (d ∷ f ∷ t) = same_letter c d && same_name (e ∷ s) (f ∷ t)

lower-same : (c d : ℕ) → (lower_byte c == lower_byte d) ≡ same_letter c d
lower-same c d = ground arith

discrete-cons :
    (c d : ℕ) (s t : Text)
    → does (text_discrete (c ∷ s) (d ∷ t)) ≡ (c == d) && does (text_discrete s t)
unfolding text_discrete
discrete-cons c d s t = ground arith

nil_nil : does (text_discrete [] []) ≡ true
unfolding text_discrete
nil_nil = refl

nil_cons : (d : ℕ) (t : Text) → does (text_discrete [] (d ∷ t)) ≡ false
unfolding text_discrete
nil_cons d t = refl

cons_nil : (c : ℕ) (s : Text) → does (text_discrete (c ∷ s) []) ≡ false
unfolding text_discrete
cons_nil c s = refl

-- A byte alone, which may be the dot, against a text.
one_nil : (c : ℕ) → does (text_discrete (canon_name (c ∷ [])) []) ≡ (c == 46)
unfolding canon_name
one_nil c = ground (arith, nil_nil, cons_nil (lower_byte c) [])

one_cons :
    (c d : ℕ) (t : Text)
    → does (text_discrete (canon_name (c ∷ [])) (lower_byte d ∷ t))
      ≡ not (c == 46) && same_letter c d && does (text_discrete [] t)
unfolding canon_name
one_cons c d t = elim (Bool-cases (c == 46)) [
  | inl e ↦ rw e (nil_cons (lower_byte d) t)
  | inr e ↦ rw e (discrete-cons (lower_byte c) (lower_byte d) [] t ∙ rw (lower-same c d) refl)
]

equal-symmetric : (c d : ℕ) → (c == d) ≡ (d == c)
equal-symmetric c d = ground arith

symmetric : (s t : Text) → does (text_discrete s t) ≡ does (text_discrete t s)
symmetric [] [] = refl
symmetric [] (d ∷ t) = nil_cons d t ∙ sym (cons_nil d t)
symmetric (c ∷ s) [] = cons_nil c s ∙ sym (nil_cons c s)
symmetric (c ∷ s) (d ∷ t) =
    discrete-cons c d s t
    ∙ rw (symmetric s t) (rw (equal-symmetric c d) (sym (discrete-cons d c t s)))

same_letter-symmetric : (c d : ℕ) → same_letter c d ≡ same_letter d c
same_letter-symmetric c d = ground arith

dot_alone : (d : ℕ) → (d == 46) ≡ true → canon_name (d ∷ []) ≡ []
unfolding canon_name
dot_alone d e = rw e refl

other_alone : (d : ℕ) → (d == 46) ≡ false → canon_name (d ∷ []) ≡ lower_byte d ∷ []
unfolding canon_name
other_alone d e = rw e refl

one_one :
    (c d : ℕ) → does (text_discrete (canon_name (c ∷ [])) (canon_name (d ∷ []))) ≡ same_letter c d
one_one c d = elim (Bool-cases (d == 46)) [
  | inl e ↦
      ap (λ t. does (text_discrete (canon_name (c ∷ [])) t)) (dot_alone d e)
      ∙ one_nil c
      ∙ ground arith
  | inr e ↦
      ap (λ t. does (text_discrete (canon_name (c ∷ [])) t)) (other_alone d e)
      ∙ one_cons c d []
      ∙ rw nil_nil (ground arith)
]

-- The rest of a text behind its first byte is at most a dot.
dot_left :
    (c d f : ℕ)
    → not (c == 46) && same_letter c d && does (text_discrete [] (canon_name (f ∷ [])))
      ≡ not (c == 46) && same_letter c d && f == 46 && true
dot_left c d f =
    ap (λ b. not (c == 46) && same_letter c d && b) (symmetric [] (canon_name (f ∷ [])) ∙ one_nil f)
    ∙ ground arith

more_left :
    (c d f : ℕ) (t : Text)
    → not (c == 46) && same_letter c d && does (text_discrete [] (lower_byte f ∷ t))
      ≡ not (c == 46) && same_letter c d && f == 46 && false
more_left c d f t =
    ap (λ b. not (c == 46) && same_letter c d && b) (nil_cons (lower_byte f) t) ∙ ground arith

pub same_name-canon_name :
    (a b : Text) → does (text_discrete (canon_name a) (canon_name b)) ≡ same_name a b
unfolding same_name canon_name
same_name-canon_name [] [] = nil_nil
same_name-canon_name [] (d ∷ []) = symmetric [] (canon_name (d ∷ [])) ∙ one_nil d
same_name-canon_name [] (d ∷ f ∷ t) = nil_cons _ _
same_name-canon_name (c ∷ []) [] = one_nil c
same_name-canon_name (c ∷ e ∷ s) [] = cons_nil _ _
same_name-canon_name (c ∷ []) (d ∷ []) = one_one c d
same_name-canon_name (c ∷ []) (d ∷ f ∷ []) = one_cons c d _ ∙ dot_left c d f
same_name-canon_name (c ∷ []) (d ∷ f ∷ g ∷ t) = one_cons c d _ ∙ more_left c d f _
same_name-canon_name (c ∷ e ∷ []) (d ∷ []) =
    symmetric (canon_name (c ∷ e ∷ [])) (canon_name (d ∷ []))
    ∙ one_cons d c _
    ∙ dot_left d c e
    ∙ rw (same_letter-symmetric c d) refl
same_name-canon_name (c ∷ e ∷ g ∷ s) (d ∷ []) =
    symmetric (canon_name (c ∷ e ∷ g ∷ s)) (canon_name (d ∷ []))
    ∙ one_cons d c _
    ∙ more_left d c e _
    ∙ rw (same_letter-symmetric c d) refl
same_name-canon_name (c ∷ e ∷ s) (d ∷ f ∷ t) =
    discrete-cons (lower_byte c) (lower_byte d) _ _
    ∙ rw (lower-same c d) (rw (same_name-canon_name (e ∷ s) (f ∷ t)) refl)
