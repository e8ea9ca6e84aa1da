-- ===== src/Dns/Names.antt =====
-- Names and suffixes of internal/dns/server.go. A name is its bytes; lower case and white space are
-- those of ASCII.
use mutiauk.Base.{
  ℕ, ◌+◌, ◌-◌, Bool, true, false, not, ◌&&◌, ◌||◌, List, [], ◌∷◌, ◌++◌, Text, length, drop, get_or,
  leb, ltb, ◌==◌, if◌then◌else◌, text_discrete, does,
}
use mutiauk.Base.GoMap.{contains}
use mutiauk.Autoroutes.Rules.{text_ltb}

abbrev pub dot : ℕ
dot = 46

abbrev pub hyphen : ℕ
hyphen = 45

abbrev pub is_empty : Text → Bool
is_empty [] = true
is_empty (c ∷ s) = false

abbrev pub lower_byte : ℕ → ℕ
lower_byte c = if leb 65 c && leb c 90 then c + 32 else c

abbrev pub is_space : ℕ → Bool
is_space c = (leb 9 c && leb c 13) || c == 32

-- strings.ToLower, TrimSuffix(s, "."), Trim and Split(s, ".")
unfoldable pub to_lower : Text → Text
to_lower [] = []
to_lower (c ∷ s) = lower_byte c ∷ to_lower s

unfoldable pub trim_suffix_dot : Text → Text
trim_suffix_dot [] = []
trim_suffix_dot (c ∷ []) = if c == dot then [] else c ∷ []
trim_suffix_dot (c ∷ d ∷ s) = c ∷ trim_suffix_dot (d ∷ s)

unfoldable pub trim_left : (ℕ → Bool) → Text → Text
trim_left p [] = []
trim_left p (c ∷ s) = let rest = trim_left p s in if p c then rest else c ∷ s

unfoldable pub trim_right : (ℕ → Bool) → Text → Text
trim_right p [] = []
trim_right p (c ∷ s) = let rest = trim_right p s in if p c && is_empty rest then [] else c ∷ rest

unfoldable pub trim : (ℕ → Bool) → Text → Text
unfolding trim_left trim_right
trim p s = trim_right p (trim_left p s)

abbrev pub before_first : ℕ → List Text → List Text
before_first c [] = (c ∷ []) ∷ []
before_first c (l ∷ ls) = (c ∷ l) ∷ ls

unfoldable pub split_dots : Text → List Text
split_dots [] = [] ∷ []
split_dots (c ∷ s) = let rest = split_dots s in if c == dot then [] ∷ rest else before_first c rest

unfoldable pub canon_name : Text → Text
unfolding to_lower trim_suffix_dot
canon_name name = to_lower (trim_suffix_dot name)

abbrev pub all_bytes : (ℕ → Bool) → Text → Bool
all_bytes p [] = true
all_bytes p (c ∷ s) = p c && all_bytes p s

abbrev pub label_byte : ℕ → Bool
label_byte c = not ((ltb c 97 || ltb 122 c) && (ltb c 48 || ltb 57 c) && not (c == hyphen))

unfoldable pub is_valid_dns_label : Text → Bool
is_valid_dns_label label =
    if is_empty label || ltb 63 (length label)
    then false
    else (if get_or label 0 0 == hyphen || get_or label (length label - 1) 0 == hyphen
        then false
        else all_bytes label_byte label)

abbrev pub all_texts : (Text → Bool) → List Text → Bool
all_texts p [] = true
all_texts p (t ∷ ts) = p t && all_texts p ts

unfoldable pub is_valid_suffix : Text → Bool
unfolding is_valid_dns_label split_dots
is_valid_suffix s =
    if is_empty s || ltb 253 (length s) then false else all_texts is_valid_dns_label (split_dots s)

unfoldable pub has_suffix : Text → Text → Bool
unfolding text_discrete
has_suffix s suf =
    leb (length suf) (length s) && does (text_discrete (drop (length s - length suf) s) suf)

unfoldable pub matches_one : Text → List Text → Bool
unfolding has_suffix text_discrete
matches_one name [] = false
matches_one name (suf ∷ rest) =
    let later = matches_one name rest in
    if is_empty suf
    then later
    else (if does (text_discrete name suf) || has_suffix name (dot ∷ suf) then true else later)

unfoldable pub name_matches_any : Text → List Text → Bool
unfolding matches_one
name_matches_any name suffixes = if is_empty name then false else matches_one name suffixes

unfoldable pub matches_any_suffix : Text → List Text → Bool
unfolding canon_name name_matches_any
matches_any_suffix name suffixes = name_matches_any (canon_name name) suffixes

unfoldable pub clean_suffix : Text → Text
unfolding trim to_lower
clean_suffix suf = to_lower (trim (λ c. c == dot) (trim is_space suf))

-- One round of the loop of normalizeSuffixes; the entries of `seen` are those of `out`.
unfoldable pub add_suffix : Text → List Text → List Text
unfolding is_valid_suffix contains text_discrete
add_suffix v out =
    if is_empty v
    then out
    else (if not (is_valid_suffix v)
        then out
        else (if contains text_discrete v out then out else out ++ v ∷ []))

unfoldable pub collect_suffixes : List Text → List Text → List Text
unfolding clean_suffix add_suffix
collect_suffixes out [] = out
collect_suffixes out (suf ∷ rest) = collect_suffixes (add_suffix (clean_suffix suf) out) rest

-- slices.Sort
unfoldable pub insert_text : Text → List Text → List Text
unfolding text_ltb
insert_text t [] = t ∷ []
insert_text t (u ∷ us) = if text_ltb u t then u ∷ insert_text t us else t ∷ u ∷ us

unfoldable pub sort_texts : List Text → List Text
unfolding insert_text
sort_texts [] = []
sort_texts (t ∷ ts) = insert_text t (sort_texts ts)

unfoldable pub normalize_suffixes : List Text → List Text
unfolding collect_suffixes sort_texts
normalize_suffixes suffixes = sort_texts (collect_suffixes [] suffixes)
