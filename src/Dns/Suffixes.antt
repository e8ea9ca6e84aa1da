-- ===== src/Dns/Suffixes.antt =====
-- The active suffixes (normalizeSuffixes of internal/dns/server.go).
use mutiauk.Base.{
  ◌≡◌, ◌≢◌, refl, sym, ap, ◌∙◌, Bool, true, false, not, ◌&&◌, ◌||◌, List, [], ◌∷◌, ◌++◌, Text,
  text_discrete, arith, if_cases, map,
}
use mutiauk.Base.GoMap.{contains}
use mutiauk.Autoroutes.Rules.{text_ltb}
use mutiauk.Autoroutes.Order.{text_ltb_total}
use mutiauk.Dns.Names.{
  is_empty, is_valid_suffix, clean_suffix, add_suffix, collect_suffixes, insert_text, sort_texts,
  normalize_suffixes,
}

-- Each text is before the next one, so that none stands twice.
abbrev pub FirstAfter : Text → List Text → Type 0
FirstAfter t [] = Unit
FirstAfter t (u ∷ us) = text_ltb t u ≡ true

abbrev pub Ascending : List Text → Type 0
Ascending [] = Unit
Ascending (t ∷ ts) = FirstAfter t ts × Ascending ts

abbrev pub has : Text → List Text → Bool
has = contains text_discrete

abbrev NoRepeat : List Text → Type 0
NoRepeat [] = Unit
NoRepeat (t ∷ ts) = (has t ts ≡ false) × NoRepeat ts

has-insert_text : (k t : Text) (ts : List Text) → has k (insert_text t ts) ≡ has k (t ∷ ts)
unfolding insert_text contains
has-insert_text k t [] = refl
has-insert_text k t (u ∷ us) = ground (arith, has-insert_text k t us)

has-sort_texts : (k : Text) (ts : List Text) → has k (sort_texts ts) ≡ has k ts
unfolding sort_texts contains
has-sort_texts k [] = refl
has-sort_texts k (t ∷ ts) = ground (arith, has-insert_text k t (sort_texts ts), has-sort_texts k ts)

insert_after :
    (k t : Text) (ts : List Text)
    → text_ltb k t ≡ true
    → FirstAfter k ts
    → FirstAfter k (insert_text t ts)
unfolding insert_text
insert_after k t [] h f = h
insert_after k t (u ∷ us) h f = ground arith

has_apart : (k u : Text) (us : List Text) → has k (u ∷ us) ≡ false → (k ≢ u) × (has k us ≡ false)
unfolding contains
has_apart k u us h = ground arith

insert_text-Ascending :
    (t : Text) (ts : List Text) → has t ts ≡ false → Ascending ts → Ascending (insert_text t ts)
unfolding insert_text
insert_text-Ascending t [] h a = (tt, tt)
insert_text-Ascending t (u ∷ us) h a =
    let apart = has_apart t u us h in
    if_cases Ascending (text_ltb u t)
      (λ e. (insert_after u t us e a.0, insert_text-Ascending t us apart.1 a.1))
      (λ e. (text_ltb_total u t e (λ p. apart.0 (sym p)), a))

sort_texts-Ascending : (ts : List Text) → NoRepeat ts → Ascending (sort_texts ts)
unfolding sort_texts
sort_texts-Ascending [] n = tt
sort_texts-Ascending (t ∷ ts) n =
    insert_text-Ascending t (sort_texts ts) (has-sort_texts t ts ∙ n.0)
      (sort_texts-Ascending ts n.1)

has-append : (k t : Text) (ts : List Text) → has k (ts ++ t ∷ []) ≡ has k (t ∷ ts)
unfolding contains
has-append k t [] = refl
has-append k t (u ∷ us) = ground (arith, has-append k t us)

append-NoRepeat :
    (t : Text) (ts : List Text) → has t ts ≡ false → NoRepeat ts → NoRepeat (ts ++ t ∷ [])
unfolding contains
append-NoRepeat t [] h n = (refl, tt)
append-NoRepeat t (u ∷ us) h n = ground (arith, has-append u t us, append-NoRepeat t us)

add_suffix-NoRepeat : (v : Text) (out : List Text) → NoRepeat out → NoRepeat (add_suffix v out)
unfolding add_suffix
add_suffix-NoRepeat v out n =
    if_cases NoRepeat (is_empty v) (λ _. n)
      (λ _.
        if_cases NoRepeat (not (is_valid_suffix v)) (λ _. n)
          (λ _. if_cases NoRepeat (has v out) (λ _. n) (λ e. append-NoRepeat v out e n)))

collect-NoRepeat :
    (out suffixes : List Text) → NoRepeat out → NoRepeat (collect_suffixes out suffixes)
unfolding collect_suffixes
collect-NoRepeat out [] n = n
collect-NoRepeat out (suf ∷ rest) n =
    collect-NoRepeat (add_suffix (clean_suffix suf) out) rest
      (add_suffix-NoRepeat (clean_suffix suf) out n)

-- A suffix that is kept is valid; an empty one is not.
empty_not_valid : (v : Text) → is_empty v ≡ true → is_valid_suffix v ≡ false
unfolding is_valid_suffix
empty_not_valid v e = rw e refl

same_validity : (v k : Text) → v ≡ k → is_valid_suffix v ≡ is_valid_suffix k
same_validity v k e = ap is_valid_suffix e

has-add_suffix :
    (k v : Text) (out : List Text)
    → has k (add_suffix v out) ≡ has k out || (is_valid_suffix k && has k (v ∷ []))
unfolding add_suffix contains
has-add_suffix k v out =
    ground (arith, has-append k v out, empty_not_valid v, same_validity v k, ap (λ t. has t out))

has-collect_suffixes :
    (k : Text) (out suffixes : List Text)
    → has k (collect_suffixes out suffixes)
      ≡ has k out || (is_valid_suffix k && has k (map clean_suffix suffixes))
unfolding collect_suffixes contains
has-collect_suffixes k out [] = ground arith
has-collect_suffixes k out (suf ∷ rest) = ground (
  arith,
  has-collect_suffixes k (add_suffix (clean_suffix suf) out) rest,
  has-add_suffix k (clean_suffix suf) out,
)

pub normalize_suffixes_exact :
    (k : Text) (suffixes : List Text)
    → Ascending (normalize_suffixes suffixes)
      × (has k (normalize_suffixes suffixes)
          ≡ is_valid_suffix k && has k (map clean_suffix suffixes))
unfolding normalize_suffixes contains
normalize_suffixes_exact k suffixes =
    let out = collect_suffixes [] suffixes in
    (
      sort_texts-Ascending out (collect-NoRepeat [] suffixes tt),
      has-sort_texts k out ∙ has-collect_suffixes k [] suffixes,
    )
