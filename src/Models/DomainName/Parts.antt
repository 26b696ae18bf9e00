-- ===== src/Models/DomainName/Parts.antt =====
-- What validateTLD, extractSubdomainLabels and detectAndSetWildcards of internal/models/domain-name.go
-- find in the parts of a name.
use Prim.Native.Nat.{bit_or}
use errantdns_io.Base.{
  ℕ, suc, ◌≤◌, Bool, true, false, ◌||◌, none, some, List, [], ◌∷◌, ◌++◌, ◌==◌, ◌≡◌, ◌≢◌, ◌⊎◌, inl,
  inr, refl, ap, sym, ltb, ◌∙◌, arith, length, length-append, Bool-cases, subst,
}
use errantdns_io.Base.Text.{
  Bytes, codes, eqb, eqb_iff, eqb_refl, has_suffix, trim_suffix, contains, is_letter, is_digit,
}
use errantdns_io.Base.Text.Split.{split, push, split-cons}
use errantdns_io.Models.DomainName.{
  all_bytes, validate_tld, validate_labels, extract_subdomain_labels, scan_wildcards, bit64,
}

-- A top-level label: of two bytes at least, not all digits, and with a letter first.
pub record IsTopLabel (label : Bytes) : Type 0 where
  pub not_short : 2 ≤ length label
  pub not_numeric : all_bytes is_digit label ≡ false
  pub letter_first :
      (first : ℕ) × (rest : Bytes) × (label ≡ first ∷ rest) × (is_letter first ≡ true)

validate_tld-IsTopLabel : (label : Bytes) → validate_tld label ≡ none → IsTopLabel label
unfolding validate_tld
validate_tld-IsTopLabel [] h = cc
validate_tld-IsTopLabel (first ∷ rest) h = record {
  not_short = ground arith;
  not_numeric = ground arith;
  letter_first = (first, rest, refl, ground arith);
}

-- the last of the labels, of which the first is given, is a top-level label
abbrev pub LastIsTop : Bytes → List Bytes → Type 0
LastIsTop label [] = IsTopLabel label
LastIsTop label (next ∷ labels) = LastIsTop next labels

-- The last of several labels is a top-level label.
abbrev pub HasTop : List Bytes → Type 0
HasTop [] = Unit
HasTop (label ∷ []) = Unit
HasTop (label ∷ next ∷ labels) = LastIsTop next labels

validate_labels-LastIsTop :
    (label : Bytes) (labels : List Bytes)
    → validate_labels true (label ∷ labels) ≡ none
    → LastIsTop label labels
unfolding validate_labels
validate_labels-LastIsTop label [] h = validate_tld-IsTopLabel label (ground arith)
validate_labels-LastIsTop label (next ∷ labels) h =
    validate_labels-LastIsTop next labels (ground arith)

-- The loop over several labels ends without an error only if the last one is a top-level label.
pub validate_labels-HasTop :
    (labels : List Bytes) → validate_labels (ltb 1 (length labels)) labels ≡ none → HasTop labels
validate_labels-HasTop [] h = tt
validate_labels-HasTop (label ∷ []) h = tt
validate_labels-HasTop (label ∷ next ∷ labels) h =
    validate_labels-LastIsTop label (next ∷ labels) (several (length labels) h)
  where
    several :
        (n : ℕ)
        → validate_labels (ltb 1 (suc (suc n))) (label ∷ next ∷ labels) ≡ none
        → validate_labels true (label ∷ next ∷ labels) ≡ none
    several n k =
        let two : ltb 1 (suc (suc n)) ≡ true = ground arith in
        subst (λ b. validate_labels b (label ∷ next ∷ labels) ≡ none) two k

-- whether one of the labels is "*"
abbrev pub any_star : List Bytes → Bool
any_star [] = false
any_star (label ∷ labels) = eqb label (codes "*") || any_star labels

-- No label has a "*" but the label "*".
abbrev pub NoPartial : List Bytes → Type 0
NoPartial [] = Unit
NoPartial (label ∷ labels) =
    ((label ≡ codes "*") ⊎ (contains label (codes "*") ≡ false)) × NoPartial labels

-- A scan that ends without an error has found whether there is a "*", and no partial one.
pub scan_wildcards-NoPartial :
    (i : ℕ) (has : Bool) (mask : ℕ) (labels : List Bytes) (found : Bool) (mask' : ℕ)
    → scan_wildcards i has mask labels ≡ some (found, mask')
    → (found ≡ has || any_star labels) × NoPartial labels
unfolding scan_wildcards
scan_wildcards-NoPartial i has mask [] found mask' h = (ground arith, tt)
scan_wildcards-NoPartial i has mask (label ∷ labels) found mask' h =
    elim (Bool-cases (eqb label (codes "*"))) [
      | inl star ↦
          let (flag, others) =
            scan_wildcards-NoPartial (suc i) true (bit_or mask (bit64 i)) labels found mask'
              (ground (arith, star, h)) in
          (ground (arith, star, flag), (inl ((eqb_iff label (codes "*")).0 star), others))
      | inr other ↦
          let (flag, others) =
            scan_wildcards-NoPartial (suc i) has mask labels found mask'
              (ground (arith, other, h)) in
          (ground (arith, other, flag), (inr (ground (arith, other, h)), others))
    ]

has_suffix-append : (p s : Bytes) → has_suffix (p ++ s) s ≡ true
unfolding has_suffix
has_suffix-append [] [] = unfold eqb in refl
has_suffix-append [] (c ∷ s) = ground (arith, eqb_refl (c ∷ s))
has_suffix-append (c ∷ p) s = ground (arith, has_suffix-append p s)

longer_differs : (c : ℕ) (p s : Bytes) → eqb (c ∷ p ++ s) s ≡ false
longer_differs c p s = elim (Bool-cases (eqb (c ∷ p ++ s) s)) [
  | inr other ↦ other
  | inl same ↦ absurd (
      let long = ap length ((eqb_iff (c ∷ p ++ s) s).0 same) in
      omega (arith, long, length-append p s))
]

trim_suffix-append : (p : Bytes) (d : ℕ) (s : Bytes) → trim_suffix (p ++ d ∷ s) (d ∷ s) ≡ p
unfolding trim_suffix
trim_suffix-append [] d s = rw (eqb_refl (d ∷ s)) refl
trim_suffix-append (c ∷ p) d s =
    rw (longer_differs c p (d ∷ s)) (ap (λ z. c ∷ z) (trim_suffix-append p d s))

push-append :
    (c : ℕ) (x : Bytes) (xs ys : List Bytes) → push c ((x ∷ xs) ++ ys) ≡ push c (x ∷ xs) ++ ys
unfolding push
push-append c x xs ys = refl

-- A text is split at a separator into what the sides of it are split into.
split-append : (sep : ℕ) (p q : Bytes) → split sep (p ++ sep ∷ q) ≡ split sep p ++ split sep q
unfolding split
split-append sep [] q = let same : (sep == sep) ≡ true = ground arith in rw same refl
split-append sep (c ∷ p) q = elim (Bool-cases (c == sep)) [
  | inl same ↦ rw same (ap (λ z. [] ∷ z) (split-append sep p q))
  | inr other ↦
      let (x, xs, e) = split-cons sep p in
      rw other (
        ap (push c) (split-append sep p q ∙ ap (λ z. z ++ split sep q) e)
        ∙ push-append c x xs (split sep q)
        ∙ ap (λ z. push c z ++ split sep q) (sym e))
]

apex_differs : (c : ℕ) (p apex : Bytes) → eqb (c ∷ p ++ b'.' ∷ apex) apex ≡ false
apex_differs c p apex = elim (Bool-cases (eqb (c ∷ p ++ b'.' ∷ apex) apex)) [
  | inr other ↦ other
  | inl same ↦ absurd (
      let long = ap length ((eqb_iff (c ∷ p ++ b'.' ∷ apex) apex).0 same) in
      omega (arith, long, length-append p (b'.' ∷ apex)))
]

labels_in_front :
    (c : ℕ) (p apex : Bytes)
    → eqb (c ∷ p ++ b'.' ∷ apex) apex ≡ false
    → split b'.' (c ∷ p ++ b'.' ∷ apex)
      ≡ extract_subdomain_labels (c ∷ p ++ b'.' ∷ apex) apex ++ split b'.' apex
unfolding extract_subdomain_labels eqb
labels_in_front c p apex other =
    rw (other, has_suffix-append (c ∷ p) (b'.' ∷ apex), trim_suffix-append (c ∷ p) b'.' apex)
      (split-append b'.' (c ∷ p) apex)

labels_of_apex :
    (full : Bytes) → split b'.' full ≡ extract_subdomain_labels full full ++ split b'.' full
unfolding extract_subdomain_labels
labels_of_apex full = rw (eqb_refl full) refl

nothing_in_front : (apex : Bytes) → split b'.' (b'.' ∷ apex) ≡ [] ∷ split b'.' apex
unfolding split
nothing_in_front apex = refl

-- The labels in front of the apex, and those of the apex, are the labels of the name, if the apex is
-- the name or follows a dot in it, and the first label is not empty.
pub extract_subdomain_labels-append :
    (full apex : Bytes)
    → (full ≡ apex) ⊎ ((p : Bytes) × (full ≡ p ++ b'.' ∷ apex))
    → ((labels : List Bytes) → split b'.' full ≢ [] ∷ labels)
    → split b'.' full ≡ extract_subdomain_labels full apex ++ split b'.' apex
extract_subdomain_labels-append full apex (inl same) no_empty =
    subst (λ z. split b'.' full ≡ extract_subdomain_labels full z ++ split b'.' z) same
      (labels_of_apex full)
extract_subdomain_labels-append full apex (inr ([], e)) no_empty =
    absurd (no_empty (split b'.' apex) (ap (split b'.') e ∙ nothing_in_front apex))
extract_subdomain_labels-append full apex (inr (c ∷ p, e)) no_empty =
    subst (λ z. split b'.' z ≡ extract_subdomain_labels z apex ++ split b'.' apex) (sym e)
      (labels_in_front c p apex (apex_differs c p apex))
