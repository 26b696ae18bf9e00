-- ===== src/Models/Record/Laws.antt =====
-- Laws of the names, the types and the cache keys of internal/models/dns.go.
use errantdns_io.Base.{
  if◌then◌else◌, Bool-cases, inl, inr, List, ℕ, ◌≡◌, ◌≢◌, refl, false, [], ◌∷◌, ◌++◌, arith, sym,
  subst, ◌∙◌,
}
use errantdns_io.Base.Text.{
  Bytes, codes, eqb, eqb_iff, to_lower, lower_byte, trim_suffix, has_suffix,
}
use errantdns_io.Models.Record.{
  RecordType, type_name, type_of, find_type, all_types, LookupQuery, cache_key,
  normalize_domain_name,
}

-- The name of each constant is read back as the constant.
pub type_of-type_name : (t : RecordType) → t ≢ RecordType.unsupported → type_of (type_name t) ≡ t
unfolding type_of type_name
type_of-type_name RecordType.a h = refl
type_of-type_name RecordType.unsupported h = absurd (h refl)
type_of-type_name t h = refl

-- A text that stands for a constant of the list is its name.
find_type-type_name :
    (s : Bytes) (ts : List RecordType)
    → find_type s ts ≢ RecordType.unsupported
    → s ≡ type_name (find_type s ts)
unfolding find_type
find_type-type_name s [] h = absurd (h refl)
find_type-type_name s (t ∷ ts) h = elim (Bool-cases (eqb s (type_name t))) [
  | inl same ↦ rw same ((eqb_iff s (type_name t)).0 same)
  | inr other ↦ rw other (
      find_type-type_name s ts
        (subst (λ b. (if b then t else find_type s ts) ≢ RecordType.unsupported) other h))
]

-- A type that is supported is the name of its constant.
pub type_name-type_of : (s : Bytes) → type_of s ≢ RecordType.unsupported → s ≡ type_name (type_of s)
unfolding type_of
type_name-type_of s h = find_type-type_name s all_types h

-- No byte of the text is the given one.
abbrev pub Lacks : ℕ → Bytes → Type 0
Lacks b [] = Unit
Lacks b (c ∷ s) = (c ≢ b) × Lacks b s

Lacks-middle : (b : ℕ) (p s : Bytes) → ¬ Lacks b (p ++ b ∷ s)
Lacks-middle b [] s (h, _) = h refl
Lacks-middle b (c ∷ p) s (_, h) = Lacks-middle b p s h

tail_eq : {c d : ℕ} {s t : Bytes} → ◌≡◌ {A = Bytes} (c ∷ s) (d ∷ t) → s ≡ t
tail_eq e = cc

cut_unique :
    (b : ℕ) (p q s t : Bytes) → Lacks b s → Lacks b t → p ++ b ∷ s ≡ q ++ b ∷ t → (p ≡ q) × (s ≡ t)
cut_unique b [] [] s t hs ht e = (refl, cc)
cut_unique b [] (c ∷ q) s t hs ht e = absurd (Lacks-middle b q t (subst (Lacks b) (tail_eq e) hs))
cut_unique b (c ∷ p) [] s t hs ht e =
    absurd (Lacks-middle b p s (subst (Lacks b) (sym (tail_eq e)) ht))
cut_unique b (c ∷ p) (d ∷ q) s t hs ht e =
    let (same, rest) = cut_unique b p q s t hs ht (cc) in (cc, rest)

-- Two queries whose types hold no colon have the same cache key only if they are the same query.
pub cache_key-injective :
    (q1 q2 : LookupQuery)
    → Lacks b':' q1.query_type
    → Lacks b':' q2.query_type
    → cache_key q1 ≡ cache_key q2
    → (q1.name ≡ q2.name) × (q1.query_type ≡ q2.query_type)
unfolding cache_key
cache_key-injective q1 q2 h1 h2 e =
    cut_unique b':' q1.name q2.name q1.query_type q2.query_type h1 h2 e

lower_byte_idem : (c : ℕ) → lower_byte (lower_byte c) ≡ lower_byte c
unfolding lower_byte
lower_byte_idem c = ground arith

to_lower_idem : (s : Bytes) → to_lower (to_lower s) ≡ to_lower s
unfolding to_lower
to_lower_idem [] = refl
to_lower_idem (c ∷ s) = rw (lower_byte_idem, to_lower_idem s)

has_suffix-to_lower : (s : Bytes) → has_suffix (to_lower s) (codes ".") ≡ has_suffix s (codes ".")
unfolding has_suffix to_lower lower_byte eqb
has_suffix-to_lower [] = refl
has_suffix-to_lower (c ∷ []) = ground arith
has_suffix-to_lower (c ∷ d ∷ s) = ground (arith, has_suffix-to_lower (d ∷ s))

trim_no_dot : (s : Bytes) → has_suffix s (codes ".") ≡ false → trim_suffix s (codes ".") ≡ s
unfolding has_suffix trim_suffix eqb
trim_no_dot [] h = refl
trim_no_dot (c ∷ s) h = ground (arith, trim_no_dot s)

trim_one_dot :
    (s : Bytes)
    → has_suffix s (codes "..") ≡ false
    → has_suffix (trim_suffix s (codes ".")) (codes ".") ≡ false
unfolding has_suffix trim_suffix eqb
trim_one_dot [] h = refl
trim_one_dot (c ∷ []) h = ground arith
trim_one_dot (c ∷ d ∷ []) h = ground arith
trim_one_dot (c ∷ d ∷ e ∷ s) h = ground (arith, trim_one_dot (d ∷ e ∷ s))

-- The normal form of a name is its own normal form, unless the name ends in two dots.
normalize_domain_name_idem :
    (s : Bytes)
    → has_suffix s (codes "..") ≡ false
    → normalize_domain_name (normalize_domain_name s) ≡ normalize_domain_name s
unfolding normalize_domain_name
normalize_domain_name_idem s h =
    let t = trim_suffix s (codes ".") in
    rw (trim_no_dot (to_lower t) (has_suffix-to_lower t ∙ trim_one_dot s h)) (to_lower_idem t)
