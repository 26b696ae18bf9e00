-- ===== src/Storage/Cached/Keys.antt =====
-- internal/storage/cached.go: when two cache keys are the same.
use errantdns_io.Base.{
  ◌≡◌, refl, sym, ap, List, [], ◌∷◌, ◌++◌, ◌∙◌, Bool, true, false, ◌||◌, ◌&&◌, arith, if◌then◌else◌,
  Bool-cases, inl, inr, ite, if_pos, if_neg,
}
use errantdns_io.Base.Text.{Bytes, eqb, eqb_iff, bytes_dec, to_upper, upper_byte}
use errantdns_io.Models.Record.{
  RecordType, type_name, normalize_domain_name, new_lookup_query, cache_key,
}
use errantdns_io.Models.Record.Laws.{Lacks, cache_key-injective}

-- the cache key under which the records of a name and a type stand
abbrev pub key_of : Bytes → RecordType → Bytes
key_of name t = cache_key (new_lookup_query name (type_name t))

-- whether the two constants are the same
unfoldable pub same_type : RecordType → RecordType → Bool
unfolding type_name
same_type t u = eqb (type_name t) (type_name u)

upper_name : (t : RecordType) → to_upper (type_name t) ≡ type_name t
unfolding type_name to_upper upper_byte
upper_name RecordType.a = refl
upper_name RecordType.aaaa = refl
upper_name RecordType.cname = refl
upper_name RecordType.txt = refl
upper_name RecordType.mx = refl
upper_name RecordType.ns = refl
upper_name RecordType.soa = refl
upper_name RecordType.ptr = refl
upper_name RecordType.srv = refl
upper_name RecordType.caa = refl
upper_name RecordType.unsupported = refl

Lacks-type_name : (t : RecordType) → Lacks b':' (type_name t)
unfolding type_name
Lacks-type_name RecordType.a = ground arith
Lacks-type_name RecordType.aaaa = ground arith
Lacks-type_name RecordType.cname = ground arith
Lacks-type_name RecordType.txt = ground arith
Lacks-type_name RecordType.mx = ground arith
Lacks-type_name RecordType.ns = ground arith
Lacks-type_name RecordType.soa = ground arith
Lacks-type_name RecordType.ptr = ground arith
Lacks-type_name RecordType.srv = ground arith
Lacks-type_name RecordType.caa = ground arith
Lacks-type_name RecordType.unsupported = ground arith

-- the two keys are the same only for the same name and type
key-same :
    (name other : Bytes) (t u : RecordType)
    → key_of name t ≡ key_of other u
    → (normalize_domain_name name ≡ normalize_domain_name other) × (type_name t ≡ type_name u)
unfolding new_lookup_query
key-same name other t u e =
    let (names, types) =
      cache_key-injective (new_lookup_query name (type_name t))
        (new_lookup_query other (type_name u)) (rw (upper_name t) (Lacks-type_name t))
        (rw (upper_name u) (Lacks-type_name u)) e in
    (names, sym (upper_name t) ∙ types ∙ upper_name u)

-- whether the two names have the same normal form
pub same_name : Bytes → Bytes → Bool
same_name n m = eqb (normalize_domain_name n) (normalize_domain_name m)

same→key :
    (name other : Bytes) (t u : RecordType)
    → same_name name other && same_type t u ≡ true
    → key_of name t ≡ key_of other u
unfolding same_name same_type new_lookup_query
same→key name other t u h =
    let (names, types) : (normalize_domain_name name ≡ normalize_domain_name other)
        × (type_name t ≡ type_name u) =
      ground (
        arith,
        eqb_iff (normalize_domain_name name) (normalize_domain_name other),
        eqb_iff (type_name t) (type_name u),
      ) in
    rw (names, types) refl

key→same :
    (name other : Bytes) (t u : RecordType)
    → key_of name t ≡ key_of other u
    → same_name name other && same_type t u ≡ true
unfolding same_name same_type
key→same name other t u e =
    let (names, types) = key-same name other t u e in
    rw ((eqb_iff _ _).1 names, (eqb_iff _ _).1 types) refl

pub ite_same :
    {A : Type 0} (name other : Bytes) (t u : RecordType) (x y : A)
    → ite (bytes_dec (key_of name t) (key_of other u)) x y
      ≡ (if same_name name other && same_type t u then x else y)
ite_same name other t u x y = elim (Bool-cases (same_name name other && same_type t u)) [
  | inl same ↦ if_pos (bytes_dec _ _) (same→key name other t u same) x y ∙ rw same refl
  | inr differ ↦
      if_neg (bytes_dec _ _) (λ e. absurd (ground (arith, key→same name other t u e, differ))) x y
      ∙ rw differ refl
]

append_cancel : (p a b : Bytes) → p ++ a ≡ p ++ b → a ≡ b
append_cancel [] a b e = e
append_cancel (c ∷ p) a b e = append_cancel p a b (cc)

-- The same for keys behind one prefix.
pub ite_same_prefix :
    {A : Type 0} (prefix name other : Bytes) (t u : RecordType) (x y : A)
    → ite (bytes_dec (prefix ++ key_of name t) (prefix ++ key_of other u)) x y
      ≡ (if same_name name other && same_type t u then x else y)
ite_same_prefix prefix name other t u x y =
    by_keys (bytes_dec (key_of name t) (key_of other u)) ∙ ite_same name other t u x y
  where
    by_keys :
        (d : Dec (key_of name t ≡ key_of other u))
        → ite (bytes_dec (prefix ++ key_of name t) (prefix ++ key_of other u)) x y
          ≡ ite (bytes_dec (key_of name t) (key_of other u)) x y
    by_keys (yes e) =
        if_pos (bytes_dec _ _) (ap (λ k. prefix ++ k) e) x y ∙ sym (if_pos (bytes_dec _ _) e x y)
    by_keys (no n) =
        if_neg (bytes_dec _ _) (λ e. n (append_cancel prefix _ _ e)) x y
        ∙ sym (if_neg (bytes_dec _ _) n x y)

-- whether the type is one of the list
unfoldable pub has_type : List RecordType → RecordType → Bool
has_type [] u = false
has_type (t ∷ ts) u = same_type t u || has_type ts u
