-- ===== src/Resolver/Hierarchy.antt =====
-- generateDomainHierarchy of internal/resolver/resolver.go: from the name up to its last label.
use errantdns_io.Base.{
  ℕ, suc, ◌≡◌, ◌≢◌, refl, List, [], ◌∷◌, ◌++◌, arith, ◌==◌, length, ap, Bool-cases, inl, inr, subst,
  sym, ◌∙◌,
}
use errantdns_io.Base.Text.{Bytes, codes, to_lower, trim_suffix}
use errantdns_io.Base.Text.Split.{split, join, push, split-cons, join-split}
use errantdns_io.Models.Record.{normalize_domain_name}
use errantdns_io.Models.Record.Laws.{Lacks}
use errantdns_io.Resolver.{hierarchy_of, generate_domain_hierarchy}

-- Each name is its first label, a dot and the next name of the list; the last has no dot.
abbrev pub ParentChain : Bytes → List Bytes → Type 0
ParentChain name [] = Lacks b'.' name
ParentChain name (parent ∷ rest) =
    ((label : Bytes) × Lacks b'.' label × (name ≡ label ++ b'.' ∷ parent)) × ParentChain parent rest

abbrev AllLack : List Bytes → Type 0
AllLack [] = Unit
AllLack (p ∷ ps) = Lacks b'.' p × AllLack ps

AllLack-push : (c : ℕ) (ps : List Bytes) → c ≢ b'.' → AllLack ps → AllLack (push c ps)
unfolding push
AllLack-push c [] h k = ((h, tt), tt)
AllLack-push c (p ∷ ps) h (l, k) = ((h, l), k)

split-AllLack : (s : Bytes) → AllLack (split b'.' s)
unfolding split
split-AllLack [] = (tt, tt)
split-AllLack (c ∷ s) = elim (Bool-cases (c == b'.')) [
  | inl e ↦ rw e (tt, split-AllLack s)
  | inr e ↦ rw e (AllLack-push c (split b'.' s) (ground arith) (split-AllLack s))
]

chain :
    (p : Bytes) (ps : List Bytes)
    → AllLack (p ∷ ps)
    → (rest : List Bytes) × (hierarchy_of (p ∷ ps) ≡ join b'.' (p ∷ ps) ∷ rest)
      × ParentChain (join b'.' (p ∷ ps)) rest
      × (length rest ≡ length ps)
unfolding hierarchy_of join
chain p [] (l, k) = ([], refl, l, refl)
chain p (q ∷ ps) (l, k) =
    let (rest, e, c, n) = chain q ps k in
    (join b'.' (q ∷ ps) ∷ rest, rw e, ((p, l, refl), c), ap suc n)

of_split :
    (d : Bytes)
    → (rest : List Bytes) × (hierarchy_of (split b'.' d) ≡ d ∷ rest)
      × ParentChain d rest
      × (length (hierarchy_of (split b'.' d)) ≡ length (split b'.' d))
of_split d =
    let (p, ps, e) = split-cons b'.' d in
    let (rest, h, c, n) = chain p ps (subst AllLack e (split-AllLack d)) in
    let whole : join b'.' (p ∷ ps) ≡ d = subst (λ l. join b'.' l ≡ d) e (join-split b'.' d) in
    (
      rest,
      subst (λ l. hierarchy_of l ≡ d ∷ rest) (sym e) (h ∙ ap (λ (z : Bytes). z ∷ rest) whole),
      subst (λ z. ParentChain z rest) whole c,
      subst (λ l. length (hierarchy_of l) ≡ length l) (sym e) (ap length h ∙ ap suc n),
    )

-- The hierarchy of a name begins with the name itself in its normal form, has one name for each of
-- its labels, and goes from each name to its parent, down to the last label.
pub generate_domain_hierarchy_lem :
    (domain : Bytes)
    → (rest : List Bytes) × (generate_domain_hierarchy domain ≡ normalize_domain_name domain ∷ rest)
      × ParentChain (normalize_domain_name domain) rest
      × (length (generate_domain_hierarchy domain)
          ≡ length (split b'.' (normalize_domain_name domain)))
unfolding generate_domain_hierarchy normalize_domain_name
generate_domain_hierarchy_lem domain = of_split (to_lower (trim_suffix domain (codes ".")))
