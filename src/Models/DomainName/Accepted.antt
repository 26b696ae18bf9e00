-- ===== src/Models/DomainName/Accepted.antt =====
-- What validateLabel, validateTLD and validateDomainName of internal/models/domain-name.go accept.
use errantdns_io.Base.{
  ℕ, ◌≤◌, ◌<◌, Bool, true, false, none, some, List, [], ◌∷◌, ◌++◌, ◌∙◌, ap, sym, subst, ltb, ◌≡◌,
  ◌≢◌, ◌⊎◌, ◌↔◌, inl, inr, refl, arith, length, Bool-cases,
}
use errantdns_io.Base.Text.{Bytes, codes, eqb, eqb_iff, trim_suffix}
use errantdns_io.Base.Text.Split.{split}
use errantdns_io.Models.DomainName.{
  SuffixList, all_bytes, label_byte, ends_with_byte, starts_with_byte, validate_label,
  validate_labels, validate_parts, extract_subdomain_labels, extract_and_set_etld_info,
  scan_wildcards, detect_and_set_wildcards, validate_domain_name_other,
}
use errantdns_io.Models.DomainName.Parts.{
  HasTop, validate_labels-HasTop, any_star, NoPartial, scan_wildcards-NoPartial,
  extract_subdomain_labels-append,
}
use errantdns_io.Models.Record.{DnsRecord}

-- A byte string all of whose bytes pass a test.
abbrev pub AllBytes : (ℕ → Bool) → Bytes → Type 0
AllBytes test [] = Unit
AllBytes test (c ∷ s) = (test c ≡ true) × AllBytes test s

all_bytes_iff : (test : ℕ → Bool) (s : Bytes) → (all_bytes test s ≡ true) ↔ AllBytes test s
unfolding all_bytes
all_bytes_iff test [] = (λ _. tt, λ _. refl)
all_bytes_iff test (c ∷ s) =
    let (to, from) = all_bytes_iff test s in
    (λ h. (ground arith, to (ground arith)), λ h. let e = from h.1 in ground arith)

-- A label of letters, digits and hyphens, of 1 to 63 bytes, with no hyphen at an end.
pub record IsHostLabel (label : Bytes) : Type 0 where
  pub not_empty : 0 < length label
  pub not_long : length label ≤ 63
  pub no_hyphen_first : starts_with_byte b'-' label ≡ false
  pub no_hyphen_last : ends_with_byte b'-' label ≡ false
  pub characters : AllBytes label_byte label

accept_star : validate_label (codes "*") ≡ none
unfolding validate_label
accept_star = refl

host_of :
    (label : Bytes)
    → eqb label (codes "*") ≡ false
    → validate_label label ≡ none
    → IsHostLabel label
unfolding validate_label
host_of label e h = record {
  not_empty = ground arith;
  not_long = ground arith;
  no_hyphen_first = ground arith;
  no_hyphen_last = ground arith;
  characters = (all_bytes_iff label_byte label).0 (ground arith);
}

accept_host : (label : Bytes) → IsHostLabel label → validate_label label ≡ none
unfolding validate_label
accept_host label v =
    let e = (all_bytes_iff label_byte label).1 v.characters in
    let a = v.not_empty in
    let b = v.not_long in let c = v.no_hyphen_first in let d = v.no_hyphen_last in ground arith

-- validateLabel accepts exactly the wildcard label "*" and the labels of 1 to 63 letters, digits and
-- hyphens with no hyphen at either end.
pub validate_label_iff :
    (label : Bytes) → (validate_label label ≡ none) ↔ ((label ≡ codes "*") ⊎ IsHostLabel label)
validate_label_iff label = (to, from)
  where
    to : validate_label label ≡ none → (label ≡ codes "*") ⊎ IsHostLabel label
    to h = elim (Bool-cases (eqb label (codes "*"))) [
      | inl star ↦ inl ((eqb_iff label (codes "*")).0 star)
      | inr other ↦ inr (host_of label other h)
    ]

    from : (label ≡ codes "*") ⊎ IsHostLabel label → validate_label label ≡ none
    from (inl star) = rw star accept_star
    from (inr v) = accept_host label v

-- The labels of a name that validateDomainName accepts: each passes validateLabel, and the last of
-- several passes validateTLD.
abbrev pub AllLabels : List Bytes → Type 0
AllLabels [] = Unit
AllLabels (l ∷ ls) = ((l ≡ codes "*") ⊎ IsHostLabel l) × AllLabels ls

validate_labels-AllLabels :
    (several : Bool) (labels : List Bytes)
    → validate_labels several labels ≡ none
    → AllLabels labels
unfolding validate_labels
validate_labels-AllLabels several [] h = tt
validate_labels-AllLabels several (l ∷ []) h = ((validate_label_iff l).0 (ground arith), tt)
validate_labels-AllLabels several (l ∷ m ∷ ls) h = (
  (validate_label_iff l).0 (ground arith),
  validate_labels-AllLabels several (m ∷ ls) (ground arith),
)

-- What package publicsuffix documents: the registrable domain of a name is the name, or follows a dot
-- in it.
pub record IsSuffixList (psl : SuffixList) : Type 0 where
  pub behind_dot :
      (name apex : Bytes)
      → psl.effective_tld_plus_one name ≡ some apex
      → (name ≡ apex) ⊎ ((p : Bytes) × (name ≡ p ++ b'.' ∷ apex))

first_not_empty : (labels rest : List Bytes) → AllLabels labels → labels ≢ [] ∷ rest
first_not_empty labels rest all e =
    let (first, others) = subst AllLabels e all in
    elim first [ inl star ↦ absurd cc | inr host ↦ absurd (omega (arith, host.not_empty)) ]

module _ (psl : SuffixList) where
  -- What a name and the record after it look like if the name is accepted.
  pub record Accepts (name : Bytes) (r r' : DnsRecord) : Type 0 where
    pub not_empty : 0 < length name
    pub not_long : length name ≤ 253
    pub registrable :
        psl.effective_tld_plus_one (trim_suffix name (codes ".")) ≡ some r'.apex_domain
    pub suffix : r'.etld ≡ psl.public_suffix (trim_suffix name (codes "."))
    pub suffix_known : r'.etld ≢ []
    pub subdomains :
        split b'.' (trim_suffix name (codes ".")) ≡ r'.subdomain_labels ++ split b'.' r'.apex_domain
    pub labels : AllLabels (split b'.' (trim_suffix name (codes ".")))
    pub top : HasTop (split b'.' (trim_suffix name (codes ".")))
    pub wildcard : r'.is_wildcard ≡ any_star r'.subdomain_labels
    pub no_partial : NoPartial r'.subdomain_labels
    pub same_name : r'.name ≡ r.name
    pub same_target : r'.target ≡ r.target
    pub same_type : r'.record_type ≡ r.record_type
    pub same_ttl : r'.ttl ≡ r.ttl

  -- what the parts of the check return for a name that is accepted
  record Parts (name : Bytes) (r r' : DnsRecord) : Type 0 where
    not_empty : 0 < length name
    not_long : length name ≤ 253
    registrable : psl.effective_tld_plus_one (trim_suffix name (codes ".")) ≡ some r'.apex_domain
    suffix : r'.etld ≡ psl.public_suffix (trim_suffix name (codes "."))
    suffix_known : r'.etld ≢ []
    extracted :
        r'.subdomain_labels ≡ extract_subdomain_labels (trim_suffix name (codes ".")) r'.apex_domain
    checked :
        validate_labels
          (ltb 1 (length (split b'.' (trim_suffix name (codes ".")))))
          (split b'.' (trim_suffix name (codes ".")))
        ≡ none
    scanned : scan_wildcards 0 false 0 r'.subdomain_labels ≡ some (r'.is_wildcard, r'.wildcard_mask)
    same_name : r'.name ≡ r.name
    same_target : r'.target ≡ r.target
    same_type : r'.record_type ≡ r.record_type
    same_ttl : r'.ttl ≡ r.ttl

  accepted_fields :
      (name : Bytes) (r : DnsRecord)
      → (validate_domain_name_other psl name r).1 ≡ none
      → Parts name r (validate_domain_name_other psl name r).0
  unfolding validate_domain_name_other validate_parts extract_and_set_etld_info
      detect_and_set_wildcards
  accepted_fields name r h = record {
    not_empty = ground arith;
    not_long = ground arith;
    registrable = ground arith;
    suffix = ground arith;
    suffix_known =
        λ e. ground (arith, eqb_iff (psl.public_suffix (trim_suffix name (codes "."))) []);
    extracted = ground arith;
    checked = ground arith;
    scanned = ground arith;
    same_name = ground arith;
    same_target = ground arith;
    same_type = ground arith;
    same_ttl = ground arith;
  }

  -- A name that validateDomainName accepts (the name of the record, or the value of a CAA record) has 1
  -- to 253 bytes. Behind the removal of one trailing dot, each of its labels is "*" or a host label, and
  -- the last of several has two bytes at least, not all digits, with a letter first. The public
  -- suffix list knows its suffix, which is not empty, and its registrable domain; the record then
  -- holds both, and the labels that stand in front of the registrable domain, none of which has a "*"
  -- in it unless it is "*"; the flag for wildcards says whether one of them is. The record's own name,
  -- type, target and TTL are untouched.
  pub validate_domain_name-Accepts :
      (name : Bytes) (r : DnsRecord)
      → IsSuffixList psl
      → (validate_domain_name_other psl name r).1 ≡ none
      → Accepts name r (validate_domain_name_other psl name r).0
  validate_domain_name-Accepts name r documented h =
      let domain = trim_suffix name (codes ".") in
      let labels = split b'.' domain in
      let r' = (validate_domain_name_other psl name r).0 in
      let found = accepted_fields name r h in
      let all = validate_labels-AllLabels (ltb 1 (length labels)) labels found.checked in
      let (flag, whole) =
        scan_wildcards-NoPartial 0 false 0 r'.subdomain_labels r'.is_wildcard r'.wildcard_mask
          found.scanned in
      record {
        not_empty = found.not_empty;
        not_long = found.not_long;
        registrable = found.registrable;
        suffix = found.suffix;
        suffix_known = found.suffix_known;
        subdomains =
            extract_subdomain_labels-append domain r'.apex_domain
              (documented.behind_dot domain r'.apex_domain found.registrable)
              (λ rest. first_not_empty labels rest all)
            ∙ ap (λ z. z ++ split b'.' r'.apex_domain) (sym found.extracted);
        labels = all;
        top = validate_labels-HasTop labels found.checked;
        wildcard = flag;
        no_partial = whole;
        same_name = found.same_name;
        same_target = found.same_target;
        same_type = found.same_type;
        same_ttl = found.same_ttl;
      }
