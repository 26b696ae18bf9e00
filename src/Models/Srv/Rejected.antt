-- ===== src/Models/Srv/Rejected.antt =====
-- internal/models/srv.go: the name of an SRV record never passes validateDomainName.
use errantdns_io.Base.{
  ℕ, Bool, true, false, none, List, [], ◌∷◌, ◌==◌, ◌≡◌, ◌≢◌, arith, length, if◌then◌else◌, ap, ltb,
  subst,
}
use errantdns_io.Base.Text.{Bytes, codes, has_prefix, to_lower, lower_byte, trim_suffix}
use errantdns_io.Base.Text.Split.{split, push, split-cons}
use errantdns_io.Models.DomainName.{
  SuffixList, validate_label, validate_labels, validate_parts, validate_domain_name,
  validate_domain_name_other,
}
use errantdns_io.Models.Record.{DnsRecord, normalize_domain_name}
use errantdns_io.Models.Srv.{
  validate_srv_labels, validate_srv_name, validate_srv_target, validate_srv_record,
}

-- a label that begins with an underscore is refused
underscore_label : (p : Bytes) → validate_label (b'_' ∷ p) ≢ none
unfolding validate_label
underscore_label p = ground arith

underscore_labels :
    (several : Bool) (p : Bytes) (ps : List Bytes)
    → validate_labels several ((b'_' ∷ p) ∷ ps) ≢ none
unfolding validate_labels
underscore_labels several p [] h = underscore_label p (ground arith)
underscore_labels several p (q ∷ ps) h = underscore_label p (ground arith)

-- so is a name that begins with one
underscore_name :
    (several : Bool) (s : Bytes) → validate_labels several (split b'.' (b'_' ∷ s)) ≢ none
unfolding split push
underscore_name several s h =
    let (p, ps, e) = split-cons b'.' s in underscore_labels several p ps (ground (arith, e))

lower_underscore : (c : ℕ) → lower_byte c ≡ b'_' → c ≡ b'_'
unfolding lower_byte
lower_underscore c h = ground arith

service_prefix :
    (service : Bytes) (labels : List Bytes)
    → validate_srv_labels (service ∷ labels) ≡ none
    → has_prefix service (codes "_") ≡ true
unfolding validate_srv_labels
service_prefix service [] h = cc
service_prefix service (protocol ∷ []) h = cc
service_prefix service (protocol ∷ domain ∷ labels) h = ground arith

prefix_head :
    (b : Bool) (c : ℕ) (p : Bytes) (ps rest : List Bytes)
    → rest ≡ p ∷ ps
    → validate_srv_labels (if b then [] ∷ rest else push c rest) ≡ none
    → c ≡ b'_'
unfolding push has_prefix
prefix_head true c p ps rest e h = absurd (cc (service_prefix [] rest h))
prefix_head false c p ps rest e h =
    let first = service_prefix (c ∷ p) ps (rw e at h) in ground arith

-- The service label has its underscore at the front of the name.
service_underscore :
    (d : Bytes)
    → validate_srv_labels (split b'.' (to_lower d)) ≡ none
    → (s : Bytes) × (d ≡ b'_' ∷ s)
unfolding split to_lower
service_underscore [] h = unfold validate_srv_labels in cc
service_underscore (c ∷ s) h =
    let (p, ps, e) = split-cons b'.' (to_lower s) in
    let first : lower_byte c ≡ b'_' =
      prefix_head (lower_byte c == b'.') (lower_byte c) p ps (split b'.' (to_lower s)) e h in
    (s, ap (λ (z : ℕ). z ∷ s) (lower_underscore c first))

-- The two checks of a name exclude one another.
labels_exclude :
    (several : Bool) (d : Bytes)
    → validate_srv_labels (split b'.' (to_lower d)) ≡ none
    → validate_labels several (split b'.' d) ≢ none
labels_exclude several d h k =
    let (s, e) = service_underscore d h in
    underscore_name several s (subst (λ z. validate_labels several (split b'.' z) ≡ none) e k)

module _ (psl : SuffixList) where
  labels_pass :
      (name : Bytes) (r : DnsRecord)
      → (validate_domain_name_other psl name r).1 ≡ none
      → validate_labels
          (ltb 1 (length (split b'.' (trim_suffix name (codes ".")))))
          (split b'.' (trim_suffix name (codes ".")))
        ≡ none
  unfolding validate_domain_name_other validate_parts
  labels_pass name r h = ground arith

  srv_name_refused : (r : DnsRecord) → (validate_srv_name psl r).1 ≢ none
  unfolding validate_srv_name normalize_domain_name validate_domain_name
  srv_name_refused r h =
      let d = trim_suffix r.name (codes ".") in
      labels_exclude (ltb 1 (length (split b'.' d))) d (ground arith)
        (labels_pass r.name r (ground arith))

  -- validateSRVRecord refuses every record, whatever the public suffix list says: its service label
  -- has to begin with an underscore, and validateDomainName, which is called on the whole name,
  -- refuses a label with one.
  pub validate_srv_record-ne-none : (r : DnsRecord) → (validate_srv_record psl r).1 ≢ none
  unfolding validate_srv_record
  validate_srv_record-ne-none r h = srv_name_refused (validate_srv_target psl r).0 (ground arith)
