-- ===== src/Models/Caa.antt =====
-- internal/models/caa.go. net/url's Parse is a parameter: of its result the source reads the scheme,
-- the opaque part and the host.
use errantdns_io.Base.{
  ℕ, Bool, false, ◌||◌, ◌&&◌, not, Option, none, some, List, [], ◌∷◌, ltb, leb, ◌==◌, if◌then◌else◌,
  length,
}
use errantdns_io.Base.Int.{pos, eqb_ℤ}
use errantdns_io.Base.Text.{
  Bytes, codes, eqb, contains, has_prefix, to_lower, trim_space, is_letter, is_digit,
}
use errantdns_io.Base.Text.Split.{split, join}
use errantdns_io.Models.DomainName.{SuffixList, validate_domain_name_other, all_bytes}
use errantdns_io.Models.Errors.{
  Check, reject, ◌>>◌, caa_flag, caa_tag_empty, caa_tag, caa_value_empty, caa_url, caa_space,
  caa_iodef, caa_mailto, caa_mailto_missing, caa_email, caa_https, caa_scheme, caa_host,
}
use errantdns_io.Models.Record.{DnsRecord}

-- *url.URL
pub record Url : Type 0 where
  pub scheme : Bytes
  pub opaque : Bytes
  pub host : Bytes

-- the functions of other packages that validation calls
pub record Packages : Type 0 where
  pub suffix_list : SuffixList
  pub parse_url : Bytes → Option Url

abbrev email_local_byte : ℕ → Bool
email_local_byte c =
    is_letter c || is_digit c || c == b'.' || c == b'_' || c == b'%' || c == b'+' || c == b'-'

abbrev email_domain_byte : ℕ → Bool
email_domain_byte c = is_letter c || is_digit c || c == b'.' || c == b'-'

-- the last part, and the parts before it
last_part : Bytes → List Bytes → List Bytes × Bytes
last_part p [] = ([], p)
last_part p (q ∷ qs) = let (before, last) = last_part q qs in (p ∷ before, last)

-- `[a-zA-Z0-9.-]+\.[a-zA-Z]{2,}$`: the last dot is the one that the pattern names
email_domain : List Bytes → Bool
email_domain [] = false
email_domain (p ∷ ps) =
    let (before, last) = last_part p ps in
    let host = join b'.' before in
    ltb 0 (length host)
    && all_bytes email_domain_byte host
    && all_bytes is_letter last
    && leb 2 (length last)

-- the two sides of `@`, which neither class of characters holds
email_sides : List Bytes → Bool
email_sides (local ∷ domain ∷ []) =
    ltb 0 (length local) && all_bytes email_local_byte local && email_domain (split b'.' domain)
email_sides _ = false

-- validateEmailAddress
unfoldable pub validate_email_address : Bytes → Check
unfolding email_sides email_domain last_part all_bytes
validate_email_address email = reject (not (email_sides (split b'@' email))) caa_email

-- the constants of the map of valid tags
pub data Tag : Type 0 where
  issue issuewild iodef unknown : Tag

unfoldable pub tag_of : Bytes → Tag
unfolding eqb
tag_of tag =
    if eqb tag (codes "issue")
    then Tag.issue
    else if eqb tag (codes "issuewild")
    then Tag.issuewild
    else if eqb tag (codes "iodef")
    then Tag.iodef
    else Tag.unknown

module _ (pkg : Packages) where
  open pkg use {suffix_list, parse_url}

  -- validateCAAIssueValue
  unfoldable pub validate_caa_issue_value : DnsRecord → DnsRecord × Check
  validate_caa_issue_value r =
      let value = trim_space r.target in
      let (r', failed) = validate_domain_name_other suffix_list value r in
      if eqb value (codes ";")
      then (r, none)
      else if eqb value []
      then (r, some caa_value_empty)
      else elim failed [
        | some e ↦ (r', some e)
        | none ↦ (
          r',
          do
            reject (contains value (codes "://")) caa_url
            reject (contains value (codes " ")) caa_space,
        )
      ]

  -- validateCAAMailto
  unfoldable pub validate_caa_mailto : Bytes → Check
  validate_caa_mailto mailto = elim (parse_url mailto) [
    | none ↦ some caa_mailto
    | some url ↦ do
      reject (not (eqb url.scheme (codes "mailto"))) caa_scheme
      reject (eqb url.opaque []) caa_mailto_missing
      validate_email_address url.opaque
  ]

  -- validateCAAHttps
  unfoldable pub validate_caa_https : Bytes → DnsRecord → DnsRecord × Check
  validate_caa_https https_url r = elim (parse_url https_url) [
    | none ↦ (r, some caa_https)
    | some url ↦
        if not (eqb url.scheme (codes "https"))
        then (r, some caa_scheme)
        else if eqb url.host []
        then (r, some caa_host)
        else validate_domain_name_other suffix_list url.host r
  ]

  -- validateCAAIodefValue
  unfoldable pub validate_caa_iodef_value : DnsRecord → DnsRecord × Check
  validate_caa_iodef_value r =
      let value = trim_space r.target in
      if eqb value []
      then (r, some caa_value_empty)
      else if has_prefix value (codes "mailto:")
      then (r, validate_caa_mailto value)
      else if has_prefix value (codes "https://")
      then validate_caa_https value r
      else (r, some caa_iodef)

  -- the switch on the tag
  unfoldable pub validate_caa_value : Tag → DnsRecord → DnsRecord × Check
  validate_caa_value Tag.issue r = validate_caa_issue_value r
  validate_caa_value Tag.issuewild r = validate_caa_issue_value r
  validate_caa_value Tag.iodef r = validate_caa_iodef_value r
  validate_caa_value Tag.unknown r = (r, some caa_tag)

  -- validateCAARecord
  unfoldable pub validate_caa_record : DnsRecord → DnsRecord × Check
  validate_caa_record r =
      let tag = tag_of (to_lower (trim_space r.tag)) in
      if not (eqb_ℤ r.priority (pos 0)) && not (eqb_ℤ r.priority (pos 128))
      then (r, some caa_flag)
      else if eqb r.tag []
      then (r, some caa_tag_empty)
      else elim tag [
        | Tag.unknown ↦ (r, some caa_tag)
        | t ↦ if eqb r.target [] then (r, some caa_value_empty) else validate_caa_value t r
      ]
