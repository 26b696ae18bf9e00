-- ===== src/Models/RecordSet.antt =====
-- RecordSet of internal/models/dns.go.
use errantdns_io.Base.{
  ℕ, zero, suc, Bool, true, false, Option, none, some, List, [], ◌∷◌, ◌++◌, not, if◌then◌else◌, ◌≡◌,
  refl, arith, get_elem?, inl, inr, Bool-cases, subst, ◌⊎◌,
}
use mathlib.Core.Option.{some-injective}
use errantdns_io.Base.Int.{ℤ, pos, negsuc, ltb_ℤ, leb_ℤ}
use errantdns_io.Base.Text.{Bytes, codes, eqb}
use errantdns_io.Models.Record.{DnsRecord, normalize_domain_name}

-- type RecordSet; a record is a pointer in the source, and is never written through here
pub record RecordSet : Type 0 where
  pub name : Bytes
  pub set_type : Bytes
  pub records : List DnsRecord

-- the two errors of Add
pub data AddError : Type 0 where
  name_mismatch type_mismatch : AddError

-- NewRecordSet
unfoldable pub new_record_set : Bytes → Bytes → RecordSet
new_record_set name set_type = record {
  name = normalize_domain_name name;
  set_type = set_type;
  records = [];
}

-- Add
unfoldable pub add : DnsRecord → RecordSet → RecordSet × Option AddError
add r rs =
    if not (eqb (normalize_domain_name r.name) rs.name)
    then (rs, some name_mismatch)
    else if not (eqb r.record_type rs.set_type)
    then (rs, some type_mismatch)
    else (record rs { records = rs.records ++ r ∷ [] }, none)

-- the test of the loop of HighestPriority, at a set for MX and at any other
pub better : Bool → DnsRecord → DnsRecord → Bool
better true r highest = ltb_ℤ r.priority highest.priority
better false r highest = ltb_ℤ highest.priority r.priority

highest_from : Bool → DnsRecord → List DnsRecord → DnsRecord
highest_from mx highest [] = highest
highest_from mx highest (r ∷ rs) = highest_from mx (if better mx r highest then r else highest) rs

best_of : Bool → List DnsRecord → Option DnsRecord
unfolding highest_from
best_of mx [] = none
best_of mx (highest ∷ rest) = some (highest_from mx highest rest)

-- HighestPriority
pub highest_priority : RecordSet → Option DnsRecord
unfolding best_of
highest_priority rs = best_of (eqb rs.set_type (codes "MX")) rs.records

ltb_ℤ-trans : (a b c : ℤ) → ltb_ℤ a b ≡ true → ltb_ℤ b c ≡ true → ltb_ℤ a c ≡ true
ltb_ℤ-trans (pos a) (pos b) (pos c) h k = ground arith
ltb_ℤ-trans (negsuc a) (pos b) (pos c) h k = refl
ltb_ℤ-trans (negsuc a) (negsuc b) (pos c) h k = refl
ltb_ℤ-trans (negsuc a) (negsuc b) (negsuc c) h k = ground arith
ltb_ℤ-trans a b c h k = cc

ltb_ℤ-irrefl : (a : ℤ) → ltb_ℤ a a ≡ false
ltb_ℤ-irrefl (pos a) = ground arith
ltb_ℤ-irrefl (negsuc a) = ground arith

better_irrefl : (mx : Bool) (r : DnsRecord) → better mx r r ≡ false
unfolding better
better_irrefl true r = ltb_ℤ-irrefl r.priority
better_irrefl false r = ltb_ℤ-irrefl r.priority

-- What is beaten by the old best is beaten by a better one.
better_trans :
    (mx : Bool) (r s t : DnsRecord)
    → better mx s t ≡ true
    → better mx r t ≡ false
    → better mx r s ≡ false
unfolding better
better_trans true r s t h k = ground (arith, ltb_ℤ-trans r.priority s.priority t.priority)
better_trans false r s t h k = ground (arith, ltb_ℤ-trans t.priority s.priority r.priority)

unbeaten :
    (mx : Bool) (highest : DnsRecord) (rs : List DnsRecord) (r : DnsRecord)
    → better mx r highest ≡ false
    → better mx r (highest_from mx highest rs) ≡ false
unfolding highest_from
unbeaten mx highest [] r h = h
unbeaten mx highest (s ∷ rs) r h = elim (Bool-cases (better mx s highest)) [
  | inl up ↦ rw up (unbeaten mx s rs r (better_trans mx r s highest up h))
  | inr down ↦ rw down (unbeaten mx highest rs r h)
]

beats_all :
    (mx : Bool) (highest : DnsRecord) (rs : List DnsRecord) (i : ℕ) (r : DnsRecord)
    → get_elem? rs i ≡ some r
    → better mx r (highest_from mx highest rs) ≡ false
unfolding highest_from
beats_all mx highest [] i r h = cc
beats_all mx highest (s ∷ rs) (suc i) r h =
    beats_all mx (if better mx s highest then s else highest) rs i r h
beats_all mx highest (s ∷ rs) zero r h = elim (Bool-cases (better mx s highest)) [
  | inl up ↦ rw up (
      unbeaten mx s rs r
        (subst (λ z. better mx z s ≡ false) (some-injective s r h) (better_irrefl mx s)))
  | inr down ↦ rw down (
      unbeaten mx highest rs r
        (subst (λ z. better mx z highest ≡ false) (some-injective s r h) down))
]

shift :
    {A : Type 0} (b : Bool) (h s : A) (rs : List A) (x : A)
    → (i : ℕ) × (get_elem? ((if b then s else h) ∷ rs) i ≡ some x)
    → (i : ℕ) × (get_elem? (h ∷ s ∷ rs) i ≡ some x)
shift true h s rs x (zero, e) = (1, e)
shift false h s rs x (zero, e) = (0, e)
shift b h s rs x (suc i, e) = (suc (suc i), e)

stands_in :
    (mx : Bool) (highest : DnsRecord) (rs : List DnsRecord)
    → (i : ℕ) × (get_elem? (highest ∷ rs) i ≡ some (highest_from mx highest rs))
unfolding highest_from
stands_in mx highest [] = (0, refl)
stands_in mx highest (s ∷ rs) =
    shift (better mx s highest) highest s rs _
      (stands_in mx (if better mx s highest then s else highest) rs)

ltb_ℤ-leb : (a b : ℤ) → ltb_ℤ a b ≡ false → leb_ℤ b a ≡ true
ltb_ℤ-leb (pos a) (pos b) h = ground arith
ltb_ℤ-leb (pos a) (negsuc b) h = refl
ltb_ℤ-leb (negsuc a) (pos b) h = cc
ltb_ℤ-leb (negsuc a) (negsuc b) h = ground arith

-- a record of the list, with the lowest priority of it (at MX), or with the highest (at other types)
abbrev pub IsBest : Bool → List DnsRecord → DnsRecord → Type 0
IsBest true records h =
    ((i : ℕ) × (get_elem? records i ≡ some h))
    × ((j : ℕ) (r : DnsRecord) → get_elem? records j ≡ some r → leb_ℤ h.priority r.priority ≡ true)
IsBest false records h =
    ((i : ℕ) × (get_elem? records i ≡ some h))
    × ((j : ℕ) (r : DnsRecord) → get_elem? records j ≡ some r → leb_ℤ r.priority h.priority ≡ true)

unbeaten-IsBest :
    (mx : Bool) (records : List DnsRecord) (h : DnsRecord)
    → (i : ℕ) × (get_elem? records i ≡ some h)
    → ((j : ℕ) (r : DnsRecord) → get_elem? records j ≡ some r → better mx r h ≡ false)
    → IsBest mx records h
unfolding better
unbeaten-IsBest true records h in_list beaten =
    (in_list, λ j r e. ltb_ℤ-leb r.priority h.priority (beaten j r e))
unbeaten-IsBest false records h in_list beaten =
    (in_list, λ j r e. ltb_ℤ-leb h.priority r.priority (beaten j r e))

first_or_later :
    (mx : Bool) (s : DnsRecord) (rs : List DnsRecord) (j : ℕ) (r : DnsRecord)
    → get_elem? (s ∷ rs) j ≡ some r
    → better mx r (highest_from mx s rs) ≡ false
first_or_later mx s rs zero r e =
    unbeaten mx s rs r
      (subst (λ z. better mx z s ≡ false) (some-injective s r e) (better_irrefl mx s))
first_or_later mx s rs (suc j) r e = beats_all mx s rs j r e

best_of_lem :
    (mx : Bool) (records : List DnsRecord)
    → (records ≡ []) × (best_of mx records ≡ none)
      ⊎ ((h : DnsRecord) × (best_of mx records ≡ some h) × IsBest mx records h)
unfolding best_of
best_of_lem mx [] = inl (refl, refl)
best_of_lem mx (s ∷ rs) = inr (
  highest_from mx s rs,
  refl,
  unbeaten-IsBest mx (s ∷ rs) _ (stands_in mx s rs) (first_or_later mx s rs),
)

-- HighestPriority returns nothing for an empty set. Otherwise it returns a record of the set: in a set
-- for MX its priority number is at most that of every record of the set, and in any other set at least
-- that of every record.
pub highest_priority_lem :
    (rs : RecordSet)
    → (rs.records ≡ []) × (highest_priority rs ≡ none)
      ⊎ ((h : DnsRecord) × (highest_priority rs ≡ some h)
          × IsBest (eqb rs.set_type (codes "MX")) rs.records h)
unfolding highest_priority
highest_priority_lem rs = best_of_lem (eqb rs.set_type (codes "MX")) rs.records
