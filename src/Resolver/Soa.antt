-- ===== src/Resolver/Soa.antt =====
-- The walk of internal/resolver/resolver.go up the hierarchy to an SOA record. Each lookup is made in the
-- state that the lookups before it left.
use errantdns_io.Base.{
  ℕ, zero, suc, ◌<◌, ◌≡◌, refl, ap, Option, none, some, List, [], ◌∷◌, arith, get_elem?, length,
  subst, sym,
}
use mathlib.Core.Option.{some-injective}
use errantdns_io.Base.Text.{Bytes}
use errantdns_io.Models.Record.{DnsRecord, LookupQuery, RecordType, type_of}
use errantdns_io.Resolver.{
  soa_query, renamed, resolve_soa_in, resolve_soa, resolve, generate_domain_hierarchy,
}
use errantdns_io.Storage.Interface.{Storage, Result, ok, err, and_then}

module _ {S E : Type 0} (storage : Storage S E) where
  -- the state that the lookups of the first `n` domains leave
  abbrev pub after_lookups : (n : ℕ) → (domains : List Bytes) → S → S
  after_lookups zero domains s = s
  after_lookups (suc n) [] s = s
  after_lookups (suc n) (d ∷ domains) s =
      after_lookups n domains (storage.lookup_record (soa_query d) s).0

  -- what the lookup of a domain returns behind the lookups of the first `n` domains
  abbrev pub answer_at : (n : ℕ) → (domains : List Bytes) → S → Bytes → Result E (Option DnsRecord)
  answer_at n domains s d = (storage.lookup_record (soa_query d) (after_lookups n domains s)).1

  -- the first domains of the list have no SOA record when they are looked up
  abbrev pub NoneBefore : ℕ → List Bytes → S → Type 0
  NoneBefore n domains s =
      (j : ℕ) (d : Bytes) → j < n → get_elem? domains j ≡ some d → answer_at j domains s d ≡ ok none

  -- What a walk may leave and return: behind the lookup of the first domain that has a record, that
  -- record under the name of the query; behind all lookups, nothing, if no domain has one; behind the
  -- lookup of the first domain that is not without one, its error.
  abbrev pub WalkResult : LookupQuery → List Bytes → S → S × Result E (Option DnsRecord) → Type 0
  WalkResult query domains s (s', ok none) =
      ((j : ℕ) (d : Bytes) → get_elem? domains j ≡ some d → answer_at j domains s d ≡ ok none)
      × (s' ≡ after_lookups (length domains) domains s)
  WalkResult query domains s (s', ok (some r)) =
      (i : ℕ) × (d : Bytes) × (found : DnsRecord) × (get_elem? domains i ≡ some d)
      × (answer_at i domains s d ≡ ok (some found))
      × (r ≡ renamed query found)
      × (s' ≡ after_lookups (suc i) domains s)
      × NoneBefore i domains s
  WalkResult query domains s (s', err e) =
      (i : ℕ) × (d : Bytes) × (get_elem? domains i ≡ some d)
      × (answer_at i domains s d ≡ err e)
      × (s' ≡ after_lookups (suc i) domains s)
      × NoneBefore i domains s

  later_none :
      (n : ℕ) (d : Bytes) (domains : List Bytes) (s : S)
      → answer_at 0 (d ∷ domains) s d ≡ ok none
      → NoneBefore n domains (storage.lookup_record (soa_query d) s).0
      → NoneBefore (suc n) (d ∷ domains) s
  later_none n d domains s here later zero x lt e =
      subst (λ z. answer_at 0 (d ∷ domains) s z ≡ ok none) (some-injective d x e) here
  later_none n d domains s here later (suc j) x lt e = later j x (omega arith) e

  later_result :
      (query : LookupQuery) (d : Bytes) (domains : List Bytes) (s : S)
      (result : S × Result E (Option DnsRecord))
      → answer_at 0 (d ∷ domains) s d ≡ ok none
      → WalkResult query domains (storage.lookup_record (soa_query d) s).0 result
      → WalkResult query (d ∷ domains) s result
  later_result query d domains s (s', ok none) here (w, same) = (all_none, same)
    where
      all_none :
          (j : ℕ) (x : Bytes)
          → get_elem? (d ∷ domains) j ≡ some x
          → answer_at j (d ∷ domains) s x ≡ ok none
      all_none zero x e =
          subst (λ z. answer_at 0 (d ∷ domains) s z ≡ ok none) (some-injective d x e) here
      all_none (suc j) x e = w j x e
  later_result query d domains s (s', ok (some r)) here (i, x, found, at, is, name, same, before) =
      (suc i, x, found, at, is, name, same, later_none i d domains s here before)
  later_result query d domains s (s', err e) here (i, x, at, is, same, before) =
      (suc i, x, at, is, same, later_none i d domains s here before)

  -- The walk from a domain on, whatever its lookup returns.
  walk_step :
      (query : LookupQuery) (d : Bytes) (domains : List Bytes) (s : S)
      (p : S × Result E (Option DnsRecord))
      → storage.lookup_record (soa_query d) s ≡ p
      → ((s' : S) → WalkResult query domains s' (resolve_soa_in storage query domains s'))
      → WalkResult query (d ∷ domains) s (
          and_then p (λ found s'. elim found [
            | none ↦ resolve_soa_in storage query domains s'
            | some r ↦ (s', ok (some (renamed query r)))
          ]))
  walk_step query d domains s (s', ok none) h rest =
      later_result query d domains s _ (ap (λ z. z.1) h) (
        subst (λ z. WalkResult query domains z (resolve_soa_in storage query domains s'))
          (sym (ap (λ z. z.0) h)) (rest s'))
  walk_step query d domains s (s', ok (some r)) h rest =
      (0, d, r, refl, ap (λ z. z.1) h, refl, sym (ap (λ z. z.0) h), λ j x lt. elim lt [ ])
  walk_step query d domains s (s', err e) h rest =
      (0, d, refl, ap (λ z. z.1) h, sym (ap (λ z. z.0) h), λ j x lt. elim lt [ ])

  walk :
      (query : LookupQuery) (domains : List Bytes) (s : S)
      → WalkResult query domains s (resolve_soa_in storage query domains s)
  unfolding resolve_soa_in
  walk query [] s = (λ j d e. cc, refl)
  walk query (d ∷ domains) s =
      walk_step query d domains s (storage.lookup_record (soa_query d) s) refl (walk query domains)

  resolve_is_walk :
      (query : LookupQuery) (s : S)
      → type_of query.query_type ≡ RecordType.soa
      → resolve storage query s
        ≡ resolve_soa_in storage query (generate_domain_hierarchy query.name) s
  unfolding resolve resolve_soa
  resolve_is_walk query s soa = rw (soa, resolve)

  -- Over any storage, Resolve of a query for SOA looks up the domains of the hierarchy in their order,
  -- each in the state that the lookups before it left. It returns the record of the first domain that
  -- has one, under the name of the query, behind the lookup of that domain; the error of the first
  -- domain that is not without a record, if its lookup fails; and nothing, behind the lookups of all
  -- domains, only if none of them has a record.
  pub resolve-WalkResult :
      (query : LookupQuery) (s : S)
      → type_of query.query_type ≡ RecordType.soa
      → WalkResult query (generate_domain_hierarchy query.name) s (resolve storage query s)
  resolve-WalkResult query s soa =
      let domains = generate_domain_hierarchy query.name in
      subst (λ z. WalkResult query domains s z) (sym (resolve_is_walk query s soa))
        (walk query domains s)
