-- ===== src/Resolver/Source.antt =====
-- internal/resolver/resolver.go: the lookups with the source of a record against those without.
use errantdns_io.Base.{◌≡◌, refl, Option, some, none, List, [], ◌∷◌}
use errantdns_io.Base.Text.{Bytes}
use errantdns_io.Models.Record.{DnsRecord, LookupQuery, RecordType, type_of}
use errantdns_io.Resolver.{
  ResolverResult, soa_query, generate_domain_hierarchy, resolve, resolve_soa, resolve_soa_in,
  lookup_soa, resolve_soa_with_source_in, resolve_soa_with_source, resolve_direct_with_source,
  resolve_with_source,
}
use errantdns_io.Storage.Interface.{Storage, Result, ok, err}

-- the result without its source
pub forget_source :
    {S E : Type 0} → S × Result E (Option ResolverResult) → S × Result E (Option DnsRecord)
forget_source (s, err e) = (s, err e)
forget_source (s, ok none) = (s, ok none)
forget_source (s, ok (some result)) = (s, ok result.result_record)

module _ {S E : Type 0} (storage : Storage S E) where
  walk_forgets :
      (query : LookupQuery) (domains : List Bytes) (s : S)
      → storage.lookup_record_with_source ≡ none
      → forget_source (resolve_soa_with_source_in storage query domains s)
        ≡ resolve_soa_in storage query domains s
  unfolding resolve_soa_with_source_in resolve_soa_in lookup_soa forget_source
  walk_forgets query [] s plain = refl
  walk_forgets query (d ∷ ds) s plain =
      step (storage.lookup_record (soa_query d) s) refl (λ s'. walk_forgets query ds s' plain)
    where
      step :
          (found : S × Result E (Option DnsRecord))
          → storage.lookup_record (soa_query d) s ≡ found
          → ((s' : S)
              → forget_source (resolve_soa_with_source_in storage query ds s')
                ≡ resolve_soa_in storage query ds s')
          → forget_source (resolve_soa_with_source_in storage query (d ∷ ds) s)
            ≡ resolve_soa_in storage query (d ∷ ds) s
      step (s', err e) found rest = rw (plain, found) refl
      step (s', ok none) found rest = rw (plain, found) (rest s')
      step (s', ok (some r)) found rest = rw (plain, found) refl

  direct_forgets :
      (query : LookupQuery) (s : S)
      → storage.lookup_record_with_source ≡ none
      → forget_source (resolve_direct_with_source storage query s) ≡ storage.lookup_record query s
  unfolding resolve_direct_with_source forget_source
  direct_forgets query s plain = step (storage.lookup_record query s) refl
    where
      step :
          (found : S × Result E (Option DnsRecord))
          → storage.lookup_record query s ≡ found
          → forget_source (resolve_direct_with_source storage query s)
            ≡ storage.lookup_record query s
      step (s', err e) found = rw (plain, found) refl
      step (s', ok r) found = rw (plain, found) refl

  -- Over a storage that cannot tell the source of a record, ResolveWithSource returns, but for the
  -- source, what Resolve returns, and leaves the same state.
  pub resolve_with_source-forget_source :
      (query : LookupQuery) (s : S)
      → storage.lookup_record_with_source ≡ none
      → forget_source (resolve_with_source storage query s) ≡ resolve storage query s
  unfolding resolve_with_source resolve resolve_soa_with_source resolve_soa
  resolve_with_source-forget_source query s plain = by_type (type_of query.query_type) refl
    where
      by_type :
          (t : RecordType)
          → type_of query.query_type ≡ t
          → forget_source (resolve_with_source storage query s) ≡ resolve storage query s
      by_type RecordType.soa e =
          rw (e, resolve_with_source, resolve)
            (walk_forgets query (generate_domain_hierarchy query.name) s plain)
      by_type _ e = rw (e, resolve_with_source, resolve) (direct_forgets query s plain)
