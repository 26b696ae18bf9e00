-- ===== src/Resolver.antt =====
-- internal/resolver/resolver.go
pub mod Hierarchy
pub mod Soa
pub mod Source
mod Tests
use errantdns_io.Base.{ℕ, Option, none, some, List, [], ◌∷◌}
use errantdns_io.Base.Text.{Bytes, codes, to_lower, trim_suffix}
use errantdns_io.Base.Text.Split.{split, join}
use errantdns_io.Models.Record.{DnsRecord, LookupQuery, RecordType, type_name, type_of}
use errantdns_io.Storage.Interface.{
  Storage, Method, Result, ok, err, and_then, CacheSource, source_database, LookupResult,
  LookupGroupResult,
}

-- the loop of generateDomainHierarchy
pub hierarchy_of : List Bytes → List Bytes
hierarchy_of [] = []
hierarchy_of (part ∷ parts) = join b'.' (part ∷ parts) ∷ hierarchy_of parts

-- generateDomainHierarchy
pub generate_domain_hierarchy : Bytes → List Bytes
generate_domain_hierarchy domain =
    hierarchy_of (split b'.' (to_lower (trim_suffix domain (codes "."))))

-- type ResolverResult
pub record ResolverResult : Type 0 where
  pub result_record : Option DnsRecord
  pub source : CacheSource

-- type ResolverGroupResult
pub record ResolverGroupResult : Type 0 where
  pub records : List DnsRecord
  pub source : CacheSource

abbrev pub soa_query : Bytes → LookupQuery
soa_query domain = record { name = domain; query_type = type_name RecordType.soa }

-- the copy of a record under the name of the query
abbrev pub renamed : LookupQuery → DnsRecord → DnsRecord
renamed query r = record r { name = query.name }

-- the list of one record, as the group lookups return it
abbrev pub one : Option DnsRecord → List DnsRecord
one none = []
one (some r) = r ∷ []

module _ {S E : Type 0} (storage : Storage S E) where
  -- the loop of resolveSOA
  pub resolve_soa_in : LookupQuery → List Bytes → Method S E (Option DnsRecord)
  resolve_soa_in query [] s = (s, ok none)
  resolve_soa_in query (domain ∷ domains) s =
      and_then (storage.lookup_record (soa_query domain) s) λ found s'. elim found [
        | none ↦ resolve_soa_in query domains s'
        | some r ↦ (s', ok (some (renamed query r)))
      ]

  -- resolveSOA
  pub resolve_soa : LookupQuery → Method S E (Option DnsRecord)
  resolve_soa query = resolve_soa_in query (generate_domain_hierarchy query.name)

  -- Resolve
  unfoldable pub resolve : LookupQuery → Method S E (Option DnsRecord)
  resolve query = elim (type_of query.query_type) [
    | RecordType.soa ↦ resolve_soa query
    | _ ↦ storage.lookup_record query
  ]

  -- ResolveAll
  unfoldable pub resolve_all : LookupQuery → Method S E (List DnsRecord)
  resolve_all query = elim (type_of query.query_type) [
    | RecordType.soa ↦ λ s. and_then (resolve_soa query s) λ found s'. (s', ok (one found))
    | _ ↦ storage.lookup_records query
  ]

  -- ResolveGroup
  unfoldable pub resolve_group : LookupQuery → Method S E (List DnsRecord)
  resolve_group query = elim (type_of query.query_type) [
    | RecordType.soa ↦ λ s. and_then (resolve_soa query s) λ found s'. (s', ok (one found))
    | _ ↦ storage.lookup_record_group query
  ]

  -- a round of resolveSOAWithSource: the lookup with its source, or the regular one
  pub lookup_soa : LookupQuery → Method S E (Option (DnsRecord × CacheSource))
  lookup_soa soa s = elim storage.lookup_record_with_source [
    | some lookup ↦ and_then (lookup soa s) λ result s'. elim result [
      | none ↦ (s', ok none)
      | some found ↦ elim found.result_record [
        | none ↦ (s', ok none)
        | some r ↦ (s', ok (some (r, found.source)))
      ]
    ]
    | none ↦ and_then (storage.lookup_record soa s) λ found s'. elim found [
      | none ↦ (s', ok none)
      | some r ↦ (s', ok (some (r, source_database)))
    ]
  ]

  -- the loop of resolveSOAWithSource
  pub resolve_soa_with_source_in : LookupQuery → List Bytes → Method S E (Option ResolverResult)
  resolve_soa_with_source_in query [] s = (s, ok none)
  resolve_soa_with_source_in query (domain ∷ domains) s =
      and_then (lookup_soa (soa_query domain) s) λ found s'. elim found [
        | none ↦ resolve_soa_with_source_in query domains s'
        | some (r, source) ↦
            (s', ok (some (record { result_record = some (renamed query r); source = source })))
      ]

  -- resolveSOAWithSource
  pub resolve_soa_with_source : LookupQuery → Method S E (Option ResolverResult)
  resolve_soa_with_source query =
      resolve_soa_with_source_in query (generate_domain_hierarchy query.name)

  -- the default case of ResolveWithSource
  pub resolve_direct_with_source : LookupQuery → Method S E (Option ResolverResult)
  resolve_direct_with_source query s = elim storage.lookup_record_with_source [
    | some lookup ↦ and_then (lookup query s) λ result s'. elim result [
      | none ↦ (s', ok none)
      | some found ↦
          (s', ok (some (record { result_record = found.result_record; source = found.source })))
    ]
    | none ↦
        and_then (storage.lookup_record query s)
          λ found s'. (s', ok (some (record { result_record = found; source = source_database })))
  ]

  -- ResolveWithSource
  pub resolve_with_source : LookupQuery → Method S E (Option ResolverResult)
  resolve_with_source query = elim (type_of query.query_type) [
    | RecordType.soa ↦ resolve_soa_with_source query
    | _ ↦ resolve_direct_with_source query
  ]

  -- the default case of ResolveAllWithSource
  unfoldable pub resolve_group_with_source : LookupQuery → Method S E (Option ResolverGroupResult)
  resolve_group_with_source query s = elim storage.lookup_record_group_with_source [
    | some lookup ↦ and_then (lookup query s) λ result s'. elim result [
      | none ↦ (s', ok none)
      | some found ↦ (s', ok (some (record { records = found.records; source = found.source })))
    ]
    | none ↦
        and_then (storage.lookup_records query s)
          λ found s'. (s', ok (some (record { records = found; source = source_database })))
  ]

  -- ResolveAllWithSource
  unfoldable pub resolve_all_with_source : LookupQuery → Method S E (Option ResolverGroupResult)
  resolve_all_with_source query = elim (type_of query.query_type) [
    | RecordType.soa ↦ λ s. and_then (resolve_soa_with_source query s) λ result s'. elim result [
      | none ↦ (s', ok none)
      | some found ↦
          (s', ok (some (record { records = one found.result_record; source = found.source })))
    ]
    | _ ↦ resolve_group_with_source query
  ]
