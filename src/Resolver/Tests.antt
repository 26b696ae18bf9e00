-- ===== src/Resolver/Tests.antt =====
-- Tests of internal/resolver/resolver.go.
use errantdns_io.Base.{
  ℕ, zero, suc, ◌≡◌, refl, Option, some, none, List, [], ◌∷◌, length, if◌then◌else◌,
}
use errantdns_io.Base.Text.{Bytes, codes, eqb}
use errantdns_io.Base.Text.Split.{split}
use errantdns_io.Models.Record.{DnsRecord, LookupQuery, type_of, normalize_domain_name}
use errantdns_io.Resolver.{generate_domain_hierarchy, resolve, resolve_with_source}
use errantdns_io.Resolver.Source.{forget_source, resolve_with_source-forget_source}
use errantdns_io.Resolver.Hierarchy.{ParentChain, generate_domain_hierarchy_lem}
use errantdns_io.Resolver.Soa.{WalkResult, resolve-WalkResult}
use errantdns_io.Samples.{sample}
use errantdns_io.Storage.Interface.{Storage, Result, ok, err}

abbrev soa_question : LookupQuery
soa_question = record { name = codes "www.a.io"; query_type = codes "SOA" }

abbrev soa_record : DnsRecord
soa_record = sample (codes "a.io") (codes "SOA") (codes "ns.a.io admin.a.io 1 20 10 30 5") 60

-- one zone, with its SOA record at "a.io"
abbrev fixed_answer : LookupQuery → Result Bytes (Option DnsRecord)
fixed_answer q = if eqb q.name (codes "a.io") then ok (some soa_record) else ok none

abbrev fixed : Storage Unit Bytes
fixed = record {
  lookup_record = λ q s. (s, fixed_answer q);
  lookup_records = λ q s. (s, ok []);
  lookup_record_group = λ q s. (s, ok []);
  create_record = λ r s. (s, ok r);
  update_record = λ r s. (s, ok r);
  delete_record = λ id s. (s, ok tt);
  delete_records = λ name record_type s. (s, ok tt);
  health = λ s. (s, ok tt);
  lookup_record_with_source = none;
  lookup_record_group_with_source = none;
}

generate_domain_hierarchy_lem_example :
    (rest : List Bytes) × (generate_domain_hierarchy (codes "www.A.io.")
      ≡ normalize_domain_name (codes "www.A.io.") ∷ rest)
    × ParentChain (normalize_domain_name (codes "www.A.io.")) rest
    × (length (generate_domain_hierarchy (codes "www.A.io."))
        ≡ length (split b'.' (normalize_domain_name (codes "www.A.io."))))
generate_domain_hierarchy_lem_example = generate_domain_hierarchy_lem (codes "www.A.io.")

-- a storage whose lookups are counted, and fail behind the second one
abbrev failing : ℕ → Result Bytes (Option DnsRecord)
failing zero = ok none
failing (suc zero) = ok (some soa_record)
failing (suc (suc n)) = err (codes "down")

abbrev counting : Storage ℕ Bytes
counting = record {
  lookup_record = λ q n. (suc n, failing n);
  lookup_records = λ q n. (n, ok []);
  lookup_record_group = λ q n. (n, ok []);
  create_record = λ r n. (n, ok r);
  update_record = λ r n. (n, ok r);
  delete_record = λ id n. (n, ok tt);
  delete_records = λ name record_type n. (n, ok tt);
  health = λ n. (n, ok tt);
  lookup_record_with_source = none;
  lookup_record_group_with_source = none;
}

resolve-WalkResult_example :
    WalkResult counting soa_question
      (generate_domain_hierarchy soa_question.name)
      0
      (resolve counting soa_question 0)
unfolding type_of
resolve-WalkResult_example = resolve-WalkResult counting soa_question 0 refl

resolve_with_source-forget_source_example :
    forget_source (resolve_with_source fixed soa_question tt) ≡ resolve fixed soa_question tt
resolve_with_source-forget_source_example =
    resolve_with_source-forget_source fixed soa_question tt refl
