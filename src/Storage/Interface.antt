-- ===== src/Storage/Interface.antt =====
-- The interface Storage of internal/storage/postgres.go, with the results of source.go. What
-- implements it is a parameter: a state `S`, and methods that return the new state with their result.
use errantdns_io.Base.{Option, List}
use errantdns_io.Base.Int.{ℤ}
use errantdns_io.Base.Text.{Bytes}
use errantdns_io.Models.Record.{DnsRecord, LookupQuery}

-- a value and a nil error, or an error
pub data Result (E A : Type 0) : Type 0 where
  ok : A → Result E A
  err : E → Result E A

-- type CacheSource
pub data CacheSource : Type 0 where
  source_database source_redis source_memory : CacheSource

-- type LookupResult
pub record LookupResult : Type 0 where
  pub result_record : Option DnsRecord
  pub source : CacheSource

-- type LookupGroupResult
pub record LookupGroupResult : Type 0 where
  pub records : List DnsRecord
  pub source : CacheSource

-- A method that may fail, on the state `S`.
abbrev pub Method : Type 0 → Type 0 → Type 0 → Type 0
Method S E A = S → S × Result E A

-- The operations of the interface; Close is left out. CreateRecord and UpdateRecord get a pointer to
-- a record: what they return is the record as they leave it. The last two are the methods that the
-- resolver asks for by a type assertion: `none` is a storage that lacks the method.
pub record Storage (S E : Type 0) : Type 0 where
  pub lookup_record : LookupQuery → Method S E (Option DnsRecord)
  pub lookup_records : LookupQuery → Method S E (List DnsRecord)
  pub lookup_record_group : LookupQuery → Method S E (List DnsRecord)
  pub create_record : DnsRecord → Method S E DnsRecord
  pub update_record : DnsRecord → Method S E DnsRecord
  pub delete_record : ℤ → Method S E Unit
  pub delete_records : Bytes → Bytes → Method S E Unit
  pub health : Method S E Unit
  pub lookup_record_with_source : Option (LookupQuery → Method S E (Option LookupResult))
  pub lookup_record_group_with_source : Option (LookupQuery → Method S E (Option LookupGroupResult))

-- what follows a call, if it returned no error
abbrev pub and_then :
    {S E A B : Type 0} → S × Result E A → (A → S → S × Result E B) → S × Result E B
and_then (s, ok a) k = k a s
and_then (s, err e) k = (s, err e)
