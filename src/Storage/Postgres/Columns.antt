-- ===== src/Storage/Postgres/Columns.antt =====
-- internal/storage/postgres.go: the columns of a record. The integers of database/sql are signed, those
-- of a record are not, and a zero is stored as NULL.
use errantdns_io.Base.{
  ℕ, ◌+◌, ◌-◌, ◌%◌, ◌^◌, false, [], Option, none, some, ltb, ◌==◌, if◌then◌else◌,
}
use errantdns_io.Base.Int.{ℤ, pos, negsuc}
use errantdns_io.Base.Text.{Bytes, eqb}
use errantdns_io.Models.Record.{DnsRecord}

-- a row of dns_records; `none` is NULL
pub record Row : Type 0 where
  pub id : ℤ
  pub name : Bytes
  pub record_type : Bytes
  pub target : Bytes
  pub ttl : ℕ
  pub priority : ℤ
  pub created_at : ℕ
  pub updated_at : ℕ
  pub serial : Option ℤ
  pub mbox : Option Bytes
  pub refresh : Option ℤ
  pub retry : Option ℤ
  pub expire : Option ℤ
  pub minttl : Option ℤ
  pub weight : Option ℤ
  pub port : Option ℤ

-- the conversion of an unsigned number to a signed one of `w + 1` bits: `int32(n)`, `int16(n)`
unfoldable pub to_signed : (w n : ℕ) → ℤ
to_signed w n =
    let m = n % 2 ^ (w + 1) in if ltb m (2 ^ w) then pos m else negsuc (2 ^ (w + 1) - 1 - m)

-- the conversion of a signed number to an unsigned one of `w` bits: `uint32(n)`, `uint16(n)`
unfoldable pub to_unsigned : (w : ℕ) → ℤ → ℕ
to_unsigned w (pos n) = n % 2 ^ w
to_unsigned w (negsuc n) = 2 ^ w - 1 - n % 2 ^ w

-- `if n != 0 { column = sql.NullInt32{int32(n), true} }`
abbrev pub nullable_int32 : ℕ → Option ℤ
nullable_int32 n = if n == 0 then none else some (to_signed 31 n)

abbrev pub nullable_int16 : ℕ → Option ℤ
nullable_int16 n = if n == 0 then none else some (to_signed 15 n)

abbrev pub nullable_string : Bytes → Option Bytes
nullable_string s = if eqb s [] then none else some s

-- `if column.Valid { field = uint32(column.Int32) }`, for a field that starts as zero
abbrev pub from_nullable : (w : ℕ) → Option ℤ → ℕ
from_nullable w none = 0
from_nullable w (some n) = to_unsigned w n

abbrev pub from_nullable_string : Option Bytes → Bytes
from_nullable_string none = []
from_nullable_string (some s) = s

-- the arguments of INSERT in CreateRecord and of UPDATE in UpdateRecord
unfoldable pub to_row : (id : ℤ) → (created_at updated_at : ℕ) → DnsRecord → Row
to_row id created_at updated_at r = record {
  id = id;
  name = r.name;
  record_type = r.record_type;
  target = r.target;
  ttl = r.ttl;
  priority = r.priority;
  created_at = created_at;
  updated_at = updated_at;
  serial = nullable_int32 r.serial;
  mbox = nullable_string r.mbox;
  refresh = nullable_int32 r.refresh;
  retry = nullable_int32 r.retry;
  expire = nullable_int32 r.expire;
  minttl = nullable_int32 r.minttl;
  weight = nullable_int16 r.weight;
  port = nullable_int16 r.port;
}

-- the body of the loops over rows: Scan into a new record
unfoldable pub scan_row : Row → DnsRecord
scan_row row = record {
  id = row.id;
  name = row.name;
  record_type = row.record_type;
  target = row.target;
  ttl = row.ttl;
  priority = row.priority;
  created_at = row.created_at;
  updated_at = row.updated_at;
  etld = [];
  apex_domain = [];
  subdomain_labels = [];
  is_wildcard = false;
  wildcard_mask = 0;
  serial = from_nullable 32 row.serial;
  mbox = from_nullable_string row.mbox;
  refresh = from_nullable 32 row.refresh;
  retry = from_nullable 32 row.retry;
  expire = from_nullable 32 row.expire;
  minttl = from_nullable 32 row.minttl;
  weight = from_nullable 32 row.weight;
  port = from_nullable 16 row.port;
  tag = [];
}
