-- ===== src/Storage/Postgres/RoundTrip.antt =====
-- internal/storage/postgres.go: what of a record survives its columns.
use errantdns_io.Base.{
  ℕ, ◌+◌, ◌-◌, ◌^◌, ◌%◌, ◌<◌, ◌≡◌, refl, false, [], ◌∷◌, arith, ltb, if◌then◌else◌,
}
use errantdns_io.Base.Int.{ℤ}
use errantdns_io.Base.Text.{Bytes, eqb}
use errantdns_io.Models.Record.{DnsRecord}
use errantdns_io.Storage.Postgres.Columns.{
  to_signed, to_unsigned, nullable_int32, nullable_int16, nullable_string, from_nullable,
  from_nullable_string, to_row, scan_row,
}

-- A number below 2 ^ 32 survives a column of 32 bits.
int32_back : (n : ℕ) → n < 2 ^ 32 → from_nullable 32 (nullable_int32 n) ≡ n
unfolding to_signed to_unsigned
int32_back n h = ground arith

int16_back : (n : ℕ) → n < 2 ^ 16 → from_nullable 16 (nullable_int16 n) ≡ n
unfolding to_signed to_unsigned
int16_back n h = ground arith

string_back : (s : Bytes) → from_nullable_string (nullable_string s) ≡ s
unfolding eqb
string_back [] = refl
string_back (c ∷ s) = refl

-- What comes back for a weight: its lowest 16 bits, extended by their sign to 32 bits.
abbrev pub stored_weight : ℕ → ℕ
stored_weight n = let w = n % 2 ^ 16 in if ltb w (2 ^ 15) then w else w + (2 ^ 32 - 2 ^ 16)

weight_back : (n : ℕ) → from_nullable 32 (nullable_int16 n) ≡ stored_weight n
unfolding to_signed to_unsigned
weight_back n = ground arith

-- The fields of a record that fit their types.
pub record Fits (r : DnsRecord) : Type 0 where
  pub serial : r.serial < 2 ^ 32
  pub refresh : r.refresh < 2 ^ 32
  pub retry : r.retry < 2 ^ 32
  pub expire : r.expire < 2 ^ 32
  pub minttl : r.minttl < 2 ^ 32
  pub port : r.port < 2 ^ 16

-- A record whose other numbers fit their types comes back from its row as it was, with the id and the
-- times of the row, but for what has no column (the tag, the suffix, the labels and the wildcards,
-- which come back empty), and for the weight: any weight comes back as its lowest 16 bits if these are
-- below 2 ^ 15, and otherwise as they are, larger by 2 ^ 32 - 2 ^ 16.
pub scan_row-to_row :
    (id : ℤ) (created_at updated_at : ℕ) (r : DnsRecord)
    → Fits r
    → scan_row (to_row id created_at updated_at r) ≡ record r {
      id = id;
      created_at = created_at;
      updated_at = updated_at;
      etld = [];
      apex_domain = [];
      subdomain_labels = [];
      is_wildcard = false;
      wildcard_mask = 0;
      tag = [];
      weight = stored_weight r.weight;
    }
unfolding scan_row to_row
scan_row-to_row id created_at updated_at r fits =
    rw
      (
        int32_back r.serial fits.serial,
        int32_back r.refresh fits.refresh,
        int32_back r.retry fits.retry,
        int32_back r.expire fits.expire,
        int32_back r.minttl fits.minttl,
        int16_back r.port fits.port,
        string_back r.mbox,
        weight_back r.weight,
      )
      refl
