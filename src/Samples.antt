-- ===== src/Samples.antt =====
-- Inputs of the tests: records, the parameters that stand for other packages, and a storage in
-- memory in place of the database.
use errantdns_io.Base.{
  ℕ, ◌%◌, Bool, true, false, ◌&&◌, Option, none, some, List, [], ◌∷◌, if◌then◌else◌,
}
use errantdns_io.Base.Int.{pos}
use errantdns_io.Base.Text.{Bytes, codes, eqb}
use errantdns_io.Config.{Config}
use errantdns_io.Models.Caa.{Packages}
use errantdns_io.Models.DomainName.{SuffixList}
use errantdns_io.Models.Record.{DnsRecord, LookupQuery}
use errantdns_io.Server.Message.{DnsPackage, type_a, type_mx, type_soa, type_caa}
use errantdns_io.Storage.Interface.{Storage, ok, err}
use errantdns_io.Storage.Select.{Chance}

abbrev pub sample : (name record_type target : Bytes) → ℕ → DnsRecord
sample name record_type target ttl = record {
  id = pos 1;
  name = name;
  record_type = record_type;
  target = target;
  ttl = ttl;
  priority = pos 10;
  created_at = 0;
  updated_at = 0;
  etld = [];
  apex_domain = [];
  subdomain_labels = [];
  is_wildcard = false;
  wildcard_mask = 0;
  serial = 1;
  mbox = codes "admin.a.io";
  refresh = 2;
  retry = 1;
  expire = 3;
  minttl = 1;
  weight = 5;
  port = 80;
  tag = codes "issue";
}

abbrev pub a_record : DnsRecord
a_record = sample (codes "a.io") (codes "A") (codes "10.0.0.1") 60

abbrev pub a_query : LookupQuery
a_query = record { name = codes "a.io"; query_type = codes "A" }

-- a list of suffixes with which every name is its own apex under "io"
abbrev pub suffixes : SuffixList
suffixes = record { effective_tld_plus_one = λ name. some name; public_suffix = λ name. codes "io" }

abbrev pub packages : Packages
packages = record { suffix_list = suffixes; parse_url = λ s. none }

abbrev pub steady : Chance
steady = record { intn = λ seed n. seed % n; md5_prefix = λ s. 3 }

-- the records whose name and type are those of the query
abbrev pub matching : LookupQuery → List DnsRecord → List DnsRecord
matching q [] = []
matching q (r ∷ rs) =
    if eqb r.name q.name && eqb r.record_type q.query_type then r ∷ matching q rs else matching q rs

abbrev pub first : List DnsRecord → Option DnsRecord
first [] = none
first (r ∷ rs) = some r

-- A storage in memory. Its deletion drops everything.
abbrev pub listed : Storage (List DnsRecord) Bytes
listed = record {
  lookup_record = λ q s. (s, ok (first (matching q s)));
  lookup_records = λ q s. (s, ok (matching q s));
  lookup_record_group = λ q s. (s, ok (matching q s));
  create_record = λ r s. (r ∷ s, ok r);
  update_record = λ r s. (r ∷ [], ok r);
  delete_record = λ id s. ([], ok tt);
  delete_records = λ name record_type s. ([], ok tt);
  health = λ s. (s, ok tt);
  lookup_record_with_source = none;
  lookup_record_group_with_source = none;
}

-- a storage whose lookups fail
abbrev pub broken : Storage (List DnsRecord) Bytes
broken = record listed { lookup_record = λ q s. (s, err (codes "down")) }

abbrev pub dns_package : DnsPackage
dns_package = record {
  fqdn = λ name. name;
  type_to_string = λ t. elim t [
    | type_a ↦ codes "A"
    | type_mx ↦ codes "MX"
    | type_soa ↦ codes "SOA"
    | type_caa ↦ codes "CAA"
    | _ ↦ []
  ];
}

-- a configuration that is accepted, with a sampling rate that is a Bool
abbrev pub local : Config Bool
local = record {
  dns_port = codes "5353";
  database = record {
    host = codes "localhost";
    port = pos 5432;
    user = codes "dns";
    password = [];
    db_name = codes "dns";
    ssl_mode = codes "disable";
    connection_name = codes "main";
    max_open_conns = pos 10;
    max_idle_conns = pos 0;
    conn_max_lifetime = pos 300;
    conn_max_idle_time = pos 120;
  };
  cache = record {
    enabled = true;
    max_entries = pos 2;
    cleanup_interval = pos 60;
    default_ttl = pos 300;
  };
  redis = record {
    enabled = false;
    address = [];
    password = [];
    database = pos 0;
    client_name = [];
    pool_size = pos 0;
    min_idle_conns = pos 0;
    conn_max_idle_time = pos 240;
    dial_timeout = pos 2;
  };
  tie_breaker = codes "round_robin";
  max_concurrent_queries = pos 100;
  shutdown_timeout = pos 30;
  log_level = codes "info";
  logging = record {
    level = codes "info";
    directory = codes "logs";
    app_log_file = codes "app.log";
    query_log_file = codes "queries.log";
    error_log_file = codes "errors.log";
    enable_console = true;
    query_sample_rate = true;
    buffer_size = pos 16;
  };
}
