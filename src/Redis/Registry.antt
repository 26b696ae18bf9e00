-- ===== src/Redis/Registry.antt =====
-- internal/redis/init.go: the named clients of the process. A client is the number of its making.
-- GetClient, Close and CloseAll hold the mutex, so that they are single steps. NewClient holds it for
-- the search and for the insertion only; Registry/Interleaved has its parts as steps of their own.
pub mod Safety
pub mod Interleaved
use errantdns_io.Base.{
  ℕ, zero, suc, ◌≡◌, Bool, true, false, Option, none, some, List, [], ◌∷◌, ◌++◌, length, ◌==◌,
  if◌then◌else◌, ◌||◌,
}
use errantdns_io.Base.Table
use errantdns_io.Base.Table.{Table}
use errantdns_io.Base.Text.{Bytes, codes, eqb, bytes_dec}
use errantdns_io.Base.Values.{values}

-- The map `clients`, the variable `Client`, the addresses that clients were made with, and the clients
-- that were closed.
pub record Registry : Type 0 where
  pub clients : Table Bytes ℕ
  pub default_client : Option ℕ
  pub made : List Bytes
  pub closed : List ℕ

-- the variables at the start
abbrev pub no_clients : Registry
no_clients = record { clients = []; default_client = none; made = []; closed = [] }

-- `client == Client`
abbrev pub is_default : ℕ → Option ℕ → Bool
is_default client none = false
is_default client (some n) = n == client

-- `Client == nil`
abbrev pub is_nil : Option ℕ → Bool
is_nil none = true
is_nil (some n) = false

-- `if address == "" { address = "localhost:6379" }`
abbrev pub or_localhost : Bytes → Bytes
or_localhost address = if eqb address [] then codes "localhost:6379" else address

-- the insertion of a new client into the map, under the mutex
abbrev pub insert_client : (name address : Bytes) → Registry → Registry × ℕ
insert_client name address reg =
    let client = length reg.made in
    (
      record reg {
        clients = Table.put bytes_dec name client reg.clients;
        made = reg.made ++ or_localhost address ∷ [];
      },
      client,
    )

-- the test behind the insertion, and the assignment to Client: both without the mutex
abbrev pub sets_default : (name : Bytes) → Registry → Bool
sets_default name reg = eqb name (codes "default") || is_nil reg.default_client

abbrev pub set_default : (client : ℕ) → Registry → Registry
set_default client reg = record reg { default_client = some client }

-- the part of NewClient that makes a client, with no other call between its steps
pub make_client : (name address : Bytes) → Registry → Registry × ℕ
make_client name address reg =
    let (inserted, client) = insert_client name address reg in
    (if sets_default name inserted then set_default client inserted else inserted, client)

-- the part of NewClient behind the search for a client of the name
pub use_or_make : Option ℕ → (name address : Bytes) → Registry → Registry × ℕ
use_or_make (some client) name address reg = (reg, client)
use_or_make none name address reg = make_client name address reg

-- NewClient, with no other call between its steps
pub new_client : (name address : Bytes) → (use_existing : Bool) → Registry → Registry × ℕ
new_client name address use_existing reg =
    use_or_make (if use_existing then Table.get bytes_dec name reg.clients else none) name address
      reg

-- Initialize
unfoldable pub initialize : (address : Bytes) → Registry → Registry × ℕ
initialize address reg = new_client (codes "default") address true reg

-- a client that was found, or else the default one
abbrev pub or_default : Option ℕ → Option ℕ → Option ℕ
or_default (some client) default_client = some client
or_default none default_client = default_client

-- GetClient
unfoldable pub get_client : Bytes → Registry → Option ℕ
get_client name reg = or_default (Table.get bytes_dec name reg.clients) reg.default_client

-- the first client that `range clients` gives, whose order Go leaves open
pub pick_client : (order : ℕ) → Table Bytes ℕ → Option ℕ
pick_client order [] = none
pick_client zero ((name, client) ∷ clients) = some client
pick_client (suc n) ((name, client) ∷ clients) = elim (pick_client n clients) [
  | none ↦ some client
  | some other ↦ some other
]

-- the part of Close behind the search for the client
pub close_found : Option ℕ → (order : ℕ) → Bytes → Registry → Registry
close_found none order name reg = reg
close_found (some client) order name reg =
    let rest = Table.delete bytes_dec name reg.clients in
    record reg {
      clients = rest;
      default_client =
          if is_default client reg.default_client
          then pick_client order rest
          else reg.default_client;
      closed = client ∷ reg.closed;
    }

-- Close
pub close : (order : ℕ) → Bytes → Registry → Registry
close order name reg = close_found (Table.get bytes_dec name reg.clients) order name reg

-- CloseAll
unfoldable pub close_all : Registry → Registry
close_all reg = record reg {
  clients = [];
  default_client = none;
  closed = values reg.clients ++ reg.closed;
}

-- a call that changes the registry, while no other call runs
pub data Step : Registry → Registry → Type 0 where
  new_step :
      {reg : Registry} (name address : Bytes) (use_existing : Bool)
      → Step reg (new_client name address use_existing reg).0
  close_step : {reg : Registry} (order : ℕ) (name : Bytes) → Step reg (close order name reg)
  close_all_step : {reg : Registry} → Step reg (close_all reg)

-- what calls one after another lead to
pub data Reachable : Registry → Type 0 where
  start : Reachable no_clients
  after : {reg reg' : Registry} → Reachable reg → Step reg reg' → Reachable reg'
