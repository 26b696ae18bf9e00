-- ===== src/Redis/Client.antt =====
-- internal/redis/client.go, for the functions that the program calls. The package go-redis and the
-- server behind it are a parameter: a state `R`, and commands that get the time of the server. Where
-- the program does not tell one error from another, an error is `none` or `false`. The name of the
-- client is resolved by GetClient.
use errantdns_io.Base.{
  ℕ, zero, suc, ◌+◌, ◌*◌, ◌≤◌, ◌≡◌, ◌==◌, Bool, false, Option, none, some, List, [], ◌∷◌, ◌++◌, ltb,
  if◌then◌else◌, ite,
}
use errantdns_io.Base.Text.{Bytes, bytes_dec}

-- What the code calls of a go-redis client.
pub record RedisServer (R : Type 0) : Type 0 where
  -- Get: the value, or redis.Nil and any other error
  pub get : ℕ → Bytes → R → R × Option Bytes
  -- Set without an expiry
  pub set : ℕ → (key value : Bytes) → R → R × Bool
  -- Expire, with the number of seconds
  pub expire : ℕ → Bytes → ℕ → R → R × Bool
  -- Del
  pub del : ℕ → List Bytes → R → R × Bool
  -- Ping
  pub ping : R → R × Bool
  -- Scan from a cursor by a pattern: some keys and the next cursor
  pub scan : ℕ → Bytes → R → R × Option (List Bytes × ℕ)

-- encoding/json on lists of records
pub record Json (A : Type 0) : Type 0 where
  pub marshal : A → Option Bytes
  pub unmarshal : Bytes → Option A

-- A value that JSON represents exactly (texts in UTF-8, years of four digits) is marshalled, and is
-- read back as it was.
pub record IsJson {A : Type 0} (json : Json A) : Type 1 where
  pub IsExact : A → Type 0
  pub text : A → Bytes
  pub marshal_text : (a : A) → IsExact a → json.marshal a ≡ some (text a)
  pub unmarshal_text : (a : A) → IsExact a → json.unmarshal (text a) ≡ some a

-- The documented behaviour of a server that answers: what a key holds at a time, and what the
-- commands do to it. A key with an expiry is gone from that time on. SET removes the expiry of a key,
-- and EXPIRE replaces it; EXPIRE of a key that is not there, or is gone, does nothing.
pub record IsRedis {R : Type 0} (server : RedisServer R) : Type 0 where
  pub holds : ℕ → Bytes → R → Option Bytes
  pub get_holds : (t : ℕ) (k : Bytes) (s : R) → (server.get t k s).1 ≡ holds t k s
  pub holds_get :
      (t : ℕ) (k : Bytes) (s : R) (u : ℕ) (j : Bytes)
      → t ≤ u
      → holds u j (server.get t k s).0 ≡ holds u j s
  pub holds_set :
      (t : ℕ) (k v : Bytes) (s : R) (u : ℕ) (j : Bytes)
      → t ≤ u
      → holds u j (server.set t k v s).0 ≡ ite (bytes_dec k j) (some v) (holds u j s)
  pub holds_expire :
      (t : ℕ) (k : Bytes) (seconds : ℕ) (s : R) (u : ℕ) (j : Bytes)
      → t ≤ u
      → holds u j (server.expire t k seconds s).0
        ≡ ite
            (bytes_dec k j)
            (if ltb u (t + seconds * 1000000000) then holds t j s else none)
            (holds u j s)
  pub holds_del :
      (t : ℕ) (k : Bytes) (s : R) (u : ℕ) (j : Bytes)
      → t ≤ u
      → holds u j (server.del t (k ∷ []) s).0 ≡ ite (bytes_dec k j) none (holds u j s)

module _ {R : Type 0} (server : RedisServer R) where
  -- the loop of ScanFrom; `none` is a loop that does not end within the rounds given
  unfoldable pub scan_rounds :
      ℕ → (cursor : ℕ) → Bytes → (keys : List Bytes) → R → Option (R × Option (List Bytes))
  scan_rounds zero cursor pattern keys s = none
  scan_rounds (suc rounds) cursor pattern keys s =
      let (s', reply) = server.scan cursor pattern s in
      elim reply [
        | none ↦ some (s', none)
        | some (scan_keys, next) ↦
            let rest = scan_rounds rounds next pattern (keys ++ scan_keys) s' in
            if next == 0 then some (s', some (keys ++ scan_keys)) else rest
      ]

  -- ScanFrom
  abbrev pub scan_from : ℕ → Bytes → R → Option (R × Option (List Bytes))
  scan_from rounds pattern s = scan_rounds rounds 0 pattern [] s

  -- DeleteOn
  abbrev pub delete_on : ℕ → List Bytes → R → R × Bool
  delete_on t keys s = server.del t keys s

  -- ExpireOn
  abbrev pub expire_on : ℕ → Bytes → ℕ → R → R × Bool
  expire_on t key seconds s = server.expire t key seconds s

  -- PingClient
  abbrev pub ping_client : R → R × Bool
  ping_client s = server.ping s

  module _ {A : Type 0} (json : Json A) where
    -- SetJSONOn
    unfoldable pub set_json_on : ℕ → Bytes → A → R → R × Bool
    set_json_on t key value s = elim (json.marshal value) [
      | none ↦ (s, false)
      | some text ↦ server.set t key text s
    ]

    -- what GetJSONFrom does with the reply
    unfoldable pub parse_reply : R × Option Bytes → R × Option A
    parse_reply (s, none) = (s, none)
    parse_reply (s, some text) = (s, json.unmarshal text)

    -- GetJSONFrom
    unfoldable pub get_json_from : ℕ → Bytes → R → R × Option A
    get_json_from t key s = parse_reply (server.get t key s)
