-- ===== src/Storage/Redis/Reads.antt =====
-- internal/redis/client.go: what the JSON commands do to what a key of a Redis server reads as.
use errantdns_io.Base.{
  ℕ, Bool, true, false, ◌+◌, ◌*◌, ◌≤◌, ◌≡◌, refl, ◌∙◌, ap, Option, none, some, [], ◌∷◌, ltb,
  if◌then◌else◌, ite,
}
use errantdns_io.Base.Text.{Bytes, bytes_dec}
use errantdns_io.Redis.Client.{
  RedisServer, IsRedis, Json, IsJson, set_json_on, get_json_from, parse_reply, expire_on, delete_on,
}

module _ {R A : Type 0} (server : RedisServer R) (json : Json A) (works : IsRedis server)
    (encodes : IsJson json) where
  -- what the text of a key is as a value
  abbrev pub read_text : Option Bytes → Option A
  read_text none = none
  read_text (some text) = json.unmarshal text

  -- The abstract view: the value that a key holds at a time.
  abbrev pub reads : ℕ → Bytes → R → Option A
  reads t k s = read_text (works.holds t k s)

  parse_reply_text :
      (reply : R × Option Bytes) → (parse_reply server json reply).1 ≡ read_text reply.1
  unfolding parse_reply
  parse_reply_text (s, none) = refl
  parse_reply_text (s, some text) = refl

  parse_reply_state : (reply : R × Option Bytes) → (parse_reply server json reply).0 ≡ reply.0
  unfolding parse_reply
  parse_reply_state (s, none) = refl
  parse_reply_state (s, some text) = refl

  -- GetJSONFrom returns what its key reads as.
  pub get_json_from-reads :
      (t : ℕ) (k : Bytes) (s : R) → (get_json_from server json t k s).1 ≡ reads t k s
  unfolding get_json_from
  get_json_from-reads t k s =
      parse_reply_text (server.get t k s) ∙ ap read_text (works.get_holds t k s)

  -- GetJSONFrom changes nothing that can be read from its time on.
  pub reads-get_json_from :
      (t : ℕ) (k : Bytes) (s : R) (u : ℕ) (j : Bytes)
      → t ≤ u
      → reads u j (get_json_from server json t k s).0 ≡ reads u j s
  unfolding get_json_from
  reads-get_json_from t k s u j later =
      ap (λ z. reads u j z) (parse_reply_state (server.get t k s))
      ∙ ap read_text (works.holds_get t k s u j later)

  read_ite :
      {P : Type 0} (d : Dec P) (x y : Option Bytes)
      → read_text (ite d x y) ≡ ite d (read_text x) (read_text y)
  read_ite (yes p) x y = refl
  read_ite (no n) x y = refl

  -- After SetJSONOn of a value that JSON represents exactly its key reads as the value, and every
  -- other key as before.
  pub reads-set_json_on :
      (t : ℕ) (k : Bytes) (a : A) (s : R) (u : ℕ) (j : Bytes)
      → encodes.IsExact a
      → t ≤ u
      → reads u j (set_json_on server json t k a s).0 ≡ ite (bytes_dec k j) (some a) (reads u j s)
  unfolding set_json_on
  reads-set_json_on t k a s u j exact later =
      rw (encodes.marshal_text a exact, set_json_on)
        (ap read_text (works.holds_set t k (encodes.text a) s u j later)
          ∙ read_ite (bytes_dec k j) (some (encodes.text a)) (works.holds u j s)
          ∙ ap (λ z. ite (bytes_dec k j) z (reads u j s)) (encodes.unmarshal_text a exact))

  -- After ExpireOn its key reads as it did then until the seconds have passed, whatever its expiry was,
  -- and every other key as before.
  pub reads-expire_on :
      (t : ℕ) (k : Bytes) (seconds : ℕ) (s : R) (u : ℕ) (j : Bytes)
      → t ≤ u
      → reads u j (expire_on server t k seconds s).0
        ≡ ite
            (bytes_dec k j)
            (if ltb u (t + seconds * 1000000000) then reads t j s else none)
            (reads u j s)
  reads-expire_on t k seconds s u j later =
      ap read_text (works.holds_expire t k seconds s u j later)
      ∙ read_ite (bytes_dec k j) _ _
      ∙ ap (λ z. ite (bytes_dec k j) z (reads u j s))
          (read_if (ltb u (t + seconds * 1000000000)) (works.holds t j s))
    where
      read_if :
          (b : Bool) (x : Option Bytes)
          → read_text (if b then x else none) ≡ (if b then read_text x else none)
      read_if true x = refl
      read_if false x = refl

  -- After DeleteOn its key reads as nothing, and every other key as before.
  pub reads-delete_on :
      (t : ℕ) (k : Bytes) (s : R) (u : ℕ) (j : Bytes)
      → t ≤ u
      → reads u j (delete_on server t (k ∷ []) s).0 ≡ ite (bytes_dec k j) none (reads u j s)
  reads-delete_on t k s u j later =
      ap read_text (works.holds_del t k s u j later)
      ∙ read_ite (bytes_dec k j) none (works.holds u j s)
