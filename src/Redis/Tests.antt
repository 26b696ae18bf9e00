-- ===== src/Redis/Tests.antt =====
-- Tests of internal/redis.
use errantdns_io.Base.{ℕ, ◌≡◌, ◌<◌, ◌⊎◌, refl, true, some, none, [], ◌∷◌, length, count, ℕ_discrete}
use errantdns_io.Base.Table
use errantdns_io.Base.Text.{codes, eqb, bytes_dec}
use errantdns_io.Redis.Registry.{
  Registry, no_clients, new_client, close, get_client, Reachable, start, after, new_step,
  close_step, close_all,
}
use errantdns_io.Redis.Registry.Safety.{get_client-open}
use errantdns_io.Redis.Registry.Interleaved.{
  Running, testing, Reaches, nothing_yet, then_part, insert_part, test_part, write_part,
  close_all_part, get_client-registered,
}

-- two clients of which the first, the default one, was closed
abbrev one_left : Registry
one_left =
    close 0 (codes "default")
      (new_client (codes "dns") [] true (new_client (codes "default") [] true no_clients).0).0

one_left-Reachable : Reachable one_left
one_left-Reachable =
    after
      (after (after start (new_step (codes "default") [] true)) (new_step (codes "dns") [] true))
      (close_step 0 (codes "default"))

get_client-open_example :
    ((n : ℕ)
      → get_client (codes "other") one_left ≡ some n
      → (n < length one_left.made) × (count ℕ_discrete n one_left.closed ≡ 0))
    × (get_client (codes "other") one_left ≡ none → one_left.clients ≡ [])
get_client-open_example = get_client-open one_left (codes "other") one_left-Reachable

-- A NewClient that CloseAll came in between of, after the test and before the write.
abbrev overtaken : Running
overtaken = record {
  registry = record {
    clients = [];
    default_client = some 0;
    made = codes "localhost:6379" ∷ [];
    closed = 0 ∷ [];
  };
  waiting = [];
}

overtaken-Reaches : Reaches overtaken
unfolding Table.put eqb close_all
overtaken-Reaches =
    then_part
      (then_part
        (then_part (then_part nothing_yet (insert_part (codes "dns") []))
          (test_part [] [] (codes "dns") 0 refl))
        close_all_part)
      (write_part [] [] 0 refl)

-- GetClient then returns the closed client
overtaken_closed :
    (get_client (codes "dns") overtaken.registry ≡ some 0) × (overtaken.registry.closed ≡ (0 ∷ []))
unfolding get_client Table.get
overtaken_closed = (refl, refl)

-- a client that is registered
abbrev registered : Running
registered = record {
  registry = record {
    clients = (codes "dns", 0) ∷ [];
    default_client = none;
    made = codes "localhost:6379" ∷ [];
    closed = [];
  };
  waiting = testing (codes "dns") 0 ∷ [];
}

registered-Reaches : Reaches registered
unfolding Table.put eqb
registered-Reaches = then_part nothing_yet (insert_part (codes "dns") [])

get_client-registered_example :
    (0 < length registered.registry.made)
    × ((Table.get bytes_dec (codes "dns") registered.registry.clients ≡ some 0)
          × (count ℕ_discrete 0 registered.registry.closed ≡ 0)
        ⊎ (Table.get bytes_dec (codes "dns") registered.registry.clients ≡ none)
          × (registered.registry.default_client ≡ some 0))
unfolding get_client Table.get bytes_dec eqb
get_client-registered_example =
    get_client-registered registered (codes "dns") 0 registered-Reaches refl
