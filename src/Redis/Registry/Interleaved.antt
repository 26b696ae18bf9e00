-- ===== src/Redis/Registry/Interleaved.antt =====
-- internal/redis/init.go: NewClient among other calls. It holds the mutex for the insertion, but tests
-- and writes the variable Client behind it without the mutex.
use errantdns_io.Base.{
  ℕ, Bool, true, false, ◌+◌, ◌≤◌, ◌<◌, ◌≡◌, ◌⊎◌, refl, ap, ◌∙◌, Option, none, some, List, [], ◌∷◌,
  ◌++◌, length, length-append, count, count-append, arith, ℕ_discrete, inl, inr, subst,
  if◌then◌else◌,
}
use errantdns_io.Base.Table
use errantdns_io.Base.Text.{Bytes, bytes_dec}
use errantdns_io.Base.Values.{values, times, times-put-le, times-delete, get-times}
use errantdns_io.Redis.Registry.{
  Registry, no_clients, or_localhost, insert_client, sets_default, set_default, close_found,
  get_client, or_default, close, close_all,
}
use errantdns_io.Redis.Registry.Safety.{closed_times, pick_client-times, count-values}

-- a call of NewClient that has inserted its client: it is to test the variable, or to write it
pub data Waiting : Type 0 where
  testing : (name : Bytes) (client : ℕ) → Waiting
  writing : (client : ℕ) → Waiting

abbrev pub client_of : Waiting → ℕ
client_of (testing name client) = client
client_of (writing client) = client

-- the variables, and the calls of NewClient that have inserted their client and did not return yet
pub record Running : Type 0 where
  pub registry : Registry
  pub waiting : List Waiting

-- A part of a call. Where the search of NewClient finds a client, the call changes nothing.
pub data Part : Running → Running → Type 0 where
  insert_part :
      {run : Running} (name address : Bytes)
      → Part run (record {
        registry = (insert_client name address run.registry).0;
        waiting = testing name (insert_client name address run.registry).1 ∷ run.waiting;
      })
  test_part :
      {run : Running} (before behind : List Waiting) (name : Bytes) (client : ℕ)
      → run.waiting ≡ before ++ testing name client ∷ behind
      → Part run (record {
        registry = run.registry;
        waiting =
            if sets_default name run.registry
            then before ++ writing client ∷ behind
            else before ++ behind;
      })
  write_part :
      {run : Running} (before behind : List Waiting) (client : ℕ)
      → run.waiting ≡ before ++ writing client ∷ behind
      → Part run (record { registry = set_default client run.registry; waiting = before ++ behind })
  close_part :
      {run : Running} (order : ℕ) (name : Bytes)
      → Part run (record { registry = close order name run.registry; waiting = run.waiting })
  close_all_part :
      {run : Running}
      → Part run (record { registry = close_all run.registry; waiting = run.waiting })

-- what parts of calls lead to
pub data Reaches : Running → Type 0 where
  nothing_yet : Reaches (record { registry = no_clients; waiting = [] })
  then_part : {run run' : Running} → Reaches run → Part run run' → Reaches run'

-- the clients of the calls are made
AllMade : ℕ → List Waiting → Type 0
AllMade made [] = Unit
AllMade made (w ∷ ws) = (client_of w < made) × AllMade made ws

AllMade-le : (m n : ℕ) (ws : List Waiting) → m ≤ n → AllMade m ws → AllMade n ws
unfolding AllMade
AllMade-le m n [] h all = tt
AllMade-le m n (w ∷ ws) h (first, rest) = (omega arith, AllMade-le m n ws h rest)

-- The call in the middle is made, and may be left out, or replaced by one of the same client.
AllMade-middle :
    (made : ℕ) (before behind : List Waiting) (w w' : Waiting)
    → client_of w' ≡ client_of w
    → AllMade made (before ++ w ∷ behind)
    → (client_of w < made) × AllMade made (before ++ behind) × AllMade made (before ++ w' ∷ behind)
unfolding AllMade
AllMade-middle made [] behind w w' same (first, rest) = (first, rest, (omega (arith, same), rest))
AllMade-middle made (v ∷ before) behind w w' same (first, rest) =
    let (here, out, in_place) = AllMade-middle made before behind w w' same rest in
    (here, (first, out), (first, in_place))

-- Each client stands under one name or was closed once, at most; what is not made yet is neither. The
-- variable Client, and what the calls are about to write to it, is made.
record IsSound (run : Running) : Type 0 where
  once : (n : ℕ) → times n run.registry.clients + closed_times n run.registry ≤ 1
  fresh :
      (n : ℕ)
      → length run.registry.made ≤ n
      → times n run.registry.clients + closed_times n run.registry ≡ 0
  default_made : (n : ℕ) → run.registry.default_client ≡ some n → n < length run.registry.made
  waiting_made : AllMade (length run.registry.made) run.waiting

insert-IsSound :
    (name address : Bytes) (run : Running)
    → IsSound run
    → IsSound (record {
      registry = (insert_client name address run.registry).0;
      waiting = testing name (insert_client name address run.registry).1 ∷ run.waiting;
    })
unfolding AllMade
insert-IsSound name address run sound =
    let reg = run.registry in
    let put = λ (n : ℕ). times-put-le bytes_dec n name (length reg.made) reg.clients in
    let longer = length-append reg.made (or_localhost address ∷ []) in
    record {
      once = λ n. ground (arith, sound.once n, sound.fresh n, put n);
      fresh = λ n h. ground (arith, sound.fresh n, longer, put n);
      default_made = λ n h. ground (arith, sound.default_made n, longer);
      waiting_made = (
        omega (arith, longer),
        AllMade-le (length reg.made) _ run.waiting (omega (arith, longer)) sound.waiting_made,
      );
    }

close_found-IsSound :
    (found : Option ℕ) (order : ℕ) (name : Bytes) (run : Running)
    → Table.get bytes_dec name run.registry.clients ≡ found
    → IsSound run
    → IsSound
        (record { registry = close_found found order name run.registry; waiting = run.waiting })
unfolding close_found count
close_found-IsSound none order name run h sound = record {
  once = sound.once;
  fresh = sound.fresh;
  default_made = sound.default_made;
  waiting_made = sound.waiting_made;
}
close_found-IsSound (some client) order name run h sound =
    let rest = Table.delete bytes_dec name run.registry.clients in
    let fewer = λ (n : ℕ). times-delete bytes_dec n name client run.registry.clients h in
    let picked = λ (n : ℕ). pick_client-times order rest n in
    record {
      once = λ n. ground (arith, sound.once n, fewer n);
      fresh = λ n e. ground (arith, sound.fresh n e, fewer n);
      default_made = λ n e. ground (arith, sound.default_made n, picked n, fewer n, sound.fresh n);
      waiting_made = sound.waiting_made;
    }

close_all-IsSound :
    (run : Running)
    → IsSound run
    → IsSound (record { registry = close_all run.registry; waiting = run.waiting })
unfolding close_all times
close_all-IsSound run sound =
    let reg = run.registry in
    let together = λ (n : ℕ).
      count-append ℕ_discrete n (values reg.clients) reg.closed
      ∙ ap (λ z. z + closed_times n reg) (count-values n reg.clients) in
    record {
      once = λ n. ground (arith, sound.once n, together n);
      fresh = λ n e. ground (arith, sound.fresh n e, together n);
      default_made = λ n e. cc;
      waiting_made = sound.waiting_made;
    }

tested :
    (b : Bool) (made : ℕ) (before behind : List Waiting) (name : Bytes) (client : ℕ)
    → AllMade made (before ++ testing name client ∷ behind)
    → AllMade made (if b then before ++ writing client ∷ behind else before ++ behind)
tested true made before behind name client all =
    (AllMade-middle made before behind (testing name client) (writing client) refl all).2
tested false made before behind name client all =
    (AllMade-middle made before behind (testing name client) (writing client) refl all).1

Part-IsSound : {run run' : Running} → Part run run' → IsSound run → IsSound run'
unfolding close
Part-IsSound (insert_part {run = run} name address) sound = insert-IsSound name address run sound
Part-IsSound (test_part {run = run} before behind name client at) sound = record {
  once = sound.once;
  fresh = sound.fresh;
  default_made = sound.default_made;
  waiting_made =
      tested (sets_default name run.registry) _ before behind name client
        (subst (AllMade (length run.registry.made)) at sound.waiting_made);
}
Part-IsSound (write_part {run = run} before behind client at) sound =
    let (here, out, _) =
      AllMade-middle (length run.registry.made) before behind (writing client) (writing client) refl
        (subst (AllMade (length run.registry.made)) at sound.waiting_made) in
    record {
      once = sound.once;
      fresh = sound.fresh;
      default_made = λ n e. ground (arith, here, e);
      waiting_made = out;
    }
Part-IsSound (close_part {run = run} order name) sound =
    close_found-IsSound _ order name run refl sound
Part-IsSound (close_all_part {run = run}) sound = close_all-IsSound run sound

Reaches-IsSound : {run : Running} → Reaches run → IsSound run
unfolding AllMade count times
Reaches-IsSound nothing_yet = record {
  once = λ n. omega arith;
  fresh = λ n h. refl;
  default_made = λ n h. cc;
  waiting_made = tt;
}
Reaches-IsSound (then_part parts part) = Part-IsSound part (Reaches-IsSound parts)

handed_out :
    (name : Bytes) (run : Running) (found : Option ℕ) (n : ℕ)
    → IsSound run
    → Table.get bytes_dec name run.registry.clients ≡ found
    → or_default found run.registry.default_client ≡ some n
    → (n < length run.registry.made)
      × ((found ≡ some n) × (count ℕ_discrete n run.registry.closed ≡ 0)
          ⊎ (found ≡ none) × (run.registry.default_client ≡ some n))
handed_out name run none n sound h e = (sound.default_made n e, inr (refl, e))
handed_out name run (some client) n sound h e =
    let named = get-times bytes_dec name client run.registry.clients h in
    (
      ground (arith, named, e, sound.fresh client),
      inl (e, ground (arith, named, e, sound.once client)),
    )

-- After any parts of calls of NewClient, Close and CloseAll, in any order: a client that GetClient of a
-- name returns is made; and it is the one registered under the name, which was not closed, or no client
-- is registered under the name and it is the value of the variable Client.
pub get_client-registered :
    (run : Running) (name : Bytes) (n : ℕ)
    → Reaches run
    → get_client name run.registry ≡ some n
    → (n < length run.registry.made)
      × ((Table.get bytes_dec name run.registry.clients ≡ some n)
            × (count ℕ_discrete n run.registry.closed ≡ 0)
          ⊎ (Table.get bytes_dec name run.registry.clients ≡ none)
            × (run.registry.default_client ≡ some n))
unfolding get_client
get_client-registered run name n parts e = handed_out name run _ n (Reaches-IsSound parts) refl e
