-- ===== src/Redis/Registry/Safety.antt =====
-- internal/redis/init.go: calls one after another hand out no closed client.
use errantdns_io.Base.{
  ℕ, zero, suc, ◌+◌, ◌≤◌, ◌<◌, ◌≡◌, refl, ap, ◌∙◌, Option, none, some, [], ◌∷◌, length,
  length-append, count, count-append, arith, ℕ_discrete,
}
use errantdns_io.Base.Table
use errantdns_io.Base.Table.{Table}
use errantdns_io.Base.Text.{Bytes, bytes_dec}
use errantdns_io.Base.Values.{values, times, times-put-le, times-delete, get-times}
use errantdns_io.Redis.Registry.{
  Registry, no_clients, or_localhost, make_client, use_or_make, new_client, close_found, get_client,
  or_default, pick_client, close, close_all, Step, new_step, close_step, close_all_step, Reachable,
  start, after,
}

-- how often a client was closed
abbrev pub closed_times : ℕ → Registry → ℕ
closed_times n reg = count ℕ_discrete n reg.closed

-- Each client stands under one name or was closed once, at most; what is not made yet is neither.
-- The default client is made and not closed, and there is one if there are clients.
pub record IsSafe (reg : Registry) : Type 0 where
  pub once : (n : ℕ) → times n reg.clients + closed_times n reg ≤ 1
  pub fresh : (n : ℕ) → length reg.made ≤ n → times n reg.clients + closed_times n reg ≡ 0
  pub default_made : (n : ℕ) → reg.default_client ≡ some n → n < length reg.made
  pub default_open : (n : ℕ) → reg.default_client ≡ some n → closed_times n reg ≡ 0
  pub default_some : reg.default_client ≡ none → reg.clients ≡ []

pub pick_client-times :
    (order : ℕ) (t : Table Bytes ℕ) (n : ℕ) → pick_client order t ≡ some n → 0 < times n t
unfolding pick_client times
pick_client-times order [] n h = cc
pick_client-times zero ((name, c) ∷ t) n h = ground arith
pick_client-times (suc k) ((name, c) ∷ t) n h = ground (arith, pick_client-times k t n)

pick_client-none : (order : ℕ) (t : Table Bytes ℕ) → pick_client order t ≡ none → t ≡ []
unfolding pick_client
pick_client-none order [] h = refl
pick_client-none zero ((name, c) ∷ t) h = cc
pick_client-none (suc k) ((name, c) ∷ t) h = ground arith

delete_none : (name : Bytes) (t : Table Bytes ℕ) → t ≡ [] → Table.delete bytes_dec name t ≡ []
unfolding Table.delete
delete_none name t h = rw h refl

pub count-values : (n : ℕ) (t : Table Bytes ℕ) → count ℕ_discrete n (values t) ≡ times n t
unfolding count times
count-values n [] = refl
count-values n ((name, c) ∷ t) = ground (arith, count-values n t)

no_clients-IsSafe : IsSafe no_clients
unfolding count times
no_clients-IsSafe = record {
  once = λ n. omega arith;
  fresh = λ n h. refl;
  default_made = λ n h. cc;
  default_open = λ n h. refl;
  default_some = λ h. refl;
}

make_client-IsSafe :
    (name address : Bytes) (reg : Registry) → IsSafe reg → IsSafe (make_client name address reg).0
unfolding make_client
make_client-IsSafe name address reg safe =
    let client = length reg.made in
    record {
      once = λ n.
          ground
            (arith, safe.once n, safe.fresh n, times-put-le bytes_dec n name client reg.clients);
      fresh = λ n h. ground (
        arith,
        safe.fresh n,
        length-append reg.made (or_localhost address ∷ []),
        times-put-le bytes_dec n name client reg.clients,
      );
      default_made = λ n h.
          ground (arith, safe.default_made n, length-append reg.made (or_localhost address ∷ []));
      default_open = λ n h. ground (arith, safe.default_open n, safe.fresh n);
      default_some = λ h. ground arith;
    }

use_or_make-IsSafe :
    (found : Option ℕ) (name address : Bytes) (reg : Registry)
    → IsSafe reg
    → IsSafe (use_or_make found name address reg).0
unfolding use_or_make
use_or_make-IsSafe none name address reg safe = make_client-IsSafe name address reg safe
use_or_make-IsSafe (some client) name address reg safe = safe

close_found-IsSafe :
    (found : Option ℕ) (order : ℕ) (name : Bytes) (reg : Registry)
    → Table.get bytes_dec name reg.clients ≡ found
    → IsSafe reg
    → IsSafe (close_found found order name reg)
unfolding close_found count
close_found-IsSafe none order name reg h safe = safe
close_found-IsSafe (some client) order name reg h safe =
    let rest = Table.delete bytes_dec name reg.clients in
    let fewer = λ (n : ℕ). times-delete bytes_dec n name client reg.clients h in
    let picked = λ (n : ℕ). pick_client-times order rest n in
    record {
      once = λ n. ground (arith, safe.once n, fewer n);
      fresh = λ n e. ground (arith, safe.fresh n e, fewer n);
      default_made = λ n e. ground (arith, safe.default_made n, picked n, fewer n, safe.fresh n);
      default_open = λ n e. ground (
        arith,
        safe.default_open n,
        picked n,
        fewer n,
        safe.once n,
        fewer client,
        safe.once client,
      );
      default_some = λ e.
          ground
            (arith, safe.default_some, pick_client-none order rest, delete_none name reg.clients);
    }

close_all-IsSafe : (reg : Registry) → IsSafe reg → IsSafe (close_all reg)
unfolding close_all times
close_all-IsSafe reg safe =
    let together = λ (n : ℕ).
      count-append ℕ_discrete n (values reg.clients) reg.closed
      ∙ ap (λ z. z + closed_times n reg) (count-values n reg.clients) in
    record {
      once = λ n. ground (arith, safe.once n, together n);
      fresh = λ n e. ground (arith, safe.fresh n e, together n);
      default_made = λ n e. cc;
      default_open = λ n e. cc;
      default_some = λ e. refl;
    }

Step-IsSafe : {reg reg' : Registry} → Step reg reg' → IsSafe reg → IsSafe reg'
unfolding new_client close
Step-IsSafe (new_step name address use_existing) safe = use_or_make-IsSafe _ name address _ safe
Step-IsSafe (close_step order name) safe = close_found-IsSafe _ order name _ refl safe
Step-IsSafe close_all_step safe = close_all-IsSafe _ safe

Reachable-IsSafe : {reg : Registry} → Reachable reg → IsSafe reg
Reachable-IsSafe start = no_clients-IsSafe
Reachable-IsSafe (after steps step) = Step-IsSafe step (Reachable-IsSafe steps)

found_open :
    (name : Bytes) (reg : Registry) (found : Option ℕ) (n : ℕ)
    → IsSafe reg
    → Table.get bytes_dec name reg.clients ≡ found
    → or_default found reg.default_client ≡ some n
    → (n < length reg.made) × (closed_times n reg ≡ 0)
found_open name reg none n safe h e = (safe.default_made n e, safe.default_open n e)
found_open name reg (some client) n safe h e =
    let named = get-times bytes_dec name client reg.clients h in
    ground (arith, named, safe.once client, safe.fresh client)

-- After any calls of NewClient, Close and CloseAll, each of which returns before the next one begins,
-- and in any order of the map, GetClient of any name returns a client that is made and was not closed, or nothing if there is no client at all.
pub get_client-open :
    (reg : Registry) (name : Bytes)
    → Reachable reg
    → ((n : ℕ)
        → get_client name reg ≡ some n
        → (n < length reg.made) × (count ℕ_discrete n reg.closed ≡ 0))
      × (get_client name reg ≡ none → reg.clients ≡ [])
unfolding get_client
get_client-open reg name steps =
    let safe = Reachable-IsSafe steps in
    (λ n e. found_open name reg _ n safe refl e, λ e. ground (arith, safe.default_some))
