-- ===== src/Redis.antt =====
-- The cache service (src/services/@redis/cache/redis.service.ts). The Redis client is a parameter:
-- its commands, and what its documentation says of them while no key expires. `V` stands for the
-- values that a caller stores, already encoded.
use text.Mathlib.Text.{◌==◌ as str_eq}
use ms_calendar_service.Base.{
  ℕ, ◌≡◌, refl, String, Option, none, some, Bool, true, false, if◌then◌else◌, ltb,
}

pub record RedisClient (V : Type 0) : Type 1 where
  pub Store : Type 0
  pub get : String → Store → Option V
  pub set : String → V → Option ℕ → Store → Store
  pub set_nx : String → V → ℕ → Store → Bool × Store
  pub del : String → Store → Store

pub record IsRedis {V : Type 0} (c : RedisClient V) : Type 0 where
  pub get-set :
      (k j : String) (v : V) (ttl : Option ℕ) (s : c.Store)
      → c.get j (c.set k v ttl s) ≡ (if str_eq k j then some v else c.get j s)
  pub get-del :
      (k j : String) (s : c.Store) → c.get j (c.del k s) ≡ (if str_eq k j then none else c.get j s)
  pub set_nx_free :
      (k : String) (v : V) (ttl : ℕ) (s : c.Store)
      → c.get k s ≡ none
      → c.set_nx k v ttl s ≡ (true, c.set k v (some ttl) s)
  pub set_nx_taken :
      (k : String) (v w : V) (ttl : ℕ) (s : c.Store)
      → c.get k s ≡ some w
      → c.set_nx k v ttl s ≡ (false, s)

-- `if (ttl)`: a missing or zero time to live sets no expiry.
abbrev pub truthy_ttl : Option ℕ → Option ℕ
truthy_ttl none = none
truthy_ttl (some n) = if ltb 0 n then some n else none

-- The service; `enabled` is false where Redis is switched off or has no client.
module _ {V : Type 0} (c : RedisClient V) (enabled : Bool) where
  unfoldable pub redis_set : String → V → Option ℕ → c.Store → c.Store
  redis_set key v ttl s = if enabled then c.set key v (truthy_ttl ttl) s else s

  unfoldable pub redis_set_if_not_exists : String → V → ℕ → c.Store → Bool × c.Store
  redis_set_if_not_exists key v ttl s = if enabled then c.set_nx key v ttl s else (true, s)

  unfoldable pub redis_get : String → c.Store → Option V
  redis_get key s = if enabled then c.get key s else none

  unfoldable pub redis_delete : String → c.Store → c.Store
  redis_delete key s = if enabled then c.del key s else s

-- A client whose store is a function: it shows that the laws can hold.
abbrev pub table_client : (V : Type 0) → RedisClient V
table_client V = record {
  Store = String → Option V;
  get = λ k s. s k;
  set = λ k v ttl s j. if str_eq k j then some v else s j;
  set_nx = λ k v ttl s. elim (s k) [
    | none ↦ (true, λ j. if str_eq k j then some v else s j)
    | some w ↦ (false, s)
  ];
  del = λ k s j. if str_eq k j then none else s j;
}

pub table_client-IsRedis : {V : Type 0} → IsRedis (table_client V)
table_client-IsRedis = record {
  get-set = λ k j v ttl s. refl;
  get-del = λ k j s. refl;
  set_nx_free = λ k v ttl s h. rw h;
  set_nx_taken = λ k v w ttl s h. rw h;
}
