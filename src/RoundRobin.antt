-- ===== src/RoundRobin.antt =====
-- The weighted round robin over professionals and the short holds of a slot
-- (src/services/@redis/cache/strategies/roundRobin/round-robin.strategy.ts), and their use by
-- `chooseStaffWithRR` (src/features/event-client/services/create-event/event-client-
-- write.service.ts). The object of entries is a function from the professional's id; a stored text
-- that is no JSON is `corrupt`.
pub mod Texts
pub mod Entries
pub mod Sorted
pub mod Leader
pub mod Init
pub mod Pool
pub mod Pick
pub mod Total
pub mod Holds
pub mod Race
mod Examples
use text.Mathlib.Text.{◌==◌ as str_eq}
use ms_calendar_service.Base.{
  ℕ, ◌+◌, String, Option, none, some, Bool, true, false, List, [], ◌∷◌, if◌then◌else◌, ltb, keep,
  min,
}
use ms_calendar_service.Base.Int.{ℤ, pos, negsuc, ◌+ℤ◌, ◌-ℤ◌, ltb_ℤ}
use ms_calendar_service.Redis.{RedisClient, redis_get, redis_set, redis_delete}
use ms_calendar_service.RoundRobin.Texts.{sort_texts, join}

pub record Entry : Type 0 where
  pub weight : ℕ
  pub current : ℤ

abbrev pub State : Type 0
State = String → Option Entry

abbrev pub no_state : State
no_state u = none

abbrev pub update : State → String → Entry → State
update s u e v = if str_eq u v then some e else s v

-- What the strategy keeps in Redis.
pub data Stored : Type 0 where
  rr_state : State → Stored
  corrupt : Stored
  flag : Stored

-- The parse of `getState`, on what Redis returned.
unfoldable pub parse_state : Option Stored → State
parse_state (some (rr_state s)) = s
parse_state (some corrupt) = no_state
parse_state (some flag) = no_state
parse_state none = no_state

-- `Number.isFinite(raw) ? Math.max(0, Math.min(100, Number(raw))) : 100`
unfoldable pub normalize_weight : Option ℤ → ℕ
normalize_weight none = 100
normalize_weight (some (pos n)) = min 100 n
normalize_weight (some (negsuc n)) = 0

-- One round of step 2: the entry is created, or its weight is brought up to date.
unfoldable pub init_entry : ℕ → Option Entry → Entry
init_entry weight none = record { weight = weight; current = pos 0 }
init_entry weight (some e) = record e { weight = weight }

unfoldable pub init_state : (String → Option ℤ) → List String → State → State
init_state weights [] s = s
init_state weights (u ∷ us) s =
    init_state weights us (update s u (init_entry (normalize_weight (weights u)) (s u)))

-- `state[u]?.weight ?? 0`, and the credit of an entry.
abbrev pub weight_at : Option Entry → ℕ
weight_at none = 0
weight_at (some e) = e.weight

abbrev pub weight_of : State → String → ℕ
weight_of s u = weight_at (s u)

abbrev pub current_at : Option Entry → ℤ
current_at none = pos 0
current_at (some e) = e.current

abbrev pub current_of : State → String → ℤ
current_of s u = current_at (s u)

abbrev pub pool_of : State → List String → List String
pool_of s eligibles = keep (λ u. ltb 0 (weight_of s u)) eligibles

unfoldable pub total_weight : State → List String → ℕ
total_weight s [] = 0
total_weight s (u ∷ us) = weight_of s u + total_weight s us

-- The variables of the loop of step 4; `none` is `-Infinity`.
pub record Turn : Type 0 where
  pub state : State
  pub max_cur : Option ℤ
  pub chosen : Option String

abbrev pub exceeds : ℤ → Option ℤ → Bool
exceeds c none = true
exceeds c (some m) = ltb_ℤ m c

-- One round of step 4.
unfoldable pub advance : String → Turn → Turn
advance u t =
    let c = current_of t.state u +ℤ pos (weight_of t.state u) in
    let s = update t.state u (record { weight = weight_of t.state u; current = c }) in
    if exceeds c t.max_cur
    then record { state = s; max_cur = some c; chosen = some u }
    else record t { state = s }

unfoldable pub take_turns : List String → Turn → Turn
take_turns [] t = t
take_turns (u ∷ us) t = take_turns us (advance u t)

-- `state[chosen].current -= total`
unfoldable pub pay : ℕ → String → State → State
pay total u s =
    update s u (record { weight = weight_of s u; current = current_of s u -ℤ pos total })

-- Steps 4 and 5 on a pool; `none` where nobody is chosen and nothing is saved.
unfoldable pub settle : ℕ → Turn → Option (String × State)
settle total t = elim t.chosen [
  | none ↦ none
  | some u ↦ if str_eq u "" then none else some (u, pay total u t.state)
]

unfoldable pub choose_from : State → List String → Option (String × State)
choose_from s pool =
    let total = total_weight s pool in
    if ltb 0 total
    then settle total
        (take_turns (sort_texts pool) (record { state = s; max_cur = none; chosen = none }))
    else none

-- The choice of `pickWeightedSmoothRR` from the state that was read.
unfoldable pub pick : (String → Option ℤ) → List String → State → Option (String × State)
pick weights [] s = none
pick weights (e ∷ es) s =
    let s' = init_state weights (e ∷ es) s in choose_from s' (pool_of s' (e ∷ es))

abbrev pub state_key : String → String → String
state_key ws svc = join ("rr" ∷ ws ∷ svc ∷ [])

abbrev pub hold_key : String → String → String → String → String
hold_key ws svc start end = join ("hold" ∷ ws ∷ svc ∷ start ∷ end ∷ [])

-- The slot that a hold is for.
pub record Slot : Type 0 where
  pub id_workspace : String
  pub id_service : String
  pub start_iso : String
  pub end_iso : String

abbrev pub slot_key : Slot → String
slot_key p = hold_key p.id_workspace p.id_service p.start_iso p.end_iso

module _ (c : RedisClient Stored) (enabled : Bool) where
  unfoldable pub get_state : String → String → c.Store → State
  get_state ws svc r = parse_state (redis_get c enabled (state_key ws svc) r)

  unfoldable pub reset_state : String → String → c.Store → c.Store
  reset_state ws svc r = redis_delete c enabled (state_key ws svc) r

  -- `if (ttlSec && ttlSec > 0)` is the service's own test of a time to live.
  unfoldable pub save_state : String → State → Option ℕ → c.Store → c.Store
  save_state key s ttl r = redis_set c enabled key (rr_state s) ttl r

  -- `pickWeightedSmoothRR`: the state is saved only if somebody is chosen.
  unfoldable pub pick_weighted_smooth_rr :
      String
      → String
      → List String
      → (String → Option ℤ)
      → Option ℕ
      → c.Store
      → Option String × c.Store
  pick_weighted_smooth_rr ws svc eligibles weights ttl r =
      elim (pick weights eligibles (get_state ws svc r)) [
        | none ↦ (none, r)
        | some (u, s) ↦ (some u, save_state (state_key ws svc) s ttl r)
      ]

  unfoldable pub acquire_hold : Slot → Option ℕ → c.Store → Bool × c.Store
  acquire_hold p ttl r = elim (redis_get c enabled (slot_key p) r) [
    | some existing ↦ (false, r)
    | none ↦ (
      true,
      redis_set c enabled (slot_key p) flag (elim ttl [ none ↦ some 60 | some n ↦ some n ]) r,
    )
  ]

  unfoldable pub release_hold : Slot → c.Store → c.Store
  release_hold p r = redis_delete c enabled (slot_key p) r

  -- The end of `chooseStaffWithRR`: without a choice the hold is released.
  unfoldable pub settle_hold : Slot → Option String → c.Store → Option String × c.Store
  settle_hold p none r = (none, release_hold p r)
  settle_hold p (some u) r = (some u, r)

  -- `chooseStaffWithRR`: the hold, the choice, and the release if nobody is chosen. The times to
  -- live are a minute and two weeks, in seconds.
  unfoldable pub choose_staff_with_rr :
      Slot → List String → (String → Option ℤ) → c.Store → Option String × c.Store
  choose_staff_with_rr p [] weights r = (none, r)
  choose_staff_with_rr p (e ∷ es) weights r =
      let (acquired, held) = acquire_hold p (some 60) r in
      let (chosen, saved) =
        pick_weighted_smooth_rr p.id_workspace p.id_service (e ∷ es) weights (some 1209600) held in
      let outcome = settle_hold p chosen saved in if acquired then outcome else (none, r)
