-- ===== src/RoundRobin/Race.antt =====
-- Two processes that run `acquireHold` for one slot at the same time: the read and the write of
-- Redis are two steps, and the other process may run in between.
use ms_calendar_service.Base.{
  ◌≡◌, refl, Option, none, some, Bool, true, false, List, [], ◌∷◌, inl, inr, Option-cases,
}
use ms_calendar_service.Redis.{RedisClient, redis_get, redis_set}
use ms_calendar_service.RoundRobin.{Stored, flag, Slot, slot_key, acquire_hold}

pub data Phase : Type 0 where
  idle saw_free acquired refused : Phase

abbrev after_read : Option Stored → Phase
after_read none = saw_free
after_read (some v) = refused

pub data Side : Type 0 where
  left right : Side

module _ (c : RedisClient Stored) (p : Slot) where
  -- One step of a process: its read, or its write.
  unfoldable pub process_step : Phase → c.Store → Phase × c.Store
  process_step idle r = (after_read (redis_get c true (slot_key p) r), r)
  process_step saw_free r = (acquired, redis_set c true (slot_key p) flag (some 60) r)
  process_step acquired r = (acquired, r)
  process_step refused r = (refused, r)

  unfoldable pub run_schedule : List Side → Phase → Phase → c.Store → Phase × Phase × c.Store
  run_schedule [] a b r = (a, b, r)
  run_schedule (left ∷ sides) a b r = let (a', r') = process_step a r in run_schedule sides a' b r'
  run_schedule (right ∷ sides) a b r = let (b', r') = process_step b r in run_schedule sides a b' r'

  abbrev outcome_of : Bool → Phase
  outcome_of true = acquired
  outcome_of false = refused

  -- A process that is not disturbed does what `acquireHold` does.
  pub process_step-acquire_hold :
      (r : c.Store)
      → let (a, b, r') = run_schedule (left ∷ left ∷ []) idle idle r in
        let (ok, r'') = acquire_hold c true p none r in (a ≡ outcome_of ok) × (r' ≡ r'')
  unfolding run_schedule process_step acquire_hold redis_get redis_set
  process_step-acquire_hold r = elim (Option-cases (c.get (slot_key p) r)) [
    | inl e ↦ rw (e, acquire_hold) (refl, refl)
    | inr (v, e) ↦ rw (e, acquire_hold) (refl, refl)
  ]

  -- The hold does not exclude a process that runs at the same time: from any store in which the slot
  -- is free there is a schedule of the two processes after which both have acquired it.
  pub acquire_hold_race :
      (r : c.Store)
      → c.get (slot_key p) r ≡ none
      → (sides : List Side) × ((run_schedule sides idle idle r).0 ≡ acquired)
        × ((run_schedule sides idle idle r).1 ≡ acquired)
  unfolding run_schedule process_step redis_get
  acquire_hold_race r h = (left ∷ right ∷ left ∷ right ∷ [], rw h refl, rw h refl)
