-- ===== src/RoundRobin/Examples.antt =====
-- Runs of the round robin and of the holds, and their theorems at such inputs.
use mathlib.Core.List.{Memᴰ}
use text.Mathlib.Text.{◌==◌ as str_eq}
use ms_calendar_service.Base.{
  ◌≡◌, String, Option, ◌≢◌, if◌then◌else◌, true, false, ap, sym, ◌∙◌, none, some, List, [], ◌∷◌,
  true, false, refl, arith,
}
use ms_calendar_service.Base.Int.{ℤ, pos, negsuc, ◌+ℤ◌, ◌-ℤ◌}
use ms_calendar_service.Redis.{
  table_client, table_client-IsRedis, redis_get, redis_set, redis_delete, RedisClient,
}
use ms_calendar_service.RoundRobin.{
  Stored, State, no_state, Slot, parse_state, normalize_weight, init_entry, init_state,
  total_weight, advance, take_turns, pay, settle, choose_from, pick, get_state, save_state,
  pick_weighted_smooth_rr, acquire_hold, release_hold, settle_hold, choose_staff_with_rr,
}
use ms_calendar_service.RoundRobin.Texts.{join, text_le, insert_text, sort_texts}
use ms_calendar_service.RoundRobin.Entries.{Distinct}
use ms_calendar_service.RoundRobin.Pick.{IsFair, pick-IsFair}
use ms_calendar_service.RoundRobin.Total.{pick_total}
use ms_calendar_service.RoundRobin.Holds.{Call, run_calls, choose_staff_with_rr_once}
use ms_calendar_service.RoundRobin.Race.{Side, run_schedule, idle, acquired, acquire_hold_race}

abbrev client : RedisClient Stored
client = table_client Stored

abbrev team : List String
team = "bob" ∷ "ana" ∷ []

-- Ana has twice the weight of Bob.
abbrev weights : String → Option ℤ
weights u = if str_eq u "ana" then some (pos 100) else some (pos 50)

rr_run : Unit {0}
unfolding parse_state normalize_weight init_entry init_state total_weight advance take_turns pay
    settle choose_from pick get_state save_state pick_weighted_smooth_rr acquire_hold release_hold
    settle_hold choose_staff_with_rr redis_get redis_set redis_delete join text_le insert_text
    sort_texts ◌+ℤ◌ ◌-ℤ◌
rr_run = tt

abbrev state_in : Option (String × State) → State
state_in none = no_state
state_in (some (u, s)) = s

abbrev chosen_in : Option (String × State) → Option String
chosen_in none = none
chosen_in (some (u, s)) = some u

abbrev first_state : State
first_state = state_in (pick weights team no_state)

abbrev second_state : State
second_state = state_in (pick weights team first_state)

-- Ana, Bob, Ana.
turns_test :
    (chosen_in (pick weights team no_state) ≡ some "ana")
    × (chosen_in (pick weights team first_state) ≡ some "bob")
    × (chosen_in (pick weights team second_state) ≡ some "ana")
unfolding rr_run
turns_test = (refl, refl, refl)

team-Distinct : Distinct team
team-Distinct = ((different, tt), (tt, tt))
  where
    different : ◌≢◌ {A = String} "bob" "ana"
    different e = let k : false ≡ true = ap (λ (x : String). str_eq x "ana") e in cc k

pick-IsFair_example : IsFair weights team no_state "ana" first_state
unfolding rr_run
pick-IsFair_example = pick-IsFair weights team no_state "ana" first_state team-Distinct refl

named : (x : String) → str_eq x "" ≡ false → x ≢ ""
named x h e = let k : true ≡ false = ap (λ (y : String). str_eq y "") (sym e) ∙ h in cc k

pick_total_example : (u : String) × (s' : State) × (pick weights team no_state ≡ some (u, s'))
unfolding rr_run
pick_total_example =
    pick_total weights team no_state "bob" team-Distinct (named "bob" refl, (named "ana" refl, tt))
      (Memᴰ.head refl) (omega arith)

abbrev slot : Slot
slot = record {
  id_workspace = "w";
  id_service = "cut";
  start_iso = "2026-03-02T09:00:00.000Z";
  end_iso = "2026-03-02T09:30:00.000Z";
}

abbrev nothing_stored : String → Option Stored
nothing_stored k = none

abbrev booked : Option String × (String → Option Stored)
booked = choose_staff_with_rr client true slot team weights nothing_stored

-- A call for the next slot and one for the same.
abbrev next_slot : Slot
next_slot = record slot { start_iso = slot.end_iso; end_iso = "2026-03-02T10:00:00.000Z" }

abbrev later : List (Call client table_client-IsRedis)
later =
    record { slot = next_slot; eligible = team; weights = weights }
    ∷ record { slot = slot; eligible = team; weights = weights }
    ∷ []

abbrev booked_later : String → Option Stored
booked_later = run_calls client table_client-IsRedis later booked.1

choose_once_example :
    choose_staff_with_rr client true slot team weights booked_later ≡ (none, booked_later)
unfolding rr_run
choose_once_example =
    choose_staff_with_rr_once client table_client-IsRedis slot team team weights weights
      nothing_stored booked.1 "ana" later refl

abbrev no_weights : String → Option ℤ
no_weights u = some (negsuc 4)

acquire_hold_race_example :
    (sides : List Side) × ((run_schedule client slot sides idle idle nothing_stored).0 ≡ acquired)
    × ((run_schedule client slot sides idle idle nothing_stored).1 ≡ acquired)
acquire_hold_race_example = acquire_hold_race client slot nothing_stored refl
