-- ===== src/Slots/Examples.antt =====
-- Days of one hour and a half, and the theorems at them.
use mathlib.Core.List.{Memᴰ}
use text.Mathlib.Text.{◌==◌ as str_eq}
use ms_calendar_service.Base.{
  ℕ, ◌≡◌, String, none, some, true, false, List, [], ◌∷◌, if◌then◌else◌, ◌==◌, refl, arith, any,
  ◌≤◌, ◌<◌, ◌+◌, ◌*◌,
}
use ms_calendar_service.RoundRobin.Texts.{text_le}
use ms_calendar_service.Base.Sort.{sort_by}
use ms_calendar_service.Availability.Zone.{utc, utc-IsZone}
use ms_calendar_service.Slots.Grid.{align_to_grid_ceil-least}
use ms_calendar_service.Availability.Windows.{Window, window, merge_from, merge_touching_windows}
use ms_calendar_service.Slots.{
  Clock, TimeSlot, slot_of, align_to_grid_ceil, BookingWindow, grid_loop, dedupe, insert_slot,
  sort_slots, same_texts, dedupe_and_sort_slots,
}
use ms_calendar_service.Slots.Order.{IsInOrder}
use ms_calendar_service.Slots.Texts.{IsUnique, dedupe_and_sort_slots_lem}
use ms_calendar_service.Slots.Single.{
  ServiceDay, GroupEvent, keyed_event, group_slot, group_windows, windows_for, first_start,
  slots_of_windows, single_slots,
}
use ms_calendar_service.Slots.Offered.{IsSingle, single_slots-Collects}
use ms_calendar_service.Slots.Multi.{MultiDay, multi_slots}
use ms_calendar_service.Slots.Sequence.{IsMultiSlot, multi_slots-Collects}

-- The texts of three instants, an hour's half apart.
abbrev clock_text : ℕ → String
clock_text t = if t == 0 then "00" else if t == 1800000 then "30" else "60"

abbrev clock : Clock
clock = record {
  client_iso = clock_text;
  client_label = clock_text;
  local_iso = clock_text;
  parse_local = λ s. if str_eq s "00" then 0 else if str_eq s "30" then 1800000 else 3600000;
}

abbrev half_hours : ServiceDay
half_hours = record {
  duration = 30;
  capacity = 1;
  step_minutes = 30;
  day_start = 0;
  is_today = false;
  rounded_now = 0;
  id_client = none;
}

abbrev any_start : BookingWindow
any_start = record { earliest = 0; latest = 86399999 }

abbrev one_hour : String → List Window
one_hour uid = window 0 3600000 ∷ []

single_slots_example :
    (xs : List TimeSlot) × (single_slots utc clock any_start half_hours one_hour [] ("ana" ∷ [])
      ≡ some xs)
    × ((x : TimeSlot)
        → (Memᴰ x xs
            → IsSingle utc half_hours (omega arith) clock any_start one_hour [] ("ana" ∷ []) x)
          × (IsSingle utc half_hours (omega arith) clock any_start one_hour [] ("ana" ∷ []) x
              → Memᴰ x xs))
single_slots_example =
    single_slots-Collects utc half_hours (omega arith) clock any_start one_hour [] ("ana" ∷ [])

slots_run : Unit {0}
unfolding align_to_grid_ceil grid_loop dedupe insert_slot sort_slots text_le keyed_event group_slot
    group_windows slots_of_windows single_slots
slots_run = tt

-- Two starts fit in the hour.
half_hours_test :
    single_slots utc clock any_start half_hours one_hour [] ("ana" ∷ [])
    ≡ some (slot_of clock 0 1800000 none ∷ slot_of clock 1800000 3600000 none ∷ [])
unfolding slots_run
half_hours_test = refl

abbrev two_slots : List TimeSlot
two_slots =
    slot_of clock 1800000 3600000 none
    ∷ slot_of clock 0 1800000 none
    ∷ slot_of clock 1800000 3600000 none
    ∷ []

two_slots_example :
    IsUnique (dedupe_and_sort_slots two_slots)
    × IsInOrder (dedupe_and_sort_slots two_slots)
    × ((s : TimeSlot) → Memᴰ s (dedupe_and_sort_slots two_slots) → Memᴰ s two_slots)
    × ((s : TimeSlot)
        → Memᴰ s two_slots
        → any (same_texts s) (dedupe_and_sort_slots two_slots) ≡ true)
two_slots_example = dedupe_and_sort_slots_lem two_slots

two_slots_test :
    dedupe_and_sort_slots two_slots
    ≡ slot_of clock 0 1800000 none ∷ slot_of clock 1800000 3600000 none ∷ []
unfolding slots_run
two_slots_test = refl

-- A class for two in the second half of the hour, and starts every quarter of an hour.
abbrev quarters : ServiceDay
quarters = record half_hours { capacity = 2; step_minutes = 15 }

abbrev class : GroupEvent
class = record { user_id = "ana"; start = 1800000; end = 3600000; count = 2; members = [] }

abbrev first_half : String → List Window
first_half uid = window 0 1800000 ∷ []

merged_test : windows_for utc quarters "ana" (class ∷ []) (first_half "ana") ≡ window 0 3600000 ∷ []
unfolding group_windows merge_touching_windows merge_from sort_by
merged_test = refl

start_test : first_start utc quarters (window 0 3600000) ≡ 0
unfolding align_to_grid_ceil
start_test = refl

abbrev two_services : MultiDay
two_services = record {
  step_minutes = 30;
  day_start = 0;
  day_end = 86399999;
  attendees =
      record { service_id = "cut"; duration_min = 30 }
      ∷ record { service_id = "dye"; duration_min = 30 }
      ∷ [];
  eligible = λ s. "ana" ∷ [];
  free = one_hour;
}

multi_example :
    (xs : List TimeSlot) × (multi_slots utc clock any_start two_services ≡ some xs)
    × ((x : TimeSlot)
        → (Memᴰ x xs → IsMultiSlot utc clock any_start two_services (omega arith) x)
          × (IsMultiSlot utc clock any_start two_services (omega arith) x → Memᴰ x xs))
multi_example = multi_slots-Collects utc clock any_start two_services (omega arith)

align_example :
    (900000 ≤ align_to_grid_ceil utc 900000 30 0)
    × (align_to_grid_ceil utc 900000 30 0 < 900000 + 30 * 60000)
    × ((q : ℕ) × (align_to_grid_ceil utc 900000 30 0 ≡ 0 + q * (30 * 60000)))
align_example =
    align_to_grid_ceil-least utc utc-IsZone 900000 30 0 (omega arith) (omega arith) refl refl
