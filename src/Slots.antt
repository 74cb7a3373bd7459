-- ===== src/Slots.antt =====
-- The time slots that a customer is offered (`publicGetAvailableTimeSlots_SPECIAL` of
-- src/services/@database/event/event-times.service.ts, with the helpers alignToGridCeil_SPECIAL and
-- dedupeAndSortSlots_SPECIAL of src/services/@database/event/availability-special.service.ts). The
-- loops over a grid run on fuel, and `none` is a run out of it.
pub mod Single
pub mod Multi
pub mod Day
pub mod Answer
pub mod Grid
pub mod Order
pub mod Texts
pub mod Offered
pub mod Individual
pub mod Planned
pub mod Sequence
mod Examples
use text.Mathlib.Text.{◌==◌ as str_eq}
use ms_calendar_service.Base.{
  ℕ, zero, suc, ◌+◌, ◌-◌, ◌*◌, ◌/◌, ◌%◌, String, Option, none, some, Bool, ◌&&◌, List, [], ◌∷◌,
  ◌++◌, if◌then◌else◌, leb, ◌==◌, any,
}
use ms_calendar_service.RoundRobin.Texts.{text_le}
use ms_calendar_service.Availability.Zone.{Zone, add_minutes, minute_ms}

-- The texts of an instant: in the client's zone, and in the workspace's zone with its parser.
pub record Clock : Type 0 where
  pub client_iso : ℕ → String
  pub client_label : ℕ → String
  pub local_iso : ℕ → String
  pub parse_local : String → ℕ

-- `label_participant` is the booked seats and the capacity.
pub record TimeSlot : Type 0 where
  pub start_local_iso : String
  pub end_local_iso : String
  pub label : String
  pub label_participant : Option (ℕ × ℕ)

abbrev pub slot_of : Clock → ℕ → ℕ → Option (ℕ × ℕ) → TimeSlot
slot_of clock start end participants = record {
  start_local_iso = clock.client_iso start;
  end_local_iso = clock.client_iso end;
  label = clock.client_label start;
  label_participant = participants;
}

-- The subtraction of two instants is cut at 0, as `Math.max(0, …)` does.
unfoldable pub align_to_grid_ceil : Zone → ℕ → ℕ → ℕ → ℕ
align_to_grid_ceil z m step origin =
    let diff_min = (m - z.whole_minute origin) / minute_ms in
    let rem = diff_min % step in z.whole_minute (add_minutes m (if rem == 0 then 0 else step - rem))

-- The bounds on a start: `minLeadTimeMin` after the present, and the end of the last day.
pub record BookingWindow : Type 0 where
  pub earliest : ℕ
  pub latest : ℕ

abbrev pub within_booking_window : BookingWindow → ℕ → Bool
within_booking_window b start = leb b.earliest start && leb start b.latest

-- What a loop has pushed, before what the rest of it pushes.
abbrev pub push_all {ℓ} : {A : Type ℓ} → List A → Option (List A) → Option (List A)
push_all xs none = none
push_all xs (some ys) = some (xs ++ ys)

-- The pushes of one loop, then those of the next.
abbrev pub join_all {ℓ} : {A : Type ℓ} → Option (List A) → Option (List A) → Option (List A)
join_all none more = none
join_all (some xs) more = push_all xs more

-- The `while` loops over the grid from `cur`: a round is run as long as `cur` plus `extra` is not
-- after `end`, and `emit` is what it pushes. `step` is in milliseconds.
unfoldable pub grid_loop {ℓ} : {A : Type ℓ} → ℕ → ℕ → ℕ → (ℕ → List A) → ℕ → ℕ → Option (List A)
grid_loop step extra end emit zero cur = none
grid_loop step extra end emit (suc fuel) cur =
    let later = grid_loop step extra end emit fuel (cur + step) in
    let rest = push_all (emit cur) later in if leb (cur + extra) end then rest else some []

-- The slots with each pair of texts once, at its first place.
abbrev pub same_texts : TimeSlot → TimeSlot → Bool
same_texts s t =
    str_eq s.start_local_iso t.start_local_iso && str_eq s.end_local_iso t.end_local_iso

unfoldable pub dedupe : List TimeSlot → List TimeSlot → List TimeSlot
dedupe seen [] = seen
dedupe seen (s ∷ slots) = dedupe (if any (same_texts s) seen then seen else seen ++ s ∷ []) slots

-- The stable sort by the text of the start.
unfoldable pub insert_slot : TimeSlot → List TimeSlot → List TimeSlot
insert_slot s [] = s ∷ []
insert_slot s (t ∷ slots) =
    if text_le s.start_local_iso t.start_local_iso then s ∷ t ∷ slots else t ∷ insert_slot s slots

unfoldable pub sort_slots : List TimeSlot → List TimeSlot
sort_slots [] = []
sort_slots (s ∷ slots) = insert_slot s (sort_slots slots)

abbrev pub dedupe_and_sort_slots : List TimeSlot → List TimeSlot
dedupe_and_sort_slots slots = sort_slots (dedupe [] slots)
