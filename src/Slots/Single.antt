-- ===== src/Slots/Single.antt =====
-- The fast path for one service, individual or for a group (`publicGetAvailableTimeSlots_SPECIAL` of
-- src/services/@database/event/event-times.service.ts).
use text.Mathlib.Text.{◌==◌ as str_eq}
use ms_calendar_service.Base.{
  ℕ, suc, ◌-◌, ◌*◌, String, Option, none, some, Bool, false, not, ◌&&◌, List, [], ◌∷◌, ◌++◌,
  if◌then◌else◌, ltb, max, any,
}
use ms_calendar_service.Availability.Zone.{Zone, add_minutes, minute_ms}
use ms_calendar_service.Availability.Windows.{Window, window, merge_touching_windows}
use ms_calendar_service.Slots.{
  Clock, TimeSlot, slot_of, align_to_grid_ceil, BookingWindow, within_booking_window, join_all,
  grid_loop,
}

-- What the fast path for one service knows of it.
pub record ServiceDay : Type 0 where
  pub duration : ℕ
  pub capacity : ℕ
  pub step_minutes : ℕ
  pub day_start : ℕ
  pub is_today : Bool
  pub rounded_now : ℕ
  pub id_client : Option String

-- An event of the group service, with the identifiers of its participants.
pub record GroupEvent : Type 0 where
  pub user_id : String
  pub start : ℕ
  pub end : ℕ
  pub count : ℕ
  pub members : List String

-- Two times make one key when their texts in the workspace's zone, in whole minutes, are the same; the
-- later entry wins.
abbrev pub is_keyed : Zone → Clock → String → ℕ → ℕ → GroupEvent → Bool
is_keyed z clock uid start end e =
    str_eq e.user_id uid
    && str_eq (clock.local_iso (z.whole_minute e.start)) (clock.local_iso start)
    && str_eq (clock.local_iso (z.whole_minute e.end)) (clock.local_iso end)

unfoldable pub keyed_event : Zone → Clock → String → ℕ → ℕ → List GroupEvent → Option GroupEvent
keyed_event z clock uid start end [] = none
keyed_event z clock uid start end (e ∷ events) = elim (keyed_event z clock uid start end events) [
  | some later ↦ some later
  | none ↦ if is_keyed z clock uid start end e then some e else none
]

abbrev pub booked_of : Option GroupEvent → ℕ
booked_of none = 0
booked_of (some e) = e.count

abbrev pub is_member : Option String → Option GroupEvent → Bool
is_member none e = false
is_member (some client) none = false
is_member (some client) (some e) = not (str_eq client "") && any (str_eq client) e.members

abbrev pub individual_slot : Clock → ServiceDay → ℕ → List TimeSlot
individual_slot clock d cur = slot_of clock cur (add_minutes cur d.duration) none ∷ []

unfoldable pub group_slot : Zone → Clock → ServiceDay → String → List GroupEvent → ℕ → List TimeSlot
group_slot z clock d uid events cur =
    let end = add_minutes cur d.duration in
    let e = keyed_event z clock uid cur end events in
    if ltb 0 (d.capacity - booked_of e) && not (is_member d.id_client e)
    then slot_of clock cur end (some (booked_of e, d.capacity)) ∷ []
    else []

-- The windows of the group's own events, from the rounded present on.
unfoldable pub group_windows : Zone → ServiceDay → String → List GroupEvent → List Window
group_windows z d uid [] = []
group_windows z d uid (e ∷ events) =
    let start =
      if d.is_today then max (z.whole_minute e.start) d.rounded_now else z.whole_minute e.start in
    let rest = group_windows z d uid events in
    if not (str_eq uid "") && str_eq e.user_id uid && ltb start (z.whole_minute e.end)
    then window start (z.whole_minute e.end) ∷ rest
    else rest

abbrev merged_with : List Window → List Window → List Window
merged_with base [] = base
merged_with base (w ∷ ws) = merge_touching_windows (base ++ w ∷ ws)

abbrev pub is_group : ServiceDay → Bool
is_group d = ltb 1 d.capacity

abbrev pub windows_for : Zone → ServiceDay → String → List GroupEvent → List Window → List Window
windows_for z d uid events base =
    if is_group d then merged_with base (group_windows z d uid events) else base

abbrev pub emit_for : Zone → Clock → ServiceDay → String → List GroupEvent → ℕ → List TimeSlot
emit_for z clock d uid events =
    if is_group d then group_slot z clock d uid events else individual_slot clock d

abbrev pub emit_in :
    Zone → Clock → BookingWindow → ServiceDay → String → List GroupEvent → ℕ → List TimeSlot
emit_in z clock b d uid events cur =
    if within_booking_window b cur then emit_for z clock d uid events cur else []

-- `cur <= latestStart` is read as `cur` plus the duration not after the end of the window.
abbrev pub first_start : Zone → ServiceDay → Window → ℕ
first_start z d w = align_to_grid_ceil z (max w.start d.day_start) d.step_minutes d.day_start

unfoldable pub slots_of_windows :
    Zone → ServiceDay → (ℕ → List TimeSlot) → List Window → Option (List TimeSlot)
slots_of_windows z d emit [] = some []
slots_of_windows z d emit (w ∷ ws) =
    join_all
      (grid_loop (d.step_minutes * minute_ms) (d.duration * minute_ms) w.end emit (suc (suc w.end))
        (first_start z d w))
      (slots_of_windows z d emit ws)

-- `rawSlots`, over the eligible professionals.
unfoldable pub single_slots :
    Zone
    → Clock
    → BookingWindow
    → ServiceDay
    → (String → List Window)
    → List GroupEvent
    → List String
    → Option (List TimeSlot)
single_slots z clock b d free events [] = some []
single_slots z clock b d free events (uid ∷ uids) =
    join_all
      (slots_of_windows z d (emit_in z clock b d uid events)
        (windows_for z d uid events (free uid)))
      (single_slots z clock b d free events uids)
