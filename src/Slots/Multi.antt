-- ===== src/Slots/Multi.antt =====
-- The slots of several services in sequence (`publicGetAvailableTimeSlots_SPECIAL` of
-- src/services/@database/event/event-times.service.ts). The texts of the starts go into a set, and
-- are read back.
use ms_calendar_service.Base.{
  ℕ, suc, ◌-◌, ◌*◌, ◌/◌, String, Option, none, some, Bool, true, ◌&&◌, List, [], ◌∷◌, map,
  if◌then◌else◌, ltb, leb, max, min, any,
}
use ms_calendar_service.Base.Sets.{add_all}
use ms_calendar_service.Base.Sort.{sort_by}
use ms_calendar_service.Availability.Zone.{Zone, add_minutes, minute_ms}
use ms_calendar_service.Availability.Windows.{Window}
use ms_calendar_service.Availability.Assign.{Attendee, sum_durations, assign_sequentially}
use ms_calendar_service.Availability.Assign.Booking.{empty_buffers}
use ms_calendar_service.Slots.{
  Clock, TimeSlot, slot_of, align_to_grid_ceil, BookingWindow, within_booking_window, join_all,
  grid_loop,
}

-- The day, the free windows, and the services with their durations and professionals.
pub record MultiDay : Type 0 where
  pub step_minutes : ℕ
  pub day_start : ℕ
  pub day_end : ℕ
  pub attendees : List Attendee
  pub eligible : String → List String
  pub free : String → List Window

-- `latestStart`; a difference below 0 leaves no candidate, as 0 does.
abbrev pub latest_start : MultiDay → ℕ
latest_start d = d.day_end - sum_durations d.attendees * minute_ms

abbrev pub range_start : Zone → MultiDay → Window → ℕ
range_start z d w = z.whole_minute (max w.start d.day_start)

abbrev pub range_end : Zone → MultiDay → Window → ℕ
range_end z d w = z.whole_minute (min w.end (latest_start d))

abbrev pub key_at : Clock → ℕ → List String
key_at clock cur = clock.local_iso cur ∷ []

-- The keys of one window.
unfoldable pub keys_of_window : Zone → Clock → MultiDay → Window → Option (List String)
keys_of_window z clock d w =
    let keys =
      grid_loop (d.step_minutes * minute_ms) 0 (range_end z d w) (key_at clock)
        (suc (suc (range_end z d w)))
        (align_to_grid_ceil z (range_start z d w) d.step_minutes d.day_start) in
    if ltb (range_start z d w) (range_end z d w) then keys else some []

unfoldable pub keys_of_windows : Zone → Clock → MultiDay → List Window → Option (List String)
keys_of_windows z clock d [] = some []
keys_of_windows z clock d (w ∷ ws) =
    join_all (keys_of_window z clock d w) (keys_of_windows z clock d ws)

-- The loop over the professionals of the first service.
unfoldable pub keys_of_users : Zone → Clock → MultiDay → List String → Option (List String)
keys_of_users z clock d [] = some []
keys_of_users z clock d (uid ∷ uids) =
    join_all (keys_of_windows z clock d (d.free uid)) (keys_of_users z clock d uids)

-- The keys are put into `candidateKeys`, a set.
abbrev pub instant : ℕ → ℕ
instant t = t

unfoldable pub candidates_of : Clock → List String → List ℕ
candidates_of clock keys = sort_by instant (map clock.parse_local (add_all [] keys))

abbrev pub is_planned : Zone → MultiDay → ℕ → Bool
is_planned z d start =
    (assign_sequentially z start d.eligible d.free [] d.attendees empty_buffers).0

abbrev pub multi_slot : Clock → MultiDay → ℕ → TimeSlot
multi_slot clock d start = slot_of clock start (add_minutes start (sum_durations d.attendees)) none

-- The loop over the candidates.
unfoldable pub planned_slots : Zone → Clock → BookingWindow → MultiDay → List ℕ → List TimeSlot
planned_slots z clock b d [] = []
planned_slots z clock b d (start ∷ starts) =
    let rest = planned_slots z clock b d starts in
    if within_booking_window b start && is_planned z d start
    then multi_slot clock d start ∷ rest
    else rest

abbrev pub planned_of :
    Zone → Clock → BookingWindow → MultiDay → Option (List String) → Option (List TimeSlot)
planned_of z clock b d none = none
planned_of z clock b d (some keys) = some (planned_slots z clock b d (candidates_of clock keys))

-- The professionals of the first service seed the candidates.
abbrev pub seeds : MultiDay → List Attendee → List String
seeds d [] = []
seeds d (a ∷ attendees) = d.eligible a.service_id

unfoldable pub multi_slots : Zone → Clock → BookingWindow → MultiDay → Option (List TimeSlot)
multi_slots z clock b d = planned_of z clock b d (keys_of_users z clock d (seeds d d.attendees))

-- The pruning: some professional has a free window as long as the service, for each service.
abbrev pub is_long_enough : ℕ → Window → Bool
is_long_enough duration w = leb duration ((w.end - w.start) / minute_ms)

unfoldable pub has_gaps : MultiDay → List Attendee → Bool
has_gaps d [] = true
has_gaps d (a ∷ attendees) =
    any (λ uid. any (is_long_enough a.duration_min) (d.free uid)) (d.eligible a.service_id)
    && has_gaps d attendees
