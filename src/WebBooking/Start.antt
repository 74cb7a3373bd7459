-- ===== src/WebBooking/Start.antt =====
-- The validation of a web booking's input and the resolution of its start.
use ms_calendar_service.Base.{
  ℕ, ◌-◌, ◌%◌, String, Option, none, some, Bool, List, if◌then◌else◌, ◌==◌,
}
use ms_calendar_service.Availability.Zone.{Zone, add_minutes}
use ms_calendar_service.WebBooking.Policies.{
  has_required_context, is_start_local_iso, has_attendees, has_customer_identifiers, is_day_in_past,
  is_time_in_past,
}

-- The errors that the validation throws.
pub data Invalid : Type 0 where
  missing_context bad_start_format no_attendees missing_customer : Invalid

pub record WebInput : Type 0 where
  pub id_company : String
  pub id_workspace : String
  pub time_zone_client : String
  pub start_local_iso : String
  pub customer_id : String
  pub customer_workspace : String
  pub exclude_event_id : Option String
  pub note : Option String
  pub is_comment_read : Option Bool

-- The tests run in this order, and the first that fails throws.
unfoldable pub validate_add_from_web_input {ℓ} :
    {A : Type ℓ} → WebInput → List A → String → Option Invalid
validate_add_from_web_input input attendees time_zone_workspace =
    if has_required_context input.id_company input.id_workspace time_zone_workspace
      input.time_zone_client
    then (if is_start_local_iso input.start_local_iso
        then (if has_attendees attendees
            then (if has_customer_identifiers input.customer_id input.customer_workspace
                then none
                else some missing_customer)
            else some no_attendees)
        else some bad_start_format)
    else some missing_context

-- The days of the workspace's zone: the first instant of the day of an instant, its date and the
-- name of its weekday.
pub record Calendar : Type 0 where
  pub start_of_day : ℕ → ℕ
  pub date_of : ℕ → String
  pub week_day_of : ℕ → String

pub record StartContext : Type 0 where
  pub start_ws : ℕ
  pub date_ws : String
  pub week_day : String
  pub is_today : Bool
  pub rounded_now : ℕ

-- `computeSlotConfig` with a positive step: is the day the present one, and the present rounded up.
unfoldable pub compute_slot_config : Zone → Calendar → ℕ → ℕ → ℕ → Bool × ℕ
compute_slot_config z cal step day now =
    let now_local = z.whole_minute now in
    let is_today = cal.start_of_day day == cal.start_of_day now_local in
    let rem = z.minute_of now_local % step in
    let rounded = if rem == 0 then now_local else add_minutes now_local (step - rem) in
    (is_today, if is_today then rounded else now_local)

-- `start` is the parsed text, `now` the present. The result is `none` for `{ ok: false }`.
unfoldable pub resolve_start_context : Zone → Calendar → ℕ → ℕ → Option StartContext
resolve_start_context z cal start now =
    let (is_today, rounded_now) = compute_slot_config z cal 5 (cal.start_of_day start) now in
    let context : StartContext = record {
      start_ws = start;
      date_ws = cal.date_of start;
      week_day = cal.week_day_of start;
      is_today = is_today;
      rounded_now = rounded_now;
    } in
    if is_day_in_past (cal.start_of_day start) (cal.start_of_day now)
    then none
    else (if is_time_in_past is_today start rounded_now then none else some context)
