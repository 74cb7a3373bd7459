-- ===== src/Reminders.antt =====
-- Reminders before an appointment: whether one is sent, and when (the folder
-- src/models/notification/util/validator-date). Instants are milliseconds since the epoch, offsets
-- and windows are whole minutes that are not negative.
pub mod Downgrade
mod Examples
use ms_calendar_service.Base.{
  ℕ, ◌+◌, ◌-◌, ◌*◌, ◌/◌, String, Option, none, some, Bool, true, false, not, List, [], ◌∷◌,
  if◌then◌else◌, ltb, leb, find, min,
}
use text.Mathlib.Text.{◌==◌ as str_eq}
use ms_calendar_service.Base.Int.{ℤ, pos, negsuc, ◌-ℤ◌, ltb_ℤ, pos_part}

pub record DowngradeOpts : Type 0 where
  pub allow_downgrade : Bool
  pub min_window_minutes : ℕ
  pub min_offset_minutes : Option ℕ
  pub min_remaining_to_allow_downgrade : Option ℕ
  pub allowed_buckets : List ℕ  -- the empty list also stands for none given
  pub buckets_only : Bool

abbrev pub or_default : Option ℕ → ℕ → ℕ
or_default none d = d
or_default (some n) d = n

-- `Math.floor((start - now) / 60000)`
unfoldable pub minutes_until : ℕ → ℕ → ℤ
minutes_until start now =
    if leb now start then pos ((start - now) / 60000) else negsuc ((now - start - 1) / 60000)

-- `sort((a, b) => b - a)`
unfoldable pub insert_descending : ℕ → List ℕ → List ℕ
insert_descending b [] = b ∷ []
insert_descending b (c ∷ cs) = if leb c b then b ∷ c ∷ cs else c ∷ insert_descending b cs

unfoldable pub sort_descending : List ℕ → List ℕ
sort_descending [] = []
sort_descending (b ∷ bs) = insert_descending b (sort_descending bs)

-- `if (!bucket)` also refuses the bucket 0.
abbrev pub take_bucket : Option ℕ → Option ℕ
take_bucket none = none
take_bucket (some b) = if ltb 0 b then some b else none

-- The offset before the last test, from `bucketsOnly`, the buckets and the largest offset that fits.
unfoldable pub effective_offset : Bool → List ℕ → ℕ → Option ℕ
effective_offset buckets_only [] largest = if buckets_only then none else some largest
effective_offset buckets_only (b ∷ bs) largest =
    take_bucket (find (λ c. leb c largest) (sort_descending (b ∷ bs)))

abbrev pub too_soon : Option ℕ → ℤ → Bool
too_soon none minutes = false
too_soon (some n) minutes = ltb_ℤ minutes (pos n)

unfoldable pub plan_at : ℕ → ℕ → Option ℕ → Option (ℕ × ℕ)
plan_at start min_offset none = none
plan_at start min_offset (some effective) =
    if ltb effective min_offset then none else some (start - effective * 60000, effective)

-- `_downgradeReminderSchedule`: the next schedule and the offset. Past the test on the largest
-- offset that fits, that offset is not negative.
unfoldable pub downgrade_reminder_schedule : ℕ → ℕ → ℕ → DowngradeOpts → Option (ℕ × ℕ)
downgrade_reminder_schedule start requested now opts =
    let minutes = minutes_until start now in
    let largest = minutes -ℤ pos (opts.min_window_minutes) in
    let min_offset = or_default opts.min_offset_minutes 5 in
    if not opts.allow_downgrade
    then none
    else (if too_soon opts.min_remaining_to_allow_downgrade minutes
        then none
        else (if ltb_ℤ largest (pos min_offset)
            then none
            else plan_at start min_offset (
                effective_offset opts.buckets_only opts.allowed_buckets
                  (min requested (pos_part largest)))))

-- `shouldSendNotification`. The environment gives the skew in seconds and the window in minutes;
-- `offset` is what the text after `offset:` in the dedupe key parses to, if it does.
pub record Env : Type 0 where
  pub clock_skew_seconds : ℕ
  pub min_window_minutes : ℕ

-- `scheduleUtc.isBefore(cutoffUtc)`
abbrev pub is_behind : Env → ℕ → ℕ → Bool
is_behind env now schedule = ltb (schedule + env.clock_skew_seconds * 1000) now

unfoldable pub should_send_reminder : Env → ℕ → ℕ → Option ℕ → Bool
should_send_reminder env now schedule none = not (is_behind env now schedule)
should_send_reminder env now schedule (some offset) =
    if is_behind env now schedule
    then false
    else ltb (now + env.min_window_minutes * 60000) (schedule + offset * 60000)

-- More than twelve hours after the creation.
abbrev pub has_passed_twelve_hours : ℕ → Option ℕ → Bool
has_passed_twelve_hours now none = false
has_passed_twelve_hours now (some created) = ltb (created + 43200000) now

unfoldable pub should_send_notification : Env → ℕ → String → ℕ → Option ℕ → Option ℕ → Bool
should_send_notification env now event_type schedule offset created =
    if str_eq event_type "booking.reminder.beforeStart"
    then should_send_reminder env now schedule offset
    else (if is_behind env now schedule
        then false
        else (if str_eq event_type "booking.request.created"
            then not (has_passed_twelve_hours now created)
            else true))
