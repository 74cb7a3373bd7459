-- ===== src/Reminders/Examples.antt =====
-- Reminders around one appointment, and the theorems at them.
use ms_calendar_service.Base.{ℕ, ◌≡◌, ◌-◌, ◌*◌, none, some, true, false, [], ◌∷◌, refl, arith}
use ms_calendar_service.Base.Int.{◌-ℤ◌}
use ms_calendar_service.Reminders.{
  DowngradeOpts, Env, minutes_until, insert_descending, sort_descending, effective_offset, plan_at,
  downgrade_reminder_schedule, should_send_reminder, should_send_notification,
}
use ms_calendar_service.Reminders.Downgrade.{
  IsPlanned, downgrade_reminder_schedule-IsPlanned, downgrade-is_sent,
}

reminders_run : Unit {0}
unfolding minutes_until insert_descending sort_descending effective_offset plan_at
    downgrade_reminder_schedule should_send_reminder should_send_notification ◌-ℤ◌
reminders_run = tt

-- A day before was asked for, and five hours are left.
abbrev opts : DowngradeOpts
opts = record {
  allow_downgrade = true;
  min_window_minutes = 10;
  min_offset_minutes = some 15;
  min_remaining_to_allow_downgrade = some 120;
  allowed_buckets = 30 ∷ 1440 ∷ 120 ∷ 360 ∷ [];
  buckets_only = false;
}

abbrev env : Env
env = record { clock_skew_seconds = 90; min_window_minutes = 10 }

abbrev five_hours : ℕ
five_hours = 18000000

two_hours_before :
    downgrade_reminder_schedule five_hours 1440 0 opts ≡ some (five_hours - 120 * 60000, 120)
unfolding reminders_run
two_hours_before = refl

too_late_test : downgrade_reminder_schedule 1000 1440 five_hours opts ≡ none
unfolding reminders_run
too_late_test = refl

request_created_test :
    (should_send_notification env 43200001 "booking.request.created" 43200001 none (some 0) ≡ false)
    × (should_send_notification env 43200000 "booking.request.created" 43200000 none (some 0)
        ≡ true)
unfolding reminders_run
request_created_test = (refl, refl)

IsPlanned-example : IsPlanned five_hours 1440 0 opts (five_hours - 120 * 60000, 120)
IsPlanned-example =
    downgrade_reminder_schedule-IsPlanned five_hours 1440 0 opts (five_hours - 120 * 60000, 120)
      two_hours_before

sent_example : should_send_reminder env 0 (five_hours - 120 * 60000) (some 120) ≡ true
sent_example =
    downgrade-is_sent env five_hours 1440 0 opts (five_hours - 120 * 60000, 120) refl (omega arith)
      two_hours_before
