-- ===== src/Assignment/Examples.antt =====
-- Assignments of small requests, and the theorems at them.
use mathlib.Core.List.{Memᴰ}
use ms_calendar_service.Base.{ℕ, ◌≡◌, ◌↔◌, String, Option, none, some, List, [], ◌∷◌, refl}
use ms_calendar_service.Availability.Zone.{utc, utc-IsZone}
use ms_calendar_service.Availability.Windows.{window}
use ms_calendar_service.Availability.Assign.{
  Attendee, Segment, assign_sequentially, try_candidates, window_contains, clashes, sum_durations,
  drop_last,
}
use ms_calendar_service.Availability.Assign.Plan.{IsPlan}
use ms_calendar_service.Assignment.{
  Snapshot, Input, assigned, refused, no_window, get_assignment_mode, single_group, settle_single,
  execute_single_individual, execute_single_group, all_have_windows, execute_multi_individual,
}
use ms_calendar_service.Assignment.Single.{IsChosenAmong}
use ms_calendar_service.Assignment.Multi.{execute_multi_individual_iff}

assignment_run : Unit {0}
unfolding get_assignment_mode settle_single execute_single_individual execute_single_group
    all_have_windows execute_multi_individual assign_sequentially try_candidates window_contains
    clashes sum_durations drop_last
assignment_run = tt

-- Whoever comes first is chosen.
abbrev first_staff : String → ℕ → ℕ → List String → Unit {0} → Option String × Unit {0}
first_staff s a b [] w = (none, w)
first_staff s a b (u ∷ us) w = (some u, w)

first_staff-IsChosenAmong : IsChosenAmong utc first_staff
first_staff-IsChosenAmong s a b [] w u h = cc
first_staff-IsChosenAmong s a b (v ∷ us) w u h = Memᴰ.head cc

abbrev cut : Attendee
cut = record { service_id = "cut"; duration_min = 30 }

abbrev snapshots : String → Option Snapshot
snapshots s = some (record { id = s; duration = none; max_participants = some 4 })

abbrev day_of : List Attendee → Input
day_of attendees = record {
  start_ws = 600000;
  attendees = attendees;
  service_by_id = snapshots;
  user_ids_by_service = λ s. some ("ana" ∷ "berta" ∷ []);
  free_windows_by_user = λ u. window 0 6000000 ∷ [];
}

abbrev cut_segment : Segment
cut_segment = record { service_id = "cut"; user_id = "ana"; start = 600000; end = 2400000 }

mode_test : get_assignment_mode (cut ∷ []) snapshots ≡ single_group
unfolding assignment_run
mode_test = refl

single_ok :
    (execute_single_individual utc first_staff (day_of (cut ∷ [])) (cut ∷ []) tt).0
    ≡ assigned (cut_segment ∷ [])
unfolding assignment_run
single_ok = refl

long_refused :
    execute_multi_individual utc (day_of (record { service_id = "spa"; duration_min = 600 } ∷ []))
    ≡ refused no_window
unfolding assignment_run
long_refused = refl

multi_iff_example :
    ((segs : List Segment) × (execute_multi_individual utc (day_of (cut ∷ cut ∷ []))
        ≡ assigned segs))
    ↔ ((segs : List Segment) × IsPlan utc 600000
          (λ s. "ana" ∷ "berta" ∷ [])
          (λ u. window 0 6000000 ∷ [])
          []
          (cut ∷ cut ∷ [])
          []
          segs)
multi_iff_example =
    execute_multi_individual_iff utc utc-IsZone (day_of (cut ∷ cut ∷ [])) (λ u. (refl, tt))
