-- ===== src/Availability/Assign.antt =====
-- The search for one professional per requested service, in sequence
-- (assignSequentially_SPECIAL and windowContains_SPECIAL of
-- src/services/@database/event/availability-special.service.ts). The two buffers that the code
-- mutates are passed on as a state; `push` and `pop` act at their ends.
pub mod Candidates
pub mod Plan
pub mod Booking
use ms_calendar_service.Base.{
  ℕ, ◌+◌, String, List, [], ◌∷◌, ◌++◌, Bool, true, false, ◌&&◌, ltb, leb, if◌then◌else◌, any,
}
use text.Mathlib.Text.{◌==◌ as str_eq}
use ms_calendar_service.Availability.Zone.{Zone, add_minutes}
use ms_calendar_service.Availability.Windows.{Window}

pub record Attendee : Type 0 where
  pub service_id : String
  pub duration_min : ℕ

pub record Segment : Type 0 where
  pub service_id : String
  pub user_id : String
  pub start : ℕ
  pub end : ℕ

pub record Used : Type 0 where
  pub user_id : String
  pub start : ℕ
  pub end : ℕ

pub record Buffers : Type 0 where
  pub used : List Used
  pub assignment : List Segment

-- `attendees.slice(0, idx).reduce((acc, a) => acc + a.durationMin, 0)`
unfoldable pub sum_durations : List Attendee → ℕ
sum_durations [] = 0
sum_durations (a ∷ as') = a.duration_min + sum_durations as'

unfoldable pub drop_last {ℓ} : {A : Type ℓ} → List A → List A
drop_last [] = []
drop_last (x ∷ []) = []
drop_last (x ∷ y ∷ ys) = x ∷ drop_last (y ∷ ys)

abbrev pub push : Segment → Buffers → Buffers
push s b = record {
  used = b.used ++ record { user_id = s.user_id; start = s.start; end = s.end } ∷ [];
  assignment = b.assignment ++ s ∷ [];
}

abbrev pub pop : Buffers → Buffers
pop b = record { used = drop_last b.used; assignment = drop_last b.assignment }

-- The test of the loop over `usedByUserAt`.
unfoldable pub clashes : Segment → Used → Bool
clashes s u = str_eq u.user_id s.user_id && (ltb s.start u.end && ltb u.start s.end)

-- The loop over the candidates. `next` is the recursive call for the following service.
unfoldable pub try_candidates :
    (String → List Window)
    → (Window → Segment → Bool)
    → (String → Segment)
    → (Buffers → Bool × Buffers)
    → List String
    → Buffers
    → Bool × Buffers
try_candidates free contains segment next [] b = (false, b)
try_candidates free contains segment next (uid ∷ uids) b =
    let s = segment uid in
    let (ok, b') = next (push s b) in
    let skip = try_candidates free contains segment next uids b in
    let back = try_candidates free contains segment next uids (pop b') in
    let taken = if ok then (true, b') else back in
    let unclashed = if any (clashes s) b.used then skip else taken in
    if any (λ w. contains w s) (free uid) then unclashed else skip

module _ (z : Zone) where
  unfoldable pub window_contains : Window → ℕ → ℕ → Bool
  window_contains w t0 t1 =
      leb (z.whole_minute w.start) (z.whole_minute t0)
      && leb (z.whole_minute t1) (z.whole_minute w.end)

  abbrev pub segment_contained : Window → Segment → Bool
  segment_contained w s = window_contains w s.start s.end

  module _ (start : ℕ) (eligible : String → List String) (free : String → List Window) where
    -- The segment of the service that follows those of `done`.
    abbrev pub segment_after : List Attendee → Attendee → String → Segment
    segment_after done a uid =
        let seg_start = add_minutes start (sum_durations done) in
        record {
          service_id = a.service_id;
          user_id = uid;
          start = seg_start;
          end = add_minutes seg_start a.duration_min;
        }

    -- `attendees` is `done ++ todo`, and `idx` is the length of `done`.
    unfoldable pub assign_sequentially : List Attendee → List Attendee → Buffers → Bool × Buffers
    assign_sequentially done [] b = (true, b)
    assign_sequentially done (a ∷ todo) b =
        try_candidates free segment_contained (segment_after done a)
          (assign_sequentially (done ++ a ∷ []) todo) (eligible a.service_id) b
