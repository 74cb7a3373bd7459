-- ===== src/Platform/Segments.antt =====
-- The segments of a booking whose services do not follow one another.
use ms_calendar_service.Base.{
  ◌≡◌, ◌≤◌, ◌<◌, inl, inr, List, [], ◌∷◌, ◌++◌, refl, Bool-cases, ap, ltb, ltb→lt, ltb_false→le,
}
use ms_calendar_service.Base.Sort.{sort_by}
use ms_calendar_service.Booking.Rows.{Event}
use ms_calendar_service.Platform.Upsert.{start_of_event}
use ms_calendar_service.Platform.Split.{
  Stretch, stretch_events, split_after, split_sorted, split_by_time_continuity,
}

abbrev pub flatten : List Stretch → List Event
flatten [] = []
flatten (s ∷ segments) = stretch_events s ++ flatten segments

-- Each event starts by the end of the one before it.
abbrev pub IsUnbroken : Event → List Event → Type 0
IsUnbroken prev [] = Unit
IsUnbroken prev (e ∷ es) = (e.start_date ≤ prev.end_date) × IsUnbroken e es

abbrev pub last_of : Event → List Event → Event
last_of e [] = e
last_of e (f ∷ es) = last_of f es

-- Each segment is unbroken, and starts after the end of the last event before it.
abbrev pub IsSplitBehind : Event → List Stretch → Type 0
IsSplitBehind prev [] = Unit
IsSplitBehind prev (s ∷ segments) =
    (prev.end_date < s.first.start_date)
    × IsUnbroken s.first s.others
    × IsSplitBehind (last_of s.first s.others) segments

abbrev pub IsSplit : List Stretch → Type 0
IsSplit [] = Unit
IsSplit (s ∷ segments) =
    IsUnbroken s.first s.others × IsSplitBehind (last_of s.first s.others) segments

split_after-joins :
    (prev : Event) (es : List Event)
    → (split_after prev es).0 ++ flatten (split_after prev es).1 ≡ es
unfolding split_after
split_after-joins prev [] = refl
split_after-joins prev (e ∷ es) = elim (Bool-cases (ltb prev.end_date e.start_date)) [
  | inl t ↦ rw t (ap (λ l. e ∷ l) (split_after-joins e es))
  | inr t ↦ rw t (ap (λ l. e ∷ l) (split_after-joins e es))
]

split_after-IsSplit :
    (prev : Event) (es : List Event)
    → IsUnbroken prev (split_after prev es).0
      × IsSplitBehind (last_of prev (split_after prev es).0) (split_after prev es).1
unfolding split_after
split_after-IsSplit prev [] = (tt, tt)
split_after-IsSplit prev (e ∷ es) =
    let (unbroken, split) = split_after-IsSplit e es in
    elim (Bool-cases (ltb prev.end_date e.start_date)) [
      | inl t ↦ rw t (tt, (ltb→lt _ _ t, unbroken, split))
      | inr t ↦ rw t ((ltb_false→le _ _ t, unbroken), split)
    ]

split_sorted-IsSplit :
    (es : List Event) → (flatten (split_sorted es) ≡ es) × IsSplit (split_sorted es)
unfolding split_sorted
split_sorted-IsSplit [] = (refl, tt)
split_sorted-IsSplit (e ∷ es) = (ap (λ l. e ∷ l) (split_after-joins e es), split_after-IsSplit e es)

-- The segments have all events, once each, in the order of their starts. In a segment each event starts
-- by the end of the one before it, and each segment starts after the end of the last event of the
-- segment before it.
pub split_by_time_continuity-IsSplit :
    (es : List Event)
    → (flatten (split_by_time_continuity es) ≡ sort_by start_of_event es)
      × IsSplit (split_by_time_continuity es)
split_by_time_continuity-IsSplit es = split_sorted-IsSplit (sort_by start_of_event es)
