-- ===== src/Availability/Windows.antt =====
-- Windows of time (src/services/@database/event/availability-special.service.ts).
-- An instant is its `valueOf()`, the milliseconds since the epoch; `isBefore`, `isAfter`, `max` and
-- `min` compare those numbers, and `clone` copies a value that never changes here.
pub mod Subtract
pub mod Merge
use ms_calendar_service.Base.{
  ℕ, List, [], ◌∷◌, map, Bool, ◌&&◌, ltb, leb, if◌then◌else◌, any, keep, min, max, length,
}
use ms_calendar_service.Base.Sort.{sort_by}

pub record Window : Type 0 where
  pub start : ℕ
  pub end : ℕ

abbrev pub window : ℕ → ℕ → Window
window s e = record { start = s; end = e }

-- Is the instant inside the half-open window?
abbrev pub holds : ℕ → Window → Bool
holds t w = leb w.start t && ltb t w.end

abbrev pub covers : List Window → ℕ → Bool
covers ws t = any (holds t) ws

-- The `map` of `subtractBusyFromShift_SPECIAL`: a busy range is cut to the shift.
abbrev pub clip : ℕ → ℕ → Window → Window
clip shift_start shift_end b = window (max b.start shift_start) (min b.end shift_end)

abbrev pub is_proper : Window → Bool
is_proper b = ltb b.start b.end

-- The push after the loop.
abbrev pub close_shift : ℕ → ℕ → List Window
close_shift cur shift_end = if ltb cur shift_end then window cur shift_end ∷ [] else []

-- The loop of `subtractBusyFromShift_SPECIAL` from `cur`, with its `break`.
unfoldable pub carve : ℕ → List Window → ℕ → List Window
carve shift_end [] cur = close_shift cur shift_end
carve shift_end (e ∷ es) cur =
    let next = max cur e.end in
    let later = carve shift_end es next in
    let rest = if leb shift_end next then close_shift next shift_end else later in
    if ltb cur e.start then window cur e.start ∷ rest else rest

unfoldable pub clipped : ℕ → ℕ → List Window → List Window
clipped shift_start shift_end busy = keep is_proper (map (clip shift_start shift_end) busy)

abbrev pub start_of : Window → ℕ
start_of w = w.start

unfoldable pub subtract_busy_from_shift : ℕ → ℕ → List Window → List Window
subtract_busy_from_shift shift_start shift_end busy =
    carve shift_end (sort_by start_of (clipped shift_start shift_end busy)) shift_start

-- The loop of `mergeTouchingWindows_SPECIAL` from `cur`.
unfoldable pub merge_from : Window → List Window → List Window
merge_from cur [] = cur ∷ []
merge_from cur (x ∷ xs) =
    let joined = merge_from (window cur.start (max cur.end x.end)) xs in
    let apart = cur ∷ merge_from x xs in if leb x.start cur.end then joined else apart

abbrev merge_sorted : List Window → List Window
merge_sorted [] = []
merge_sorted (w ∷ ws) = merge_from w ws

unfoldable pub merge_touching_windows : List Window → List Window
merge_touching_windows ws = if leb (length ws) 1 then ws else merge_sorted (sort_by start_of ws)
