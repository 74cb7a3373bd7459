-- ===== src/Availability/Windows/Subtract.antt =====
-- What `subtractBusyFromShift_SPECIAL` leaves of a shift.
use ms_calendar_service.Base.{
  ℕ, ◌≤◌, ◌<◌, ◌≡◌, List, [], ◌∷◌, false, not, ◌&&◌, refl, arith, All, tests, ltb→lt, ltb, leb,
  if◌then◌else◌, max, Bool-cases, inl, inr,
}
use ms_calendar_service.Base.Sort.{sort_by, sort_by-IsSorted, All-sort_by, any-sort_by, IsSorted}
use ms_calendar_service.Availability.Windows.{
  Window, window, holds, covers, clip, is_proper, close_shift, carve, clipped, start_of,
  subtract_busy_from_shift,
}

-- An instant before every start is in no window.
covers_before :
    (t n : ℕ) (ws : List Window) → t < n → All (λ w. n ≤ start_of w) ws → covers ws t ≡ false
covers_before t n [] h _ = refl
covers_before t n (w ∷ ws) h (p, q) = ground (arith, covers_before t n ws h q)

close_shift-covers :
    (cur shift_end t : ℕ) → covers (close_shift cur shift_end) t ≡ holds t (window cur shift_end)
close_shift-covers cur shift_end t = ground arith

-- The window before a busy range, and what follows it.
step-covers :
    (cur shift_end t : ℕ) (e : Window) (es rest : List Window)
    → covers rest t ≡ (holds t (window (max cur e.end) shift_end) && not (covers es t))
    → (t < e.start → covers es t ≡ false)
    → e.start < shift_end
    → covers (if ltb cur e.start then window cur e.start ∷ rest else rest) t
      ≡ (holds t (window cur shift_end) && not (covers (e ∷ es) t))
step-covers cur shift_end t e es rest h k l = elim (Bool-cases (ltb cur e.start)) [
  | inl gap ↦ rw gap (ground arith)
  | inr none_before ↦ rw none_before (ground arith)
]

carve-covers :
    (shift_end : ℕ) (es : List Window) (cur t : ℕ)
    → IsSorted start_of es
    → All (λ e. (e.start < shift_end) × (e.start < e.end)) es
    → covers (carve shift_end es cur) t ≡ (holds t (window cur shift_end) && not (covers es t))
unfolding carve
carve-covers shift_end [] cur t _ _ = ground arith
carve-covers shift_end (e ∷ es) cur t (b, s) ((l, _), ls) =
    elim (Bool-cases (leb shift_end (max cur e.end))) [
      | inl full ↦ rw full (
          step-covers cur shift_end t e es _
            (ground (arith, close_shift-covers (max cur e.end) shift_end t))
            (λ h. covers_before t e.start es h b) l)
      | inr more ↦ rw more (
          step-covers cur shift_end t e es _ (carve-covers shift_end es (max cur e.end) t s ls)
            (λ h. covers_before t e.start es h b) l)
    ]

clipped-All :
    (s e : ℕ) (busy : List Window) → All (λ w. (w.start < e) × (w.start < w.end)) (clipped s e busy)
unfolding clipped
clipped-All s e [] = tt
clipped-All s e (b ∷ bs) = elim (Bool-cases (is_proper (clip s e b))) [
  | inl p ↦ rw p ((omega (tests, p), ltb→lt _ _ p), clipped-All s e bs)
  | inr p ↦ rw p (clipped-All s e bs)
]

clipped-covers :
    (s e t : ℕ) (busy : List Window)
    → covers (clipped s e busy) t ≡ (holds t (window s e) && covers busy t)
unfolding clipped
clipped-covers s e t [] = ground arith
clipped-covers s e t (b ∷ bs) = ground (arith, clipped-covers s e t bs)

-- An instant is left free exactly when it is inside the shift and outside every busy range,
-- whatever the order of the busy ranges and however they overlap.
pub subtract_busy_from_shift-covers :
    (shift_start shift_end t : ℕ) (busy : List Window)
    → covers (subtract_busy_from_shift shift_start shift_end busy) t
      ≡ (holds t (window shift_start shift_end) && not (covers busy t))
unfolding subtract_busy_from_shift
subtract_busy_from_shift-covers s e t busy =
    let evs = clipped s e busy in
    let carved =
      carve-covers e (sort_by start_of evs) s t (sort_by-IsSorted start_of evs) (
        All-sort_by start_of (λ w. (w.start < e) × (w.start < w.end)) evs (clipped-All s e busy)) in
    ground (arith, carved, any-sort_by start_of (holds t) evs, clipped-covers s e t busy)

-- Proper windows from `n` on, each ending before the next one begins, the last by `limit`.
abbrev pub IsApart : ℕ → ℕ → List Window → Type 0
IsApart n limit [] = Unit
IsApart n limit (w ∷ ws) =
    (n ≤ w.start) × (w.start < w.end) × (w.end ≤ limit) × IsApart w.end limit ws

IsApart-down : (m n limit : ℕ) (ws : List Window) → m ≤ n → IsApart n limit ws → IsApart m limit ws
IsApart-down m n limit [] h k = tt
IsApart-down m n limit (w ∷ ws) h (p, q, r, k) = (omega arith, q, r, k)

close_shift-IsApart : (cur shift_end : ℕ) → IsApart cur shift_end (close_shift cur shift_end)
close_shift-IsApart cur shift_end = ground arith

step-IsApart :
    (cur n shift_end : ℕ) (e : Window) (rest : List Window)
    → e.start < shift_end
    → e.start ≤ n
    → cur ≤ n
    → IsApart n shift_end rest
    → IsApart cur shift_end (if ltb cur e.start then window cur e.start ∷ rest else rest)
step-IsApart cur n shift_end e rest l p q h = elim (Bool-cases (ltb cur e.start)) [
  | inl gap ↦
      rw gap (omega arith, ltb→lt _ _ gap, omega arith, IsApart-down e.start n shift_end rest p h)
  | inr none_before ↦ rw none_before (IsApart-down cur n shift_end rest q h)
]

carve-IsApart :
    (shift_end : ℕ) (es : List Window) (cur : ℕ)
    → All (λ e. (e.start < shift_end) × (e.start < e.end)) es
    → IsApart cur shift_end (carve shift_end es cur)
unfolding carve
carve-IsApart shift_end [] cur _ = close_shift-IsApart cur shift_end
carve-IsApart shift_end (e ∷ es) cur ((l, p), ls) =
    let n = max cur e.end in
    elim (Bool-cases (leb shift_end (max cur e.end))) [
      | inl full ↦ rw full (
          step-IsApart cur n shift_end e _ l (omega arith) (omega arith)
            (close_shift-IsApart n shift_end))
      | inr more ↦ rw more (
          step-IsApart cur n shift_end e _ l (omega arith) (omega arith)
            (carve-IsApart shift_end es n ls))
    ]

-- The free windows lie inside the shift, none is empty, and they are in order, each ending by the
-- start of the next.
pub subtract_busy_from_shift-IsApart :
    (shift_start shift_end : ℕ) (busy : List Window)
    → IsApart shift_start shift_end (subtract_busy_from_shift shift_start shift_end busy)
unfolding subtract_busy_from_shift
subtract_busy_from_shift-IsApart s e busy =
    let evs = clipped s e busy in
    carve-IsApart e (sort_by start_of evs) s
      (All-sort_by start_of (λ w. (w.start < e) × (w.start < w.end)) evs (clipped-All s e busy))
