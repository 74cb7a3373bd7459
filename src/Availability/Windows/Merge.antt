-- ===== src/Availability/Windows/Merge.antt =====
-- What `mergeTouchingWindows_SPECIAL` keeps of a list of windows.
use ms_calendar_service.Base.{
  ℕ, ◌≤◌, ◌<◌, ◌≡◌, List, [], ◌∷◌, refl, arith, All, leb, max, ◌||◌, Bool-cases, inl, inr,
  leb_false→lt, length, tests, true, ◌∙◌,
}
use ms_calendar_service.Base.Sort.{sort_by, sort_by-IsSorted, any-sort_by, IsSorted}
use ms_calendar_service.Availability.Windows.{
  Window, window, holds, covers, start_of, merge_from, merge_sorted, merge_touching_windows,
}

merge_from-covers :
    (cur : Window) (ws : List Window) (t : ℕ)
    → All (λ w. cur.start ≤ start_of w) ws
    → IsSorted start_of ws
    → covers (merge_from cur ws) t ≡ (holds t cur || covers ws t)
unfolding merge_from
merge_from-covers cur [] t _ _ = refl
merge_from-covers cur (x ∷ xs) t (p, ps) (b, s) = elim (Bool-cases (leb x.start cur.end)) [
  | inl e ↦
      rw e (ground (arith, merge_from-covers (window cur.start (max cur.end x.end)) xs t ps s))
  | inr e ↦ rw e (ground (arith, merge_from-covers x xs t b s))
]

merge_sorted-covers :
    (ws : List Window) (t : ℕ) → IsSorted start_of ws → covers (merge_sorted ws) t ≡ covers ws t
merge_sorted-covers [] t _ = refl
merge_sorted-covers (w ∷ ws) t (b, s) = merge_from-covers w ws t b s

-- Merging keeps the instants that the windows cover, and adds none.
pub merge_touching_windows-covers :
    (ws : List Window) (t : ℕ) → covers (merge_touching_windows ws) t ≡ covers ws t
unfolding merge_touching_windows
merge_touching_windows-covers ws t = elim (Bool-cases (leb (length ws) 1)) [
  | inl few ↦ rw few
  | inr many ↦
      let sorted = merge_sorted-covers (sort_by start_of ws) t (sort_by-IsSorted start_of ws) in
      rw many (sorted ∙ any-sort_by start_of (holds t) ws)
]

-- Each window begins strictly after the end of the one before it.
abbrev pub IsSeparatedAfter : ℕ → List Window → Type 0
IsSeparatedAfter n [] = Unit
IsSeparatedAfter n (w ∷ ws) = (n < w.start) × IsSeparatedAfter w.end ws

abbrev pub IsSeparated : List Window → Type 0
IsSeparated [] = Unit
IsSeparated (w ∷ ws) = IsSeparatedAfter w.end ws

merge_from-IsSeparatedAfter :
    (n : ℕ) (cur : Window) (ws : List Window)
    → n < cur.start
    → IsSeparatedAfter n (merge_from cur ws)
unfolding merge_from
merge_from-IsSeparatedAfter n cur [] h = (h, tt)
merge_from-IsSeparatedAfter n cur (x ∷ xs) h = elim (Bool-cases (leb x.start cur.end)) [
  | inl e ↦ rw e (merge_from-IsSeparatedAfter n (window cur.start (max cur.end x.end)) xs h)
  | inr e ↦ rw e (h, merge_from-IsSeparatedAfter cur.end x xs (leb_false→lt _ _ e))
]

merge_from-IsSeparated : (cur : Window) (ws : List Window) → IsSeparated (merge_from cur ws)
unfolding merge_from
merge_from-IsSeparated cur [] = tt
merge_from-IsSeparated cur (x ∷ xs) = elim (Bool-cases (leb x.start cur.end)) [
  | inl e ↦ rw e (merge_from-IsSeparated (window cur.start (max cur.end x.end)) xs)
  | inr e ↦ rw e (merge_from-IsSeparatedAfter cur.end x xs (leb_false→lt _ _ e))
]

merge_sorted-IsSeparated : (ws : List Window) → IsSeparated (merge_sorted ws)
merge_sorted-IsSeparated [] = tt
merge_sorted-IsSeparated (w ∷ ws) = merge_from-IsSeparated w ws

few-IsSeparated : (ws : List Window) → leb (length ws) 1 ≡ true → IsSeparated ws
few-IsSeparated [] h = tt
few-IsSeparated (w ∷ []) h = tt
few-IsSeparated (w ∷ v ∷ ws) h = absurd (omega (tests, h))

-- No two windows of the result touch: each ends strictly before the next one begins.
pub merge_touching_windows-IsSeparated :
    (ws : List Window) → IsSeparated (merge_touching_windows ws)
unfolding merge_touching_windows
merge_touching_windows-IsSeparated ws = elim (Bool-cases (leb (length ws) 1)) [
  | inl few ↦ rw few (few-IsSeparated ws few)
  | inr many ↦ rw many (merge_sorted-IsSeparated (sort_by start_of ws))
]
