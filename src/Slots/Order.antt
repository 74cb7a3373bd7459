-- ===== src/Slots/Order.antt =====
-- The order of the sorted slots.

use ms_calendar_service.Base.{◌≡◌, inl, inr, List, [], ◌∷◌, true, Bool-cases}
use ms_calendar_service.RoundRobin.Texts.{text_le}
use ms_calendar_service.RoundRobin.Texts.Order.{text_le-total}
use ms_calendar_service.Slots.{TimeSlot, insert_slot, sort_slots}

-- The starts are in order.
abbrev pub IsInOrder : List TimeSlot → Type 0
IsInOrder [] = Unit
IsInOrder (s ∷ []) = Unit
IsInOrder (s ∷ t ∷ slots) =
    (text_le s.start_local_iso t.start_local_iso ≡ true) × IsInOrder (t ∷ slots)

insert_slot-before :
    (s t : TimeSlot) (slots : List TimeSlot)
    → text_le t.start_local_iso s.start_local_iso ≡ true
    → IsInOrder (t ∷ slots)
    → IsInOrder (insert_slot s slots)
    → IsInOrder (t ∷ insert_slot s slots)
unfolding insert_slot
insert_slot-before s t [] le h k = (le, tt)
insert_slot-before s t (u ∷ slots) le (p, h) k =
    elim (Bool-cases (text_le s.start_local_iso u.start_local_iso)) [
      | inl e ↦ rw e (le, (e, h))
      | inr e ↦ rw e (p, rw e at k)
    ]

tail_of : (t : TimeSlot) (slots : List TimeSlot) → IsInOrder (t ∷ slots) → IsInOrder slots
tail_of t [] h = tt
tail_of t (u ∷ slots) (p, h) = h

insert_slot-IsInOrder :
    (s : TimeSlot) (slots : List TimeSlot) → IsInOrder slots → IsInOrder (insert_slot s slots)
unfolding insert_slot
insert_slot-IsInOrder s [] h = tt
insert_slot-IsInOrder s (t ∷ slots) h =
    elim (Bool-cases (text_le s.start_local_iso t.start_local_iso)) [
      | inl e ↦ rw e (e, h)
      | inr e ↦ rw e (
          insert_slot-before s t slots (text_le-total _ _ e) h
            (insert_slot-IsInOrder s slots (tail_of t slots h)))
    ]

pub sort_slots-IsInOrder : (slots : List TimeSlot) → IsInOrder (sort_slots slots)
unfolding sort_slots
sort_slots-IsInOrder [] = tt
sort_slots-IsInOrder (s ∷ slots) =
    insert_slot-IsInOrder s (sort_slots slots) (sort_slots-IsInOrder slots)
