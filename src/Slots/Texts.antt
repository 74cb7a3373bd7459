-- ===== src/Slots/Texts.antt =====
-- The list of slots that is answered: each pair of texts once, in the order of the starts.
use mathlib.Core.List.Memᴰ as Mem
use mathlib.Core.List.{Memᴰ}
use ms_calendar_service.Base.{
  ◌≡◌, ◌⊎◌, inl, inr, List, [], ◌∷◌, ◌++◌, Bool, true, false, refl, arith, All, any, Bool-cases,
  eq_iff, eq_refl, ◌∙◌, any-append, if◌then◌else◌,
}
use ms_calendar_service.Base.Members.{any_false→All, All-Memᴰ}
use ms_calendar_service.RoundRobin.Texts.{text_le}
use ms_calendar_service.Slots.Order.{IsInOrder, sort_slots-IsInOrder}
use ms_calendar_service.Slots.{
  TimeSlot, same_texts, dedupe, insert_slot, sort_slots, dedupe_and_sort_slots,
}

-- No two slots have the same texts.
abbrev pub IsUnique : List TimeSlot → Type 0
IsUnique [] = Unit
IsUnique (s ∷ slots) = All (λ t. same_texts s t ≡ false) slots × IsUnique slots

same_texts_sym : (s t : TimeSlot) (b : Bool) → same_texts s t ≡ b → same_texts t s ≡ b
same_texts_sym s t b h = ground (
  arith,
  eq_iff s.start_local_iso t.start_local_iso,
  eq_iff s.end_local_iso t.end_local_iso,
  eq_iff t.start_local_iso s.start_local_iso,
  eq_iff t.end_local_iso s.end_local_iso,
)

All-snoc :
    (P : TimeSlot → Type 0) (s : TimeSlot) (slots : List TimeSlot)
    → All P slots
    → P s
    → All P (slots ++ s ∷ [])
All-snoc P s [] h p = (p, tt)
All-snoc P s (t ∷ slots) (q, h) p = (q, All-snoc P s slots h p)

IsUnique-snoc :
    (s : TimeSlot) (slots : List TimeSlot)
    → All (λ t. same_texts s t ≡ false) slots
    → IsUnique slots
    → IsUnique (slots ++ s ∷ [])
IsUnique-snoc s [] h k = (tt, tt)
IsUnique-snoc s (t ∷ slots) (p, h) (q, k) = (
  All-snoc (λ u. same_texts t u ≡ false) s slots q (same_texts_sym s t false p),
  IsUnique-snoc s slots h k,
)

dedupe-IsUnique : (seen slots : List TimeSlot) → IsUnique seen → IsUnique (dedupe seen slots)
unfolding dedupe
dedupe-IsUnique seen [] h = h
dedupe-IsUnique seen (s ∷ slots) h = elim (Bool-cases (any (same_texts s) seen)) [
  | inl e ↦ rw e (dedupe-IsUnique seen slots h)
  | inr e ↦ rw e (
      dedupe-IsUnique (seen ++ s ∷ []) slots
        (IsUnique-snoc s seen (any_false→All (same_texts s) seen e) h))
]

dedupe-Memᴰ :
    (s : TimeSlot) (seen slots : List TimeSlot)
    → Memᴰ s (dedupe seen slots)
    → Memᴰ s seen ⊎ Memᴰ s slots
unfolding dedupe
dedupe-Memᴰ s seen [] m = inl m
dedupe-Memᴰ s seen (t ∷ slots) m = elim (Bool-cases (any (same_texts t) seen)) [
  | inl e ↦ later (dedupe-Memᴰ s seen slots (rw e at m))
  | inr e ↦ added (dedupe-Memᴰ s (seen ++ t ∷ []) slots (rw e at m))
]
  where
    later : Memᴰ s seen ⊎ Memᴰ s slots → Memᴰ s seen ⊎ Memᴰ s (t ∷ slots)
    later (inl l) = inl l
    later (inr l) = inr (Memᴰ.tail l)

    of_snoc : Memᴰ s seen ⊎ Memᴰ s (t ∷ []) → Memᴰ s seen ⊎ Memᴰ s (t ∷ slots)
    of_snoc (inl l) = inl l
    of_snoc (inr (Memᴰ.head e)) = inr (Memᴰ.head e)
    of_snoc (inr (Memᴰ.tail l)) = absurd (Mem.not-nil l)

    added : Memᴰ s (seen ++ t ∷ []) ⊎ Memᴰ s slots → Memᴰ s seen ⊎ Memᴰ s (t ∷ slots)
    added (inl l) = of_snoc (Mem.append_cases seen l)
    added (inr l) = inr (Memᴰ.tail l)

dedupe-keeps :
    (s : TimeSlot) (seen slots : List TimeSlot)
    → any (same_texts s) seen ≡ true
    → any (same_texts s) (dedupe seen slots) ≡ true
unfolding dedupe
dedupe-keeps s seen [] h = h
dedupe-keeps s seen (t ∷ slots) h = elim (Bool-cases (any (same_texts t) seen)) [
  | inl e ↦ rw e (dedupe-keeps s seen slots h)
  | inr e ↦ rw e (
      dedupe-keeps s (seen ++ t ∷ []) slots
        (ground (arith, any-append (same_texts s) seen (t ∷ []))))
]

same_texts_refl : (s : TimeSlot) → same_texts s s ≡ true
same_texts_refl s = rw (eq_refl s.start_local_iso, eq_refl s.end_local_iso) refl

dedupe-has :
    (s : TimeSlot) (seen slots : List TimeSlot)
    → Memᴰ s slots
    → any (same_texts s) (dedupe seen slots) ≡ true
unfolding dedupe
dedupe-has s seen [] m = absurd (Mem.not-nil m)
dedupe-has s seen (t ∷ slots) (Memᴰ.tail m) =
    dedupe-has s (if any (same_texts t) seen then seen else seen ++ t ∷ []) slots m
dedupe-has s seen (t ∷ slots) (Memᴰ.head k) = rw k (elim (Bool-cases (any (same_texts t) seen)) [
  | inl e ↦ rw e (dedupe-keeps t seen slots e)
  | inr e ↦ rw e (
      dedupe-keeps t (seen ++ t ∷ []) slots
        (ground (arith, any-append (same_texts t) seen (t ∷ []), same_texts_refl t)))
])

-- What sorting does to a search and to a predicate.
All-insert_slot :
    (P : TimeSlot → Type 0) (s : TimeSlot) (slots : List TimeSlot)
    → P s
    → All P slots
    → All P (insert_slot s slots)
unfolding insert_slot
All-insert_slot P s [] p h = (p, tt)
All-insert_slot P s (t ∷ slots) p (q, h) =
    elim (Bool-cases (text_le s.start_local_iso t.start_local_iso)) [
      | inl e ↦ rw e (p, (q, h))
      | inr e ↦ rw e (q, All-insert_slot P s slots p h)
    ]

All-sort_slots :
    (P : TimeSlot → Type 0) (slots : List TimeSlot) → All P slots → All P (sort_slots slots)
unfolding sort_slots
All-sort_slots P [] h = tt
All-sort_slots P (s ∷ slots) (p, h) =
    All-insert_slot P s (sort_slots slots) p (All-sort_slots P slots h)

insert_slot-IsUnique :
    (s : TimeSlot) (slots : List TimeSlot)
    → All (λ t. same_texts s t ≡ false) slots
    → IsUnique slots
    → IsUnique (insert_slot s slots)
unfolding insert_slot
insert_slot-IsUnique s [] h k = (tt, tt)
insert_slot-IsUnique s (t ∷ slots) (p, h) (q, k) =
    elim (Bool-cases (text_le s.start_local_iso t.start_local_iso)) [
      | inl e ↦ rw e ((p, h), (q, k))
      | inr e ↦ rw e (
        All-insert_slot (λ u. same_texts t u ≡ false) s slots (same_texts_sym s t false p) q,
        insert_slot-IsUnique s slots h k,
      )
    ]

sort_slots-IsUnique : (slots : List TimeSlot) → IsUnique slots → IsUnique (sort_slots slots)
unfolding sort_slots
sort_slots-IsUnique [] h = tt
sort_slots-IsUnique (s ∷ slots) (p, h) =
    insert_slot-IsUnique s (sort_slots slots) (All-sort_slots (λ t. same_texts s t ≡ false) slots p)
      (sort_slots-IsUnique slots h)

any-insert_slot :
    (p : TimeSlot → Bool) (s : TimeSlot) (slots : List TimeSlot)
    → any p (insert_slot s slots) ≡ any p (s ∷ slots)
unfolding insert_slot
any-insert_slot p s [] = refl
any-insert_slot p s (t ∷ slots) = elim (Bool-cases (text_le s.start_local_iso t.start_local_iso)) [
  | inl e ↦ rw e refl
  | inr e ↦ rw e (ground (arith, any-insert_slot p s slots))
]

any-sort_slots :
    (p : TimeSlot → Bool) (slots : List TimeSlot) → any p (sort_slots slots) ≡ any p slots
unfolding sort_slots
any-sort_slots p [] = refl
any-sort_slots p (s ∷ slots) =
    ground (arith, any-insert_slot p s (sort_slots slots), any-sort_slots p slots)

All-of :
    (P : TimeSlot → Type 0) (slots : List TimeSlot)
    → ((s : TimeSlot) → Memᴰ s slots → P s)
    → All P slots
All-of P [] f = tt
All-of P (s ∷ slots) f = (f s (Memᴰ.head refl), All-of P slots (λ t m. f t (Memᴰ.tail m)))

sort_slots-Memᴰ : (s : TimeSlot) (slots : List TimeSlot) → Memᴰ s (sort_slots slots) → Memᴰ s slots
sort_slots-Memᴰ s slots m =
    All-Memᴰ (λ t. Memᴰ t slots) (sort_slots slots)
      (All-sort_slots (λ t. Memᴰ t slots) slots (All-of (λ t. Memᴰ t slots) slots (λ t k. k))) m

dedupe-only : (s : TimeSlot) (slots : List TimeSlot) → Memᴰ s (dedupe [] slots) → Memᴰ s slots
dedupe-only s slots m = elim (dedupe-Memᴰ s [] slots m) [
  | inl l ↦ absurd (Mem.not-nil l)
  | inr l ↦ l
]

-- The answer has each pair of texts once and in the order of the texts of the starts. Each slot of
-- it is one of the slots that were pushed, and each slot that was pushed is in it or has there
-- another with the same two texts.
pub dedupe_and_sort_slots_lem :
    (slots : List TimeSlot)
    → IsUnique (dedupe_and_sort_slots slots)
      × IsInOrder (dedupe_and_sort_slots slots)
      × ((s : TimeSlot) → Memᴰ s (dedupe_and_sort_slots slots) → Memᴰ s slots)
      × ((s : TimeSlot) → Memᴰ s slots → any (same_texts s) (dedupe_and_sort_slots slots) ≡ true)
dedupe_and_sort_slots_lem slots = (
  sort_slots-IsUnique (dedupe [] slots) (dedupe-IsUnique [] slots tt),
  sort_slots-IsInOrder (dedupe [] slots),
  λ s m. dedupe-only s slots (sort_slots-Memᴰ s (dedupe [] slots) m),
  λ s m. any-sort_slots (same_texts s) (dedupe [] slots) ∙ dedupe-has s [] slots m,
)
