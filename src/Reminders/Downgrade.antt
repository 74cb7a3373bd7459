-- ===== src/Reminders/Downgrade.antt =====
-- What a rescheduled reminder satisfies.
use ms_calendar_service.Base.{
  ℕ, ◌≡◌, ◌≤◌, ◌<◌, ◌+◌, ◌-◌, ◌*◌, inl, inr, Option, none, some, Bool, true, false, List, [], ◌∷◌,
  refl, sym, arith, tests, All, Bool-cases, Option-cases, subst, ltb, leb, find, min,
}
use ms_calendar_service.Base.Int.{pos, ◌-ℤ◌, ltb_ℤ, pos_part}
use ms_calendar_service.Reminders.{
  DowngradeOpts, or_default, minutes_until, insert_descending, sort_descending, effective_offset,
  too_soon, plan_at, downgrade_reminder_schedule, Env, should_send_reminder,
}

All-insert_descending :
    (P : ℕ → Type 0) (b : ℕ) (bs : List ℕ) → P b → All P bs → All P (insert_descending b bs)
unfolding insert_descending
All-insert_descending P b [] p h = (p, tt)
All-insert_descending P b (c ∷ cs) p (q, h) = elim (Bool-cases (leb c b)) [
  | inl e ↦ rw e (p, (q, h))
  | inr e ↦ rw e (q, All-insert_descending P b cs p h)
]

All-of-insert_descending :
    (P : ℕ → Type 0) (b : ℕ) (bs : List ℕ) → All P (insert_descending b bs) → P b × All P bs
unfolding insert_descending
All-of-insert_descending P b [] h = h
All-of-insert_descending P b (c ∷ cs) h = elim (Bool-cases (leb c b)) [
  | inl e ↦ rw (e, insert_descending) at h
  | inr e ↦
      let (q, rest) : P c × All P (insert_descending b cs) = rw (e, insert_descending) at h in
      let (p, r) = All-of-insert_descending P b cs rest in (p, (q, r))
]

abbrev IsDescending : List ℕ → Type 0
IsDescending [] = Unit
IsDescending (b ∷ bs) = All (λ c. c ≤ b) bs × IsDescending bs

All-le_trans : (n m : ℕ) (bs : List ℕ) → n ≤ m → All (λ c. c ≤ n) bs → All (λ c. c ≤ m) bs
All-le_trans n m [] h _ = tt
All-le_trans n m (b ∷ bs) h (p, r) = (omega arith, All-le_trans n m bs h r)

insert_descending-IsDescending :
    (b : ℕ) (bs : List ℕ) → IsDescending bs → IsDescending (insert_descending b bs)
unfolding insert_descending
insert_descending-IsDescending b [] h = (tt, tt)
insert_descending-IsDescending b (c ∷ cs) (d, h) = elim (Bool-cases (leb c b)) [
  | inl e ↦ let le : c ≤ b = omega (tests, e) in rw e ((le, All-le_trans c b cs le d), (d, h))
  | inr e ↦
      let le : b ≤ c = omega (tests, e) in
      rw e (All-insert_descending (λ x. x ≤ c) b cs le d, insert_descending-IsDescending b cs h)
]

sort_descending-IsDescending : (bs : List ℕ) → IsDescending (sort_descending bs)
unfolding sort_descending
sort_descending-IsDescending [] = tt
sort_descending-IsDescending (b ∷ bs) =
    insert_descending-IsDescending b (sort_descending bs) (sort_descending-IsDescending bs)

All-of-sort_descending : (P : ℕ → Type 0) (bs : List ℕ) → All P (sort_descending bs) → All P bs
unfolding sort_descending
All-of-sort_descending P [] h = tt
All-of-sort_descending P (b ∷ bs) h =
    let (p, r) = All-of-insert_descending P b (sort_descending bs) h in
    (p, All-of-sort_descending P bs r)

-- The bucket fits, and no bucket that fits is larger.
abbrev pub IsLargest : List ℕ → ℕ → ℕ → Type 0
IsLargest bs largest b = (b ≤ largest) × All (λ c. c ≤ largest → c ≤ b) bs

All-weaken : (b n : ℕ) (bs : List ℕ) → All (λ c. c ≤ b) bs → All (λ c. c ≤ n → c ≤ b) bs
All-weaken b n [] h = tt
All-weaken b n (c ∷ cs) (p, h) = (λ _. p, All-weaken b n cs h)

find-IsLargest :
    (largest b : ℕ) (ds : List ℕ)
    → IsDescending ds
    → find (λ c. leb c largest) ds ≡ some b
    → IsLargest ds largest b
find-IsLargest largest b [] d h = cc
find-IsLargest largest b (c ∷ ds) (below, d) h = elim (Bool-cases (leb c largest)) [
  | inl e ↦
      let same : c ≡ b = cc in
      subst (IsLargest (c ∷ ds) largest) same
        (omega (tests, e), (λ _. omega arith, All-weaken c largest ds below))
  | inr e ↦
      let (fits, all) = find-IsLargest largest b ds d (rw e at h) in
      (fits, (λ le. absurd (let lt : largest < c = omega (tests, e) in omega arith), all))
]

effective_offset-IsLargest :
    (buckets_only : Bool) (bs : List ℕ) (largest e : ℕ)
    → effective_offset buckets_only bs largest ≡ some e
    → IsLargest bs largest e
unfolding effective_offset
effective_offset-IsLargest true [] largest e h = cc
effective_offset-IsLargest false [] largest e h =
    let same : largest ≡ e = cc in (omega (arith, same), tt)
effective_offset-IsLargest buckets_only (b ∷ bs) largest e h =
    elim (Option-cases (find (λ c. leb c largest) (sort_descending (b ∷ bs)))) [
      | inl t ↦ cc
      | inr (d, t) ↦ elim (Bool-cases (ltb 0 d)) [
        | inr k ↦ cc
        | inl k ↦
            let same : d ≡ e = cc in
            let (fits, all) =
              find-IsLargest largest d (sort_descending (b ∷ bs))
                (sort_descending-IsDescending (b ∷ bs)) t in
            subst (IsLargest (b ∷ bs) largest) same
              (fits, All-of-sort_descending (λ c. c ≤ largest → c ≤ d) (b ∷ bs) all)
      ]
    ]

-- What is wanted of a plan at `now`: the schedule is the offset before the start, the offset is at
-- most the requested one and at least the smallest one, the appointment's window is left between
-- the schedule and the present, and no bucket that would do is larger.
abbrev pub IsPlanned : ℕ → ℕ → ℕ → DowngradeOpts → ℕ × ℕ → Type 0
IsPlanned start requested now opts (next, offset) =
    (next + offset * 60000 ≡ start)
    × (offset ≤ requested)
    × (or_default opts.min_offset_minutes 5 ≤ offset)
    × (now + opts.min_window_minutes * 60000 ≤ next)
    × All (λ c. c ≤ requested → now + (c + opts.min_window_minutes) * 60000 ≤ start → c ≤ offset)
        opts.allowed_buckets

largest_fits :
    (start now window least e : ℕ)
    → ltb_ℤ (minutes_until start now -ℤ pos window) (pos least) ≡ false
    → e ≤ pos_part (minutes_until start now -ℤ pos window)
    → now + (e + window) * 60000 ≤ start
unfolding minutes_until ◌-ℤ◌
largest_fits start now window least e h k = ground arith

fits_largest :
    (start now window e : ℕ)
    → now + (e + window) * 60000 ≤ start
    → e ≤ pos_part (minutes_until start now -ℤ pos window)
unfolding minutes_until ◌-ℤ◌
fits_largest start now window e h = ground arith

plan_at-inv :
    (start least : ℕ) (o : Option ℕ) (r : ℕ × ℕ)
    → plan_at start least o ≡ some r
    → (e : ℕ) × (o ≡ some e) × (least ≤ e) × (r ≡ (start - e * 60000, e))
unfolding plan_at
plan_at-inv start least none r h = cc
plan_at-inv start least (some e) r h = elim (Bool-cases (ltb e least)) [
  | inl t ↦ cc
  | inr t ↦ (e, refl, omega (tests, t), cc)
]

buckets_fit :
    (start requested now window offset largest : ℕ) (bs : List ℕ)
    → largest ≡ min requested (pos_part (minutes_until start now -ℤ pos window))
    → All (λ c. c ≤ largest → c ≤ offset) bs
    → All (λ c. c ≤ requested → now + (c + window) * 60000 ≤ start → c ≤ offset) bs
buckets_fit start requested now window offset largest [] same h = tt
buckets_fit start requested now window offset largest (c ∷ cs) same (p, h) = (
  λ le fits. p (omega (arith, same, le, fits_largest start now window c fits)),
  buckets_fit start requested now window offset largest cs same h,
)

-- A reminder that is rescheduled is planned for its offset before the start. The offset is at most
-- the requested one and at least the smallest one, the schedule is at least the minimal window after
-- the present, and no allowed bucket that would do is larger than the offset.
pub downgrade_reminder_schedule-IsPlanned :
    (start requested now : ℕ) (opts : DowngradeOpts) (r : ℕ × ℕ)
    → downgrade_reminder_schedule start requested now opts ≡ some r
    → IsPlanned start requested now opts r
unfolding downgrade_reminder_schedule
downgrade_reminder_schedule-IsPlanned start requested now opts r h =
    let minutes = minutes_until start now in
    let largest = minutes -ℤ pos opts.min_window_minutes in
    let least = or_default opts.min_offset_minutes 5 in
    elim (Bool-cases opts.allow_downgrade) [
      | inr a ↦ cc
      | inl a ↦ elim (Bool-cases (too_soon opts.min_remaining_to_allow_downgrade minutes)) [
        | inl t ↦ cc
        | inr t ↦ elim (Bool-cases (ltb_ℤ largest (pos least))) [
          | inl l ↦ cc
          | inr l ↦
              let (e, chosen, low, same) = plan_at-inv start least _ r cc in
              let (fits, all) =
                effective_offset-IsLargest opts.buckets_only opts.allowed_buckets
                  (min requested (pos_part largest)) e chosen in
              let room =
                largest_fits start now opts.min_window_minutes least e l (omega (arith, fits)) in
              subst (IsPlanned start requested now opts) (sym same) (
                omega (arith, room),
                omega (arith, fits),
                low,
                omega (arith, room),
                buckets_fit start requested now opts.min_window_minutes e _ opts.allowed_buckets
                    refl all,
              )
        ]
      ]
    ]

-- If the smallest offset is positive and both rules use one minimal window, then a reminder that is
-- rescheduled is one that is sent: the test on notifications lets it pass at the same instant.
pub downgrade-is_sent :
    (env : Env) (start requested now : ℕ) (opts : DowngradeOpts) (r : ℕ × ℕ)
    → env.min_window_minutes ≡ opts.min_window_minutes
    → 0 < or_default opts.min_offset_minutes 5
    → downgrade_reminder_schedule start requested now opts ≡ some r
    → should_send_reminder env now r.0 (some r.1) ≡ true
unfolding should_send_reminder
downgrade-is_sent env start requested now opts r same positive h =
    let (on, at_most, at_least, room, _) =
      downgrade_reminder_schedule-IsPlanned start requested now opts r h in
    ground (arith, on, at_least, room, same, positive)
