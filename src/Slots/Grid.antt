-- ===== src/Slots/Grid.antt =====
-- The loops over a grid of starts: they end, and push exactly what the starts in range emit.
use mathlib.Core.List.Memᴰ as Mem
use mathlib.Core.List.{Memᴰ}
use ms_calendar_service.Base.{
  ℕ, zero, suc, ◌≡◌, ◌≤◌, ◌<◌, ◌+◌, ◌-◌, if◌then◌else◌, ◌==◌, ◌*◌, ◌/◌, ◌%◌, ◌⊎◌, inl, inr, Option,
  some, List, [], ◌++◌, refl, arith, leb, Bool-cases, false, subst, sym, leb_false→lt, leb→le,
}
use ms_calendar_service.Availability.Zone.{Zone, IsZone, minute_ms}
use ms_calendar_service.Slots.{push_all, join_all, grid_loop, align_to_grid_ceil}

-- The run has a result, and the elements of the result are those of the predicate.
abbrev pub Collects {ℓ κ} : {A : Type ℓ} → (A → Type κ) → Option (List A) → Type (ℓ ⊔ κ)
Collects P r = (xs : List _) × (r ≡ some xs) × ((x : _) → (Memᴰ x xs → P x) × (P x → Memᴰ x xs))

module _ {ℓ κ} {A : Type ℓ} where
  pub push_all-Collects :
      (P Q : A → Type κ) (ys : List A) (r : Option (List A))
      → Collects P r
      → ((x : A) → (Memᴰ x ys → Q x) × (P x → Q x) × (Q x → Memᴰ x ys ⊎ P x))
      → Collects Q (push_all ys r)
  push_all-Collects P Q ys r (xs, e, h) k = (ys ++ xs, rw e refl, λ x. (to x, from x))
    where
      to : (x : A) → Memᴰ x (ys ++ xs) → Q x
      to x m = elim (Mem.append_cases ys m) [ inl l ↦ (k x).0 l | inr l ↦ (k x).1 ((h x).0 l) ]

      from : (x : A) → Q x → Memᴰ x (ys ++ xs)
      from x q = elim ((k x).2 q) [
        | inl l ↦ Mem.append_left xs l
        | inr l ↦ Mem.append_right ys ((h x).1 l)
      ]

  pub join_all-Collects :
      (P Q R : A → Type κ) (r s : Option (List A))
      → Collects P r
      → Collects Q s
      → ((x : A) → (P x → R x) × (Q x → R x) × (R x → P x ⊎ Q x))
      → Collects R (join_all r s)
  join_all-Collects P Q R r s (xs, e, h) c k = rw e (push_all-Collects Q R xs s c both)
    where
      from : (x : A) → R x → Memᴰ x xs ⊎ Q x
      from x q = elim ((k x).2 q) [ inl l ↦ inl ((h x).1 l) | inr l ↦ inr l ]

      both : (x : A) → (Memᴰ x xs → R x) × (Q x → R x) × (R x → Memᴰ x xs ⊎ Q x)
      both x = (λ m. (k x).0 ((h x).0 m), (k x).1, from x)

  pub nothing-Collects : (P : A → Type κ) → ((x : A) → ¬ P x) → Collects P (some [])
  nothing-Collects P n = ([], refl, λ x. (λ m. absurd (Mem.not-nil m), λ p. absurd (n x p)))

module _ {ℓ} {A : Type ℓ} (step extra end : ℕ) (emit : ℕ → List A) (positive : 0 < step) where
  -- Some start of the grid from `cur` is in range and emits the element.
  abbrev pub IsEmitted : ℕ → A → Type ℓ
  IsEmitted cur x = (k : ℕ) × (cur + k * step + extra ≤ end) × Memᴰ x (emit (cur + k * step))

  abbrev run : ℕ → ℕ → Option (List A)
  run fuel cur = grid_loop step extra end emit fuel cur

  step-IsEmitted :
      (cur : ℕ) (x : A)
      → cur + extra ≤ end
      → (Memᴰ x (emit cur) → IsEmitted cur x)
        × (IsEmitted (cur + step) x → IsEmitted cur x)
        × (IsEmitted cur x → Memᴰ x (emit cur) ⊎ IsEmitted (cur + step) x)
  step-IsEmitted cur x h = (here, later, split)
    where
      same : cur ≡ cur + 0 * step
      same = omega arith

      next : (k : ℕ) → cur + step + k * step ≡ cur + suc k * step
      next k = grind arith

      here : Memᴰ x (emit cur) → IsEmitted cur x
      here m = (0, omega arith, subst (λ t. Memᴰ x (emit t)) same m)

      later : IsEmitted (cur + step) x → IsEmitted cur x
      later (k, p, m) = (suc k, omega (arith, next k), subst (λ t. Memᴰ x (emit t)) (next k) m)

      split : IsEmitted cur x → Memᴰ x (emit cur) ⊎ IsEmitted (cur + step) x
      split (zero, p, m) = inl (subst (λ t. Memᴰ x (emit t)) (sym same) m)
      split (suc k, p, m) =
          inr (k, omega (arith, next k), subst (λ t. Memᴰ x (emit t)) (sym (next k)) m)

  grid-out : (fuel cur : ℕ) → leb (cur + extra) end ≡ false → run (suc fuel) cur ≡ some []
  unfolding grid_loop
  grid-out fuel cur out = rw out refl

  past-Collects : (fuel cur : ℕ) → end < cur + extra → Collects (IsEmitted cur) (run (suc fuel) cur)
  past-Collects fuel cur h =
      rw (grid-out fuel cur (ground arith))
        (nothing-Collects (IsEmitted cur) (λ x (k, p, m). omega arith))

  -- With enough fuel for the instants up to the end.
  pub grid_loop-Collects :
      (fuel cur : ℕ) → end < cur + fuel → Collects (IsEmitted cur) (run (suc fuel) cur)
  unfolding grid_loop
  grid_loop-Collects zero cur h = past-Collects zero cur (omega arith)
  grid_loop-Collects (suc fuel) cur h = elim (Bool-cases (leb (cur + extra) end)) [
    | inr out ↦ past-Collects (suc fuel) cur (leb_false→lt _ _ out)
    | inl fits ↦ rw fits (
        push_all-Collects (IsEmitted (cur + step)) (IsEmitted cur) (emit cur)
          (run (suc fuel) (cur + step)) (grid_loop-Collects fuel (cur + step) (omega arith))
          (λ x. step-IsEmitted cur x (leb→le _ _ fits)))
  ]

abbrev missing_to : ℕ → ℕ → ℕ
missing_to step d = if d % step == 0 then 0 else step - d % step

missing_to_lem :
    (step d : ℕ)
    → 0 < step
    → (missing_to step d < step) × ((q : ℕ) × (d + missing_to step d ≡ q * step))
missing_to_lem step d h = elim (Bool-cases (d % step == 0)) [
  | inl e ↦ rw e (omega arith, (d / step, grind arith))
  | inr e ↦ rw e (grind arith, (suc (d / step), grind arith))
]

align_to_grid_ceil_lem :
    (z : Zone) (lawful : IsZone z) (m step origin : ℕ)
    → m % 60000 ≡ 0
    → origin % 60000 ≡ 0
    → align_to_grid_ceil z m step origin ≡ m + missing_to step ((m - origin) / 60000) * 60000
unfolding align_to_grid_ceil
align_to_grid_ceil_lem z lawful m step origin p q =
    let origin_whole : z.whole_minute origin ≡ origin =
      omega (arith, lawful.whole_minute_lem origin) in
    rw (align_to_grid_ceil, origin_whole)
      (omega (arith, lawful.whole_minute_lem (m + missing_to step ((m - origin) / 60000) * 60000)))

-- The alignment rounds up to the grid of the day: from whole minutes, not before the origin, the
-- result is a point of the grid, not before the given time, and less than one step after it.
pub align_to_grid_ceil-least :
    (z : Zone) (lawful : IsZone z) (m step origin : ℕ)
    → 0 < step
    → origin ≤ m
    → m % 60000 ≡ 0
    → origin % 60000 ≡ 0
    → (m ≤ align_to_grid_ceil z m step origin)
      × (align_to_grid_ceil z m step origin < m + step * minute_ms)
      × ((q : ℕ) × (align_to_grid_ceil z m step origin ≡ origin + q * (step * minute_ms)))
align_to_grid_ceil-least z lawful m step origin h le p q =
    let e = align_to_grid_ceil_lem z lawful m step origin p q in
    let (small, (k, multiple)) = missing_to_lem step ((m - origin) / 60000) h in
    rw e (omega arith, omega (arith, small), (k, grind (arith, multiple)))
