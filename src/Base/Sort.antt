-- ===== src/Base/Sort.antt =====
-- The stable sort of the language's arrays, by a key.
use Prim.Native.Nat.{ℕ, ◌≤◌}
use mathlib.Core.Path.{◌≡◌, refl, ◌∙◌}
use mathlib.Core.Logic.{inl, inr}
use mathlib.Core.Bool.{Bool, ◌||◌}
use mathlib.Core.List.{List, [], ◌∷◌}
use native.Mathlib.Omega.{arith}
use ms_calendar_service.Base.Tests.{leb, if◌then◌else◌, Bool-cases, leb→le, leb_false→lt}
use ms_calendar_service.Base.Lists.{any, All}

module _ {ℓ} {A : Type ℓ} (key : A → ℕ) where
  pub insert_sorted : A → List A → List A
  insert_sorted x [] = x ∷ []
  insert_sorted x (y ∷ ys) = if leb (key x) (key y) then x ∷ y ∷ ys else y ∷ insert_sorted x ys

  unfoldable pub sort_by : List A → List A
  unfolding insert_sorted
  sort_by [] = []
  sort_by (x ∷ xs) = insert_sorted x (sort_by xs)

  abbrev pub IsSorted : List A → Type 0
  IsSorted [] = Unit
  IsSorted (x ∷ xs) = All (λ y. key x ≤ key y) xs × IsSorted xs

  pub All-insert_sorted {κ} :
      (P : A → Type κ) (x : A) (ys : List A) → P x → All P ys → All P (insert_sorted x ys)
  unfolding insert_sorted
  All-insert_sorted P x [] p h = (p, tt)
  All-insert_sorted P x (y ∷ ys) p (q, h) = elim (Bool-cases (leb (key x) (key y))) [
    | inl e ↦ rw e (p, (q, h))
    | inr e ↦ rw e (q, All-insert_sorted P x ys p h)
  ]

  pub All-sort_by {κ} : (P : A → Type κ) (xs : List A) → All P xs → All P (sort_by xs)
  unfolding sort_by
  All-sort_by P [] h = tt
  All-sort_by P (x ∷ xs) (p, h) = All-insert_sorted P x (sort_by xs) p (All-sort_by P xs h)

  All-le_trans : (n m : ℕ) (xs : List A) → n ≤ m → All (λ y. m ≤ key y) xs → All (λ y. n ≤ key y) xs
  All-le_trans n m [] h _ = tt
  All-le_trans n m (x ∷ xs) h (p, r) = (omega arith, All-le_trans n m xs h r)

  insert_sorted-IsSorted : (x : A) (ys : List A) → IsSorted ys → IsSorted (insert_sorted x ys)
  unfolding insert_sorted
  insert_sorted-IsSorted x [] h = (tt, tt)
  insert_sorted-IsSorted x (y ∷ ys) (b, h) = elim (Bool-cases (leb (key x) (key y))) [
    | inl e ↦ let le = leb→le _ _ e in rw e ((le, All-le_trans (key x) (key y) ys le b), (b, h))
    | inr e ↦
        let lt = leb_false→lt _ _ e in
        rw e (
          All-insert_sorted (λ z. key y ≤ key z) x ys (omega arith) b,
          insert_sorted-IsSorted x ys h,
        )
  ]

  -- A sorted array is in order of the key.
  pub sort_by-IsSorted : (xs : List A) → IsSorted (sort_by xs)
  unfolding sort_by
  sort_by-IsSorted [] = tt
  sort_by-IsSorted (x ∷ xs) = insert_sorted-IsSorted x (sort_by xs) (sort_by-IsSorted xs)

  any-insert_sorted :
      (p : A → Bool) (x : A) (ys : List A) → any p (insert_sorted x ys) ≡ (p x || any p ys)
  unfolding insert_sorted
  any-insert_sorted p x [] = refl
  any-insert_sorted p x (y ∷ ys) = ground (arith, any-insert_sorted p x ys)

  -- Sorting changes no search.
  pub any-sort_by : (p : A → Bool) (xs : List A) → any p (sort_by xs) ≡ any p xs
  unfolding sort_by
  any-sort_by p [] = refl
  any-sort_by p (x ∷ xs) = any-insert_sorted p x (sort_by xs) ∙ rw (any-sort_by p xs)
