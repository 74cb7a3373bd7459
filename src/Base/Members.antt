-- ===== src/Base/Members.antt =====
-- Boolean searches against membership.
use mathlib.Core.Path.{◌≡◌, refl, sym, subst}
use mathlib.Core.Logic.{inl, inr}
use mathlib.Core.Bool.{Bool, true, false}
use mathlib.Core.List.Memᴰ as Mem
use mathlib.Core.List.{List, [], ◌∷◌, Memᴰ}
use native.Mathlib.Omega.{arith}
use ms_calendar_service.Base.Tests.{Bool-cases}
use ms_calendar_service.Base.Lists.{any, keep, All}

module _ {ℓ} {A : Type ℓ} where
  pub any→Memᴰ : (p : A → Bool) (xs : List A) → any p xs ≡ true → (x : A) × Memᴰ x xs × (p x ≡ true)
  any→Memᴰ p [] h = cc
  any→Memᴰ p (x ∷ xs) h = elim (Bool-cases (p x)) [
    | inl e ↦ (x, Memᴰ.head refl, e)
    | inr e ↦ let (y, m, k) = any→Memᴰ p xs (rw e at h) in (y, Memᴰ.tail m, k)
  ]

  pub Memᴰ→any : (p : A → Bool) {x : A} {xs : List A} → Memᴰ x xs → p x ≡ true → any p xs ≡ true
  Memᴰ→any p (Memᴰ.head e) h = rw (← e) (rw h)
  Memᴰ→any p (Memᴰ.tail {x = y} m) h = elim (Bool-cases (p y)) [
    | inl e ↦ rw e
    | inr e ↦ rw e (Memᴰ→any p m h)
  ]

  pub any_false→All : (p : A → Bool) (xs : List A) → any p xs ≡ false → All (λ x. p x ≡ false) xs
  any_false→All p [] h = tt
  any_false→All p (x ∷ xs) h = (ground arith, any_false→All p xs (ground arith))

  pub All→any_false : (p : A → Bool) (xs : List A) → All (λ x. p x ≡ false) xs → any p xs ≡ false
  All→any_false p [] h = refl
  All→any_false p (x ∷ xs) (e, h) = rw e (All→any_false p xs h)

  pub All-Memᴰ {κ} : (P : A → Type κ) {x : A} (xs : List A) → All P xs → Memᴰ x xs → P x
  All-Memᴰ P [] h m = absurd (Mem.not-nil m)
  All-Memᴰ P (y ∷ xs) (p, h) (Memᴰ.head e) = subst P (sym e) p
  All-Memᴰ P (y ∷ xs) (p, h) (Memᴰ.tail m) = All-Memᴰ P xs h m

  pub All-map {κ μ} :
      (P : A → Type κ) (Q : A → Type μ) (xs : List A) → ((x : A) → P x → Q x) → All P xs → All Q xs
  All-map P Q [] f h = tt
  All-map P Q (x ∷ xs) f (p, h) = (f x p, All-map P Q xs f h)

  -- What a filter keeps is in the array and passes the test.
  pub keep-All : (p : A → Bool) (xs : List A) → All (λ x. Memᴰ x xs × (p x ≡ true)) (keep p xs)
  keep-All p [] = tt
  keep-All p (x ∷ xs) =
      let rest =
        All-map (λ y. Memᴰ y xs × (p y ≡ true)) (λ y. Memᴰ y (x ∷ xs) × (p y ≡ true)) (keep p xs)
          (λ y (m, e). (Memᴰ.tail m, e)) (keep-All p xs) in
      elim (Bool-cases (p x)) [ inl e ↦ rw e ((Memᴰ.head refl, e), rest) | inr e ↦ rw e rest ]

  -- A filter keeps every member that passes the test.
  pub keep-Memᴰ : (p : A → Bool) (x : A) (xs : List A) → Memᴰ x xs → p x ≡ true → Memᴰ x (keep p xs)
  keep-Memᴰ p x [] m h = absurd (Mem.not-nil m)
  keep-Memᴰ p x (y ∷ xs) (Memᴰ.head k) h = rw (← k) (rw h (Memᴰ.head refl))
  keep-Memᴰ p x (y ∷ xs) (Memᴰ.tail m) h = elim (Bool-cases (p y)) [
    | inl e ↦ rw e (Memᴰ.tail (keep-Memᴰ p x xs m h))
    | inr e ↦ rw e (keep-Memᴰ p x xs m h)
  ]
