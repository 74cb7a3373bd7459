-- ===== src/Base/Sets.antt =====
-- A set of texts, in the order of insertion.
use text.Mathlib.Text.{◌==◌ as str_eq}
use text.Mathlib.TextEquality.{eq_iff}
use native.Mathlib.Omega.{arith}
use Prim.Native.String.{String}
use mathlib.Core.Path.{◌≡◌, sym, subst, ◌∙◌}
use mathlib.Core.Logic.{◌⊎◌, inl, inr}
use mathlib.Core.List.Memᴰ as Mem
use mathlib.Core.List.{List, [], ◌∷◌, ◌++◌, Memᴰ}
use ms_calendar_service.Base.Tests.{if◌then◌else◌, Bool-cases}
use ms_calendar_service.Base.Lists.{any}
use ms_calendar_service.Base.Members.{any→Memᴰ}

-- The texts of a list, each at its first place (`new Set`).
unfoldable pub add_all : List String → List String → List String
add_all seen [] = seen
add_all seen (id ∷ ids) = add_all (if any (str_eq id) seen then seen else seen ++ id ∷ []) ids

-- A set of texts has all that was put into it.
pub add_all_keeps : (x : String) (ids seen : List String) → Memᴰ x seen → Memᴰ x (add_all seen ids)
unfolding add_all
add_all_keeps x [] seen m = m
add_all_keeps x (id ∷ ids) seen m = elim (Bool-cases (any (str_eq id) seen)) [
  | inl t ↦ rw (t, add_all) (add_all_keeps x ids seen m)
  | inr t ↦ rw (t, add_all) (add_all_keeps x ids (seen ++ id ∷ []) (Mem.append_left (id ∷ []) m))
]

pub add_all_adds : (x : String) (ids seen : List String) → Memᴰ x ids → Memᴰ x (add_all seen ids)
unfolding add_all
add_all_adds x [] seen m = absurd (Mem.not-nil m)
add_all_adds x (id ∷ ids) seen (Memᴰ.tail m) = add_all_adds x ids _ m
add_all_adds x (id ∷ ids) seen (Memᴰ.head same) =
    add_all_keeps x ids _ (elim (Bool-cases (any (str_eq id) seen)) [
      | inl t ↦
          let (y, m, k) = any→Memᴰ (str_eq id) seen t in
          let found : x ≡ y = same ∙ ground (arith, eq_iff id y) in
          rw t (subst (λ z. Memᴰ z seen) (sym found) m)
      | inr t ↦ rw t (Mem.append_right seen (Memᴰ.head same))
    ])

add_all_from :
    (x : String) (ids seen : List String) → Memᴰ x (add_all seen ids) → Memᴰ x seen ⊎ Memᴰ x ids
unfolding add_all
add_all_from x [] seen m = inl m
add_all_from x (id ∷ ids) seen m = elim (Bool-cases (any (str_eq id) seen)) [
  | inl t ↦ later (add_all_from x ids seen (rw t at m))
  | inr t ↦ added (add_all_from x ids (seen ++ id ∷ []) (rw t at m))
]
  where
    later : Memᴰ x seen ⊎ Memᴰ x ids → Memᴰ x seen ⊎ Memᴰ x (id ∷ ids)
    later (inl l) = inl l
    later (inr l) = inr (Memᴰ.tail l)

    of_snoc : Memᴰ x seen ⊎ Memᴰ x (id ∷ []) → Memᴰ x seen ⊎ Memᴰ x (id ∷ ids)
    of_snoc (inl l) = inl l
    of_snoc (inr (Memᴰ.head e)) = inr (Memᴰ.head e)
    of_snoc (inr (Memᴰ.tail l)) = absurd (Mem.not-nil l)

    added : Memᴰ x (seen ++ id ∷ []) ⊎ Memᴰ x ids → Memᴰ x seen ⊎ Memᴰ x (id ∷ ids)
    added (inl l) = of_snoc (Mem.append_cases seen l)
    added (inr l) = inr (Memᴰ.tail l)

-- And nothing else.
pub add_all_only : (x : String) (ids : List String) → Memᴰ x (add_all [] ids) → Memᴰ x ids
add_all_only x ids m = elim (add_all_from x ids [] m) [ inl l ↦ absurd (Mem.not-nil l) | inr l ↦ l ]
