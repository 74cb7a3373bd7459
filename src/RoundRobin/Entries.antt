-- ===== src/RoundRobin/Entries.antt =====
-- How the rounds of the weighted round robin move the entries.
use mathlib.Core.List.Memᴰ as Mem
use mathlib.Core.List.{Memᴰ}
use ms_calendar_service.Base.{
  ℕ, ◌≡◌, ◌≢◌, String, some, List, [], ◌∷◌, refl, arith, All, sym, ◌∙◌, ap, subst, eq_iff, eq_refl,
}
use ms_calendar_service.Base.Members.{All-Memᴰ}
use ms_calendar_service.Base.Int.{ℤ, pos, ◌+ℤ◌, ◌-ℤ◌, int_laws}
use ms_calendar_service.RoundRobin.{
  State, Entry, update, weight_of, current_of, current_at, weight_at, total_weight, Turn, advance,
  take_turns, pay,
}

abbrev pub NotIn : String → List String → Type 0
NotIn u us = All (λ v. u ≢ v) us

abbrev pub Distinct : List String → Type 0
Distinct [] = Unit
Distinct (u ∷ us) = NotIn u us × Distinct us

pub update_self : (s : State) (u : String) (e : Entry) → update s u e u ≡ some e
update_self s u e = rw (eq_refl u)

pub update_other : (s : State) (u v : String) (e : Entry) → u ≢ v → update s u e v ≡ s v
update_other s u v e h = ground (arith, eq_iff u v)

-- The credit of a list of professionals.
abbrev pub sum_current : State → List String → ℤ
sum_current s [] = pos 0
sum_current s (u ∷ us) = current_of s u +ℤ sum_current s us

pub advance_other : (u v : String) (t : Turn) → u ≢ v → (advance u t).state v ≡ t.state v
unfolding advance
advance_other u v t h = ground (arith, eq_iff u v)

pub advance_self :
    (u : String) (t : Turn)
    → (current_of (advance u t).state u ≡ current_of t.state u +ℤ pos (weight_of t.state u))
      × (weight_of (advance u t).state u ≡ weight_of t.state u)
unfolding advance
advance_self u t = (ground (arith, eq_refl u), ground (arith, eq_refl u))

pub take_turns_other :
    (v : String) (us : List String) (t : Turn) → NotIn v us → (take_turns us t).state v ≡ t.state v
unfolding take_turns
take_turns_other v [] t h = refl
take_turns_other v (u ∷ us) t (p, h) =
    take_turns_other v us (advance u t) h ∙ advance_other u v t (λ e. p (sym e))

-- After the rounds a professional has the credit of its weight on top of what it had.
abbrev pub IsCredited : State → State → String → Type 0
IsCredited s r v = current_of r v ≡ current_of s v +ℤ pos (weight_of s v)

IsCredited-later :
    (u : String) (us vs : List String) (t : Turn)
    → NotIn u vs
    → All (IsCredited (advance u t).state (take_turns us (advance u t)).state) vs
    → All (IsCredited t.state (take_turns us (advance u t)).state) vs
IsCredited-later u us [] t h k = tt
IsCredited-later u us (v ∷ vs) t (p, h) (e, k) =
    let same = advance_other u v t p in
    (rw (ap current_at same, ap weight_at same) at e, IsCredited-later u us vs t h k)

-- The rounds give every professional of the pool the credit of its weight.
pub take_turns-IsCredited :
    (us : List String) (t : Turn)
    → Distinct us
    → All (IsCredited t.state (take_turns us t).state) us
unfolding take_turns
take_turns-IsCredited [] t h = tt
take_turns-IsCredited (u ∷ us) t (p, h) = (
  ap current_at (take_turns_other u us (advance u t) p) ∙ (advance_self u t).0,
  IsCredited-later u us us t p (take_turns-IsCredited us (advance u t) h),
)

-- If every professional of a list is credited, the list's credit grows by its total weight.
pub sum_current-IsCredited :
    (s r : State) (us : List String)
    → All (IsCredited s r) us
    → sum_current r us ≡ sum_current s us +ℤ pos (total_weight s us)
unfolding total_weight
sum_current-IsCredited s r [] h = omega int_laws
sum_current-IsCredited s r (u ∷ us) (e, h) =
    rw (e, sum_current-IsCredited s r us h) (omega int_laws)

pay_other : (total : ℕ) (u v : String) (s : State) → u ≢ v → pay total u s v ≡ s v
unfolding pay
pay_other total u v s h = ground (arith, eq_iff u v)

pay_self :
    (total : ℕ) (u : String) (s : State)
    → current_of (pay total u s) u ≡ current_of s u -ℤ pos total
unfolding pay
pay_self total u s = rw (eq_refl u)

sum_current-pay_other :
    (total : ℕ) (u : String) (s : State) (us : List String)
    → NotIn u us
    → sum_current (pay total u s) us ≡ sum_current s us
sum_current-pay_other total u s [] h = refl
sum_current-pay_other total u s (v ∷ us) (p, h) =
    rw (ap current_at (pay_other total u v s p), sum_current-pay_other total u s us h)

-- The payment takes the total from the credit of the list.
pub sum_current-pay :
    (total : ℕ) (u : String) (s : State) (us : List String)
    → Memᴰ u us
    → Distinct us
    → sum_current (pay total u s) us ≡ sum_current s us -ℤ pos total
sum_current-pay total u s (v ∷ us) (Memᴰ.head e) (p, h) =
    let here =
      subst (λ w. current_of (pay total u s) w ≡ current_of s w -ℤ pos total) e
        (pay_self total u s) in
    let there = sum_current-pay_other total u s us (subst (λ w. NotIn w us) (sym e) p) in
    rw (here, there) (omega int_laws)
sum_current-pay total u s (v ∷ us) (Memᴰ.tail m) (p, h) =
    let ne = All-Memᴰ (λ w. v ≢ w) us p m in
    rw (ap current_at (pay_other total u v s (λ e. ne (sym e))), sum_current-pay total u s us m h)
      (omega int_laws)
sum_current-pay total u s [] m h = absurd (Mem.not-nil m)
