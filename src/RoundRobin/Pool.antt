-- ===== src/RoundRobin/Pool.antt =====
-- The pool of `pickWeightedSmoothRR`, and the credits after its rounds.
use mathlib.Core.List.Memᴰ as Mem
use mathlib.Core.List.{Memᴰ}
use ms_calendar_service.Base.{
  ◌≡◌, ◌≢◌, inl, inr, String, none, List, [], ◌∷◌, Bool, true, refl, arith, All, ap, Bool-cases,
  tests, ltb, keep, subst, if◌then◌else◌,
}
use ms_calendar_service.Base.Members.{keep-Memᴰ, All-Memᴰ, All-map}
use ms_calendar_service.Base.Int.{int_laws}
use ms_calendar_service.RoundRobin.{
  State, current_at, weight_of, total_weight, pool_of, Turn, take_turns,
}
use ms_calendar_service.RoundRobin.Texts.{sort_texts}
use ms_calendar_service.RoundRobin.Sorted.{All-sort_texts, sort_texts-Distinct, sort_texts-Memᴰ}
use ms_calendar_service.RoundRobin.Entries.{
  NotIn, Distinct, IsCredited, take_turns-IsCredited, take_turns_other,
}

pub All-tabulate {κ} :
    (P : String → Type κ) (us : List String) → ((v : String) → Memᴰ v us → P v) → All P us
All-tabulate P [] f = tt
All-tabulate P (u ∷ us) f = (f u (Memᴰ.head refl), All-tabulate P us (λ v m. f v (Memᴰ.tail m)))

NotIn-keep : (p : String → Bool) (u : String) (us : List String) → NotIn u us → NotIn u (keep p us)
NotIn-keep p u [] h = tt
NotIn-keep p u (v ∷ us) (q, h) = elim (Bool-cases (p v)) [
  | inl e ↦ rw e (q, NotIn-keep p u us h)
  | inr e ↦ rw e (NotIn-keep p u us h)
]

pub keep-Distinct : (p : String → Bool) (us : List String) → Distinct us → Distinct (keep p us)
keep-Distinct p [] h = tt
keep-Distinct p (u ∷ us) (q, h) = elim (Bool-cases (p u)) [
  | inl e ↦ rw e (NotIn-keep p u us q, keep-Distinct p us h)
  | inr e ↦ rw e (keep-Distinct p us h)
]

pub keep-All : (p : String → Bool) (us : List String) → All (λ u. p u ≡ true) (keep p us)
keep-All p [] = tt
keep-All p (u ∷ us) = elim (Bool-cases (p u)) [
  | inl e ↦ rw e (e, keep-All p us)
  | inr e ↦ rw e (keep-All p us)
]

module _ (p : String → Bool) (v : String) where
  pub Memᴰ-keep : (us : List String) → Memᴰ v (keep p us) → Memᴰ v us
  Memᴰ-keep [] m = absurd (Mem.not-nil m)
  Memᴰ-keep (u ∷ us) m = elim (Bool-cases (p u)) [
    | inl e ↦
        under (subst (λ (b : Bool). Memᴰ v (if b then u ∷ keep p us else keep p us)) e m)
          (Memᴰ-keep us)
    | inr e ↦
        Memᴰ.tail
          (Memᴰ-keep us (subst (λ (b : Bool). Memᴰ v (if b then u ∷ keep p us else keep p us)) e m))
  ]
    where
      under :
          {x : String} {xs ys : List String}
          → Memᴰ v (x ∷ xs)
          → (Memᴰ v xs → Memᴰ v ys)
          → Memᴰ v (x ∷ ys)
      under (Memᴰ.head e) f = Memᴰ.head e
      under (Memᴰ.tail m) f = Memᴰ.tail (f m)

pub total_weight-pool :
    (s : State) (us : List String) → total_weight s (pool_of s us) ≡ total_weight s us
unfolding total_weight
total_weight-pool s [] = refl
total_weight-pool s (u ∷ us) = elim (Bool-cases (ltb 0 (weight_of s u))) [
  | inl e ↦ rw e (omega (arith, total_weight-pool s us))
  | inr e ↦ rw e (omega (tests, e, total_weight-pool s us))
]

abbrev pub begin : State → Turn
begin s = record { state = s; max_cur = none; chosen = none }

abbrev pub rounds : State → List String → Turn
rounds s es = take_turns (sort_texts (pool_of s es)) (begin s)

-- The rounds credit every eligible professional: those out of the pool have no weight.
pub rounds-IsCredited :
    (s : State) (es : List String) → Distinct es → All (IsCredited s (rounds s es).state) es
rounds-IsCredited s es d = All-tabulate (IsCredited s (rounds s es).state) es credited
  where
    p : String → Bool
    p u = ltb 0 (weight_of s u)

    pool : List String
    pool = sort_texts (pool_of s es)

    credited : (v : String) → Memᴰ v es → IsCredited s (rounds s es).state v
    credited v m = elim (Bool-cases (p v)) [
      | inl e ↦
          All-Memᴰ (IsCredited s (rounds s es).state) pool
            (take_turns-IsCredited pool (begin s)
              (sort_texts-Distinct (pool_of s es) (keep-Distinct p es d)))
            (sort_texts-Memᴰ v (pool_of s es) (keep-Memᴰ p v es m e))
      | inr e ↦
          let out =
            All-sort_texts (λ w. v ≢ w) (pool_of s es)
              (All-map (λ w. p w ≡ true) (λ w. v ≢ w) (pool_of s es) (λ w k q. cc)
                (keep-All p es)) in
          let same = take_turns_other v pool (begin s) out in
          rw (ap current_at same) (omega (int_laws, e, tests))
    ]
