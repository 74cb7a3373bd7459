-- ===== src/RoundRobin/Pick.antt =====
-- What `pickWeightedSmoothRR` chooses, and what it does to the credits.
use mathlib.Core.List.{Memᴰ}
use mathlib.Core.Path.{ap₂}
use ms_calendar_service.Base.{
  ℕ, ◌<◌, ◌≡◌, inl, inr, String, Option, none, some, List, [], ◌∷◌, true, refl, arith, All, ◌∙◌,
  ltb→lt, lt→ltb, Bool-cases, ltb, subst, sym,
}
use ms_calendar_service.Base.Members.{keep-Memᴰ, All-Memᴰ}
use ms_calendar_service.Base.Int.{ℤ, pos, ◌+ℤ◌, ◌≤ℤ◌, int_laws}
use ms_calendar_service.RoundRobin.{
  State, current_of, weight_of, total_weight, pool_of, normalize_weight, init_state, Turn,
  take_turns, pay, settle, choose_from, pick,
}
use ms_calendar_service.RoundRobin.Texts.{sort_texts}
use ms_calendar_service.RoundRobin.Sorted.{All-sort_texts, sort_texts-Distinct, sort_texts-Memᴰ}
use ms_calendar_service.RoundRobin.Leader.{Below, take_turns_leader}
use ms_calendar_service.RoundRobin.Entries.{
  Distinct, sum_current, IsCredited, sum_current-IsCredited, sum_current-pay,
}
use ms_calendar_service.RoundRobin.Init.{IsInit, init_state-IsInit, sum_current-IsInit}
use ms_calendar_service.RoundRobin.Pool.{
  Memᴰ-keep, keep-Distinct, keep-All, total_weight-pool, begin, rounds, All-tabulate,
  rounds-IsCredited,
}

settle_inv :
    (total : ℕ) (t : Turn) (w u : String) (s : State)
    → t.chosen ≡ some w
    → settle total t ≡ some (u, s)
    → (w ≡ u) × (s ≡ pay total u t.state)
unfolding settle
settle_inv total t w u s h e = ground arith

settle-none : (total : ℕ) (t : Turn) → t.chosen ≡ none → settle total t ≡ none
unfolding settle
settle-none total t h = rw (h, settle)

leader_of :
    (pool : List String) (t : Turn) (total : ℕ) (u : String) (s' : State)
    → t.max_cur ≡ none
    → t.chosen ≡ none
    → Distinct pool
    → settle total (take_turns pool t) ≡ some (u, s')
    → Memᴰ u pool
      × All (Below (take_turns pool t).state u) pool
      × (s' ≡ pay total u (take_turns pool t).state)
unfolding take_turns
leader_of [] t total u s' m c d h = absurd (none_ne (sym (settle-none total t c) ∙ h))
  where
    none_ne : {A : Type 0} {a : A} → none ≡ some a → ⊥
    none_ne e = cc
leader_of (x ∷ pool) t total u s' m c d h =
    let (w, chosen, member, above) = take_turns_leader x pool t m d in
    let (same, paid) = settle_inv total _ w u s' chosen h in
    (
      subst (λ v. Memᴰ v (x ∷ pool)) same member,
      subst (λ v. All (Below (take_turns (x ∷ pool) t).state v) (x ∷ pool)) same above,
      paid,
    )

-- What is wanted of a choice of `u` among the eligible professionals.
pub record IsFair (weights : String → Option ℤ) (es : List String) (s : State) (u : String)
    (s' : State) : Type 0 where
  pub eligible : Memᴰ u es
  pub weighted : 0 < normalize_weight (weights u)
  pub largest :
      All
        (λ v.
          0 < normalize_weight (weights v)
          → current_of s v +ℤ pos (normalize_weight (weights v))
            ≤ℤ current_of s u +ℤ pos (normalize_weight (weights u)))
        es
  pub conserved : sum_current s' es ≡ sum_current s es

choose_from_inv :
    (s : State) (pool : List String) (u : String) (s' : State)
    → choose_from s pool ≡ some (u, s')
    → settle (total_weight s pool) (take_turns (sort_texts pool) (begin s)) ≡ some (u, s')
unfolding choose_from
choose_from_inv s pool u s' h = elim (Bool-cases (ltb 0 (total_weight s pool))) [
  | inl e ↦ rw e at h
  | inr e ↦ let k : none ≡ some (u, s') = rw e at h in cc k
]

-- A credited entry, in terms of the weights and of the credits before the initialisation.
credit_lem :
    (weights : String → Option ℤ) (s s0 r : State) (v : String)
    → IsInit weights s s0 v
    → IsCredited s0 r v
    → current_of r v ≡ current_of s v +ℤ pos (normalize_weight (weights v))
credit_lem weights s s0 r v (w, c) e = e ∙ ap₂ (λ x n. x +ℤ pos n) c w

module _ (weights : String → Option ℤ) (es : List String) (s : State) (d : Distinct es) where
  abbrev pub ready : State
  ready = init_state weights es s

  abbrev pub pool : List String
  pool = pool_of ready es

  abbrev after : State
  after = (rounds ready es).state

  credit :
      (v : String)
      → Memᴰ v es
      → current_of after v ≡ current_of s v +ℤ pos (normalize_weight (weights v))
  credit v m =
      credit_lem weights s ready after v
        (All-Memᴰ (IsInit weights s ready) es (init_state-IsInit weights es s d) m)
        (All-Memᴰ (IsCredited ready after) es (rounds-IsCredited ready es d) m)

  pub ready_weight : (v : String) → Memᴰ v es → weight_of ready v ≡ normalize_weight (weights v)
  ready_weight v m = (All-Memᴰ (IsInit weights s ready) es (init_state-IsInit weights es s d) m).0

  pub from_sorted : (u : String) → Memᴰ u (sort_texts pool) → Memᴰ u pool
  from_sorted u m =
      All-Memᴰ (λ w. Memᴰ w pool) (sort_texts pool)
        (All-sort_texts (λ w. Memᴰ w pool) pool (All-tabulate (λ w. Memᴰ w pool) pool (λ w k. k))) m

  pub in_pool :
      (v : String) → Memᴰ v es → 0 < normalize_weight (weights v) → Memᴰ v (sort_texts pool)
  in_pool v m h =
      sort_texts-Memᴰ v pool
        (keep-Memᴰ (λ w. ltb 0 (weight_of ready w)) v es m (lt→ltb 0 _ (rw (ready_weight v m) h)))

  pub pool-Distinct : Distinct pool
  pool-Distinct = keep-Distinct (λ v. ltb 0 (weight_of ready v)) es d

  IsFair-of_settle :
      (u : String) (s' : State)
      → settle (total_weight ready pool) (rounds ready es) ≡ some (u, s')
      → IsFair weights es s u s'
  IsFair-of_settle u s' h =
      let p = λ (v : String). ltb 0 (weight_of ready v) in
      let (chosen, above, paid) =
        leader_of (sort_texts pool) (begin ready) (total_weight ready pool) u s' refl refl
          (sort_texts-Distinct pool pool-Distinct) h in
      let m = Memᴰ-keep p u es (from_sorted u chosen) in
      record {
        eligible = m;
        weighted =
            rw (← ready_weight u m)
              (ltb→lt 0 _ (All-Memᴰ (λ w. p w ≡ true) pool (keep-All p es) (from_sorted u chosen)));
        largest = All-tabulate _ es (λ v k w.
            rw (← credit v k, ← credit u m)
              (All-Memᴰ (Below after u) (sort_texts pool) above (in_pool v k w)));
        conserved =
            rw
              (
                paid,
                sum_current-pay (total_weight ready pool) u after es m d,
                sum_current-IsCredited ready after es (rounds-IsCredited ready es d),
                sum_current-IsInit weights s ready es (init_state-IsInit weights es s d),
                total_weight-pool ready es,
              )
              (omega int_laws);
      }

-- A professional that the round robin chooses among distinct eligible ones is eligible, has a
-- positive weight, and had the largest sum of credit and weight of those with a positive weight;
-- and the credits of the eligible professionals add up to what they did before.
pub pick-IsFair :
    (weights : String → Option ℤ) (es : List String) (s : State) (u : String) (s' : State)
    → Distinct es
    → pick weights es s ≡ some (u, s')
    → IsFair weights es s u s'
unfolding pick
pick-IsFair weights [] s u s' d h = cc
pick-IsFair weights (e ∷ es) s u s' d h =
    IsFair-of_settle weights (e ∷ es) s d u s' (choose_from_inv _ _ u s' h)
