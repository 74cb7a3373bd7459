-- ===== src/RoundRobin/Init.antt =====
-- The initialisation of the entries by `pickWeightedSmoothRR`.
use ms_calendar_service.Base.{
  ℕ, ◌≡◌, String, Option, none, some, List, [], ◌∷◌, refl, All, sym, ◌∙◌, ap,
}
use ms_calendar_service.Base.Int.{ℤ}
use ms_calendar_service.RoundRobin.{
  State, Entry, update, current_of, current_at, weight_of, weight_at, normalize_weight, init_entry,
  init_state,
}
use ms_calendar_service.RoundRobin.Entries.{NotIn, Distinct, update_self, update_other, sum_current}

-- What the initialisation makes of an entry: the new weight over the old credit.
abbrev pub IsInit : (String → Option ℤ) → State → State → String → Type 0
IsInit weights s s' v =
    (weight_of s' v ≡ normalize_weight (weights v)) × (current_of s' v ≡ current_of s v)

init_state_other :
    (weights : String → Option ℤ) (v : String) (us : List String) (s : State)
    → NotIn v us
    → init_state weights us s v ≡ s v
unfolding init_state
init_state_other weights v [] s h = refl
init_state_other weights v (u ∷ us) s (p, h) =
    let e = init_entry (normalize_weight (weights u)) (s u) in
    init_state_other weights v us (update s u e) h ∙ update_other s u v e (λ k. p (sym k))

init_entry_lem :
    (w : ℕ) (o : Option Entry)
    → ((init_entry w o).weight ≡ w) × ((init_entry w o).current ≡ current_at o)
unfolding init_entry
init_entry_lem w none = (refl, refl)
init_entry_lem w (some e) = (refl, refl)

IsInit-later :
    (weights : String → Option ℤ) (u : String) (e : Entry) (s s' : State) (vs : List String)
    → NotIn u vs
    → All (IsInit weights (update s u e) s') vs
    → All (IsInit weights s s') vs
IsInit-later weights u e s s' [] h k = tt
IsInit-later weights u e s s' (v ∷ vs) (p, h) ((a, b), k) =
    ((a, b ∙ ap current_at (update_other s u v e p)), IsInit-later weights u e s s' vs h k)

pub init_state-IsInit :
    (weights : String → Option ℤ) (us : List String) (s : State)
    → Distinct us
    → All (IsInit weights s (init_state weights us s)) us
unfolding init_state
init_state-IsInit weights [] s h = tt
init_state-IsInit weights (u ∷ us) s (p, h) =
    let e = init_entry (normalize_weight (weights u)) (s u) in
    let kept = init_state_other weights u us (update s u e) p ∙ update_self s u e in
    let (w, c) = init_entry_lem (normalize_weight (weights u)) (s u) in
    (
      (ap weight_at kept ∙ w, ap current_at kept ∙ c),
      IsInit-later weights u e s (init_state weights us (update s u e)) us p
          (init_state-IsInit weights us (update s u e) h),
    )

pub sum_current-IsInit :
    (weights : String → Option ℤ) (s s' : State) (us : List String)
    → All (IsInit weights s s') us
    → sum_current s' us ≡ sum_current s us
sum_current-IsInit weights s s' [] h = refl
sum_current-IsInit weights s s' (u ∷ us) ((_, c), h) = rw (c, sum_current-IsInit weights s s' us h)
