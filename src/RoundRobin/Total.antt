-- ===== src/RoundRobin/Total.antt =====
-- When `pickWeightedSmoothRR` chooses somebody.
use mathlib.Core.List.Memᴰ as Mem
use mathlib.Core.List.{Memᴰ}
use ms_calendar_service.Base.{
  ℕ, ◌<◌, ◌≤◌, ◌≡◌, ◌≢◌, String, Option, none, some, List, [], ◌∷◌, true, refl, arith, All, ap, ltb,
  lt→ltb, eq_iff,
}
use ms_calendar_service.Base.Members.{All-Memᴰ}
use ms_calendar_service.Base.Int.{ℤ}
use ms_calendar_service.RoundRobin.{
  State, weight_of, total_weight, normalize_weight, Turn, take_turns, settle, choose_from, pick,
  pay,
}
use ms_calendar_service.RoundRobin.Texts.{sort_texts}
use ms_calendar_service.RoundRobin.Sorted.{All-sort_texts, sort_texts-Distinct}
use ms_calendar_service.RoundRobin.Leader.{take_turns_leader}
use ms_calendar_service.RoundRobin.Entries.{Distinct}
use ms_calendar_service.RoundRobin.Pool.{begin, Memᴰ-keep, All-tabulate}
use ms_calendar_service.RoundRobin.Pick.{
  ready, pool, ready_weight, in_pool, from_sorted, pool-Distinct,
}

weight_of-le-total_weight :
    (s : State) (v : String) (us : List String) → Memᴰ v us → weight_of s v ≤ total_weight s us
unfolding total_weight
weight_of-le-total_weight s v [] m = absurd (Mem.not-nil m)
weight_of-le-total_weight s v (u ∷ us) (Memᴰ.head e) = rw (ap (λ w. weight_of s w) e) (omega arith)
weight_of-le-total_weight s v (u ∷ us) (Memᴰ.tail m) =
    omega (arith, weight_of-le-total_weight s v us m)

settle_total :
    (total : ℕ) (t : Turn) (w : String)
    → t.chosen ≡ some w
    → w ≢ ""
    → settle total t ≡ some (w, pay total w t.state)
unfolding settle
settle_total total t w h n = ground (arith, eq_iff w "")

settled :
    (total : ℕ) (t : Turn) (v : String) (us : List String)
    → Memᴰ v us
    → t.max_cur ≡ none
    → Distinct us
    → All (λ w. w ≢ "") us
    → (u : String) × (s' : State) × (settle total (take_turns us t) ≡ some (u, s'))
settled total t v [] m h d n = absurd (Mem.not-nil m)
settled total t v (u ∷ us) m h d n =
    let (w, chosen, member, above) = take_turns_leader u us t h d in
    (w, _, settle_total total _ w chosen (All-Memᴰ (λ x. x ≢ "") (u ∷ us) n member))

-- If the eligible professionals are distinct, none has the empty text for an id, and one of them has
-- a positive weight, then the round robin chooses somebody.
pub pick_total :
    (weights : String → Option ℤ) (es : List String) (s : State) (v : String)
    → Distinct es
    → All (λ w. w ≢ "") es
    → Memᴰ v es
    → 0 < normalize_weight (weights v)
    → (u : String) × (s' : State) × (pick weights es s ≡ some (u, s'))
unfolding pick choose_from
pick_total weights [] s v d n m h = absurd (Mem.not-nil m)
pick_total weights (e ∷ es) s v d n m h =
    let us = e ∷ es in
    let p = λ (w : String). ltb 0 (weight_of (ready weights us s d) w) in
    let member = in_pool weights us s d v m h in
    let heavy =
      weight_of-le-total_weight (ready weights us s d) v (pool weights us s d)
        (from_sorted weights us s d v member) in
    let named =
      All-sort_texts (λ w. w ≢ "") (pool weights us s d)
        (All-tabulate (λ w. w ≢ "") (pool weights us s d)
          (λ w k. All-Memᴰ (λ x. x ≢ "") us n (Memᴰ-keep p w us k))) in
    let (u, s', e') =
      settled (total_weight (ready weights us s d) (pool weights us s d))
        (begin (ready weights us s d)) v (sort_texts (pool weights us s d)) member refl
        (sort_texts-Distinct (pool weights us s d) (pool-Distinct weights us s d)) named in
    let positive : ltb 0 (total_weight (ready weights us s d) (pool weights us s d)) ≡ true =
      lt→ltb 0 _ (omega (arith, heavy, ready_weight weights us s d v m)) in
    (u, s', rw positive e')
