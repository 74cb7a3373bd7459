-- ===== src/Slots/Planned.antt =====
-- What is offered for several services in sequence.
use mathlib.Core.List.Memᴰ as Mem
use mathlib.Core.List.{Memᴰ}
use ms_calendar_service.Base.{
  ℕ, suc, ◌≡◌, ◌<◌, ◌*◌, ◌⊎◌, inl, inr, String, true, List, [], ◌∷◌, refl, arith, ltb, All,
  Bool-cases, subst, ◌∙◌, any, ◌==◌,
}
use ms_calendar_service.Base.Members.{All-Memᴰ, Memᴰ→any, any→Memᴰ}
use ms_calendar_service.Base.Sets.{add_all, add_all_adds, add_all_only}
use ms_calendar_service.Base.Sort.{sort_by, All-sort_by, any-sort_by}
use ms_calendar_service.Availability.Zone.{Zone, minute_ms}
use ms_calendar_service.Availability.Windows.{Window}
use ms_calendar_service.Slots.{Clock, align_to_grid_ceil}
use ms_calendar_service.Slots.Grid.{
  Collects, join_all-Collects, nothing-Collects, IsEmitted, grid_loop-Collects,
}
use ms_calendar_service.Slots.Multi.{
  MultiDay, range_start, range_end, key_at, keys_of_window, keys_of_windows, keys_of_users,
  candidates_of, instant,
}

module _ (z : Zone) (clock : Clock) (d : MultiDay) (positive : 0 < d.step_minutes) where
  -- The text of a start on the grid, in the range of the window.
  abbrev pub IsKeyIn : Window → String → Type 0
  IsKeyIn w k =
      (range_start z d w < range_end z d w)
      × IsEmitted (d.step_minutes * minute_ms) 0 (range_end z d w) (key_at clock) (omega arith)
          (align_to_grid_ceil z (range_start z d w) d.step_minutes d.day_start) k

  keys_of_window-Collects : (w : Window) → Collects (IsKeyIn w) (keys_of_window z clock d w)
  unfolding keys_of_window
  keys_of_window-Collects w = elim (Bool-cases (ltb (range_start z d w) (range_end z d w))) [
    | inr e ↦ rw e (nothing-Collects (IsKeyIn w) (λ k (h, _). ground arith))
    | inl e ↦
        let (xs, run, h) =
          grid_loop-Collects (d.step_minutes * minute_ms) 0 (range_end z d w) (key_at clock)
            (omega arith) (suc (range_end z d w))
            (align_to_grid_ceil z (range_start z d w) d.step_minutes d.day_start) (omega arith) in
        rw e (xs, run, λ k. (λ m. (ground arith, (h k).0 m), λ (_, p). (h k).1 p))
  ]

  abbrev pub IsKeyOf : List Window → String → Type 0
  IsKeyOf ws k = (w : Window) × Memᴰ w ws × IsKeyIn w k

  IsKeyOf-split :
      (w : Window) (ws : List Window) (k : String) → IsKeyOf (w ∷ ws) k → IsKeyIn w k ⊎ IsKeyOf ws k
  IsKeyOf-split w ws k (v, Memᴰ.head e, h) = inl (subst (λ u. IsKeyIn u k) e h)
  IsKeyOf-split w ws k (v, Memᴰ.tail m, h) = inr (v, m, h)

  keys_of_windows-Collects :
      (ws : List Window) → Collects (IsKeyOf ws) (keys_of_windows z clock d ws)
  unfolding keys_of_windows
  keys_of_windows-Collects [] = nothing-Collects (IsKeyOf []) (λ k (w, m, h). Mem.not-nil m)
  keys_of_windows-Collects (w ∷ ws) =
      join_all-Collects (IsKeyIn w) (IsKeyOf ws) (IsKeyOf (w ∷ ws)) _ _ (keys_of_window-Collects w)
        (keys_of_windows-Collects ws)
        (λ k. (λ h. (w, Memᴰ.head refl, h), λ (v, m, h). (v, Memᴰ.tail m, h), IsKeyOf-split w ws k))

  abbrev pub IsKey : List String → String → Type 0
  IsKey uids k = (uid : String) × Memᴰ uid uids × IsKeyOf (d.free uid) k

  IsKey-split :
      (uid : String) (uids : List String) (k : String)
      → IsKey (uid ∷ uids) k
      → IsKeyOf (d.free uid) k ⊎ IsKey uids k
  IsKey-split uid uids k (v, Memᴰ.head e, h) = inl (subst (λ u. IsKeyOf (d.free u) k) e h)
  IsKey-split uid uids k (v, Memᴰ.tail m, h) = inr (v, m, h)

  pub keys_of_users-Collects :
      (uids : List String) → Collects (IsKey uids) (keys_of_users z clock d uids)
  unfolding keys_of_users
  keys_of_users-Collects [] = nothing-Collects (IsKey []) (λ k (u, m, h). Mem.not-nil m)
  keys_of_users-Collects (uid ∷ uids) =
      join_all-Collects (IsKeyOf (d.free uid)) (IsKey uids) (IsKey (uid ∷ uids)) _ _
        (keys_of_windows-Collects (d.free uid)) (keys_of_users-Collects uids)
        (λ k.
          (λ h. (uid, Memᴰ.head refl, h), λ (v, m, h). (v, Memᴰ.tail m, h), IsKey-split uid uids k))

-- Sorting keeps the members of a list of instants.
All-of : (P : ℕ → Type 0) (xs : List ℕ) → ((x : ℕ) → Memᴰ x xs → P x) → All P xs
All-of P [] f = tt
All-of P (x ∷ xs) f = (f x (Memᴰ.head refl), All-of P xs (λ y m. f y (Memᴰ.tail m)))

sorted-from : (t : ℕ) (xs : List ℕ) → Memᴰ t (sort_by instant xs) → Memᴰ t xs
sorted-from t xs m =
    All-Memᴰ (λ x. Memᴰ x xs) (sort_by instant xs)
      (All-sort_by instant (λ x. Memᴰ x xs) xs (All-of (λ x. Memᴰ x xs) xs (λ x k. k))) m

sorted-to : (t : ℕ) (xs : List ℕ) → Memᴰ t xs → Memᴰ t (sort_by instant xs)
sorted-to t xs m =
    let found : any (λ x. x == t) (sort_by instant xs) ≡ true =
      any-sort_by instant (λ x. x == t) xs ∙ Memᴰ→any (λ x. x == t) m (ground arith) in
    let (u, k, e) = any→Memᴰ (λ x. x == t) (sort_by instant xs) found in
    subst (λ x. Memᴰ x (sort_by instant xs)) (ground arith) k

pub candidates_of-to :
    (clock : Clock) (k : String) (keys : List String)
    → Memᴰ k keys
    → Memᴰ (clock.parse_local k) (candidates_of clock keys)
unfolding candidates_of
candidates_of-to clock k keys m =
    sorted-to _ _ (Mem.map clock.parse_local (add_all_adds k keys [] m))

pub candidates_of-from :
    (clock : Clock) (t : ℕ) (keys : List String)
    → Memᴰ t (candidates_of clock keys)
    → (k : String) × Memᴰ k keys × (clock.parse_local k ≡ t)
unfolding candidates_of
candidates_of-from clock t keys m =
    let (k, n, e) = Mem.of_map clock.parse_local (add_all [] keys) (sorted-from t _ m) in
    (k, add_all_only k keys n, e)
