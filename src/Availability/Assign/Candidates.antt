-- ===== src/Availability/Assign/Candidates.antt =====
-- One round of the search: the loop over the candidates, for any continuation that leaves the
-- buffers as they were when it fails.
use mathlib.Core.List.Memᴰ as Mem
use mathlib.Core.List.{Memᴰ}
use mathlib.Core.Bool.{true≢false}
use ms_calendar_service.Base.{
  ◌≡◌, String, List, [], ◌∷◌, ◌++◌, Bool, true, false, refl, any, Bool-cases, inl, inr, ◌∙◌, ap,
  sym, subst,
}
use ms_calendar_service.Availability.Windows.{Window}
use ms_calendar_service.Availability.Assign.{
  Segment, Buffers, push, pop, drop_last, clashes, try_candidates,
}

drop_last-append {ℓ} : {A : Type ℓ} (xs : List A) (x : A) → drop_last (xs ++ x ∷ []) ≡ xs
unfolding drop_last
drop_last-append [] x = refl
drop_last-append (y ∷ []) x = refl
drop_last-append (y ∷ z ∷ xs) x = ap (λ l. y ∷ l) (drop_last-append (z ∷ xs) x)

pub pop-push : (s : Segment) (b : Buffers) → pop (push s b) ≡ b
pop-push s b = rw (drop_last-append b.used, drop_last-append b.assignment)

module _ (free : String → List Window) (contains : Window → Segment → Bool)
    (segment : String → Segment) (next : Buffers → Bool × Buffers)
    (restores : (b : Buffers) → (next b).0 ≡ false → (next b).1 ≡ b) where
  abbrev run : List String → Buffers → Bool × Buffers
  run = try_candidates free contains segment next

  -- The three tests that a candidate passes.
  abbrev pub IsTaken : Buffers → String → Type 0
  IsTaken b uid =
      (any (λ w. contains w (segment uid)) (free uid) ≡ true)
      × (any (clashes (segment uid)) b.used ≡ false)
      × ((next (push (segment uid) b)).0 ≡ true)

  data Round (uid : String) (uids : List String) (b : Buffers) : Type 0 where
    taken :
        IsTaken b uid
        → run (uid ∷ uids) b ≡ (true, (next (push (segment uid) b)).1)
        → Round uid uids b
    skipped : ¬ IsTaken b uid → run (uid ∷ uids) b ≡ run uids b → Round uid uids b

  round : (uid : String) (uids : List String) (b : Buffers) → Round uid uids b
  unfolding try_candidates
  round uid uids b = elim (Bool-cases (any (λ w. contains w (segment uid)) (free uid))) [
    | inr misfit ↦ Round.skipped (λ h. cc) (rw misfit)
    | inl fits ↦ elim (Bool-cases (any (clashes (segment uid)) b.used)) [
      | inl clash ↦ Round.skipped (λ h. cc) (rw (fits, clash))
      | inr clear ↦ elim (Bool-cases (next (push (segment uid) b)).0) [
        | inl ok ↦ Round.taken (fits, clear, ok) (rw (fits, clear, ok))
        | inr failed ↦
            Round.skipped (λ h. cc)
              (rw (
                fits,
                clear,
                failed,
                restores (push (segment uid) b) failed,
                pop-push (segment uid) b,
              ))
      ]
    ]
  ]

  try-nil : (b : Buffers) → run [] b ≡ (false, b)
  unfolding try_candidates
  try-nil b = refl

  -- A failed round leaves the buffers as it found them.
  pub try-restores :
      (uids : List String) (b : Buffers) → (run uids b).0 ≡ false → (run uids b).1 ≡ b
  try-restores [] b h = rw (try-nil b)
  try-restores (uid ∷ uids) b h = elim (round uid uids b) [
    | taken t e ↦ absurd (true≢false (rw e at h))
    | skipped n e ↦ rw e (try-restores uids b (rw e at h))
  ]

  -- A successful round took a candidate that passes the tests.
  pub try_sound :
      (uids : List String) (b : Buffers)
      → (run uids b).0 ≡ true
      → (uid : String) × Memᴰ uid uids
        × IsTaken b uid
        × (run uids b ≡ (true, (next (push (segment uid) b)).1))
  try_sound [] b h = absurd (true≢false (sym (rw (try-nil b) at h)))
  try_sound (uid ∷ uids) b h = elim (round uid uids b) [
    | taken t e ↦ (uid, Memᴰ.head refl, t, e)
    | skipped n e ↦ let (u, m, t, e') = try_sound uids b (rw e at h) in (u, Memᴰ.tail m, t, e ∙ e')
  ]

  -- If some candidate passes the tests, the round succeeds.
  pub try_complete :
      (uid : String) (uids : List String) (b : Buffers)
      → Memᴰ uid uids
      → IsTaken b uid
      → (run uids b).0 ≡ true
  try_complete uid [] b m t = absurd (Mem.not-nil m)
  try_complete uid (v ∷ uids) b m t = elim (round v uids b) [
    | taken _ e ↦ rw e
    | skipped n e ↦ rw e (try_complete uid uids b (rest n m) t)
  ]
    where
      rest : ¬ IsTaken b v → Memᴰ uid (v ∷ uids) → Memᴰ uid uids
      rest n (Memᴰ.head e) = absurd (n (subst (IsTaken b) e t))
      rest n (Memᴰ.tail k) = k
