-- ===== src/RoundRobin/Holds.antt =====
-- The holds of `acquireHold`, and their use by `chooseStaffWithRR`, one call after another.
use Prim.Native.Char.{Char, code}
use text.Mathlib.TextLemmas.{cons-append, head-eq_of_cons-eq}
use ms_calendar_service.Base.{
  ℕ, ◌≡◌, ◌≢◌, inl, inr, String, Option, none, some, List, [], ◌∷◌, true, false, refl, arith, ◌∙◌,
  ap, eq_refl, eq_iff, Option-cases, sym, subst,
}
use ms_calendar_service.Base.Int.{ℤ}
use ms_calendar_service.Redis.{RedisClient, IsRedis, redis_get, redis_set, redis_delete, truthy_ttl}
use ms_calendar_service.RoundRobin.{
  Stored, rr_state, flag, State, Slot, slot_key, state_key, pick, get_state, save_state,
  pick_weighted_smooth_rr, acquire_hold, release_hold, settle_hold, choose_staff_with_rr,
}
use ms_calendar_service.RoundRobin.Texts.{join}

module _ (c : RedisClient Stored) (laws : IsRedis c) where
  -- The slot's key is in the store.
  abbrev pub IsHeld : Slot → c.Store → Type 0
  IsHeld p r = c.get (slot_key p) r ≢ none

  set-IsHeld :
      (p : Slot) (v : Stored) (ttl : Option ℕ) (r : c.Store) → IsHeld p (c.set (slot_key p) v ttl r)
  set-IsHeld p v ttl r h =
      let e = laws.get-set (slot_key p) (slot_key p) v ttl r in
      let k : some v ≡ none = sym (rw (eq_refl (slot_key p)) at e) ∙ h in cc k

  acquire_free :
      (p : Slot) (ttl : Option ℕ) (r : c.Store)
      → c.get (slot_key p) r ≡ none
      → ((acquire_hold c true p ttl r).0 ≡ true) × IsHeld p (acquire_hold c true p ttl r).1
  unfolding acquire_hold redis_get redis_set
  acquire_free p ttl r h = rw (h, acquire_hold) (refl, set-IsHeld p flag _ r)

  pub acquire_held :
      (p : Slot) (ttl : Option ℕ) (r : c.Store)
      → IsHeld p r
      → acquire_hold c true p ttl r ≡ (false, r)
  unfolding acquire_hold redis_get redis_set
  acquire_held p ttl r h = elim (Option-cases (c.get (slot_key p) r)) [
    | inl e ↦ absurd (h e)
    | inr (w, e) ↦ rw (e, acquire_hold)
  ]

  -- The state of the round robin and a hold never share a key.
  keys_differ : (ws svc : String) (p : Slot) → state_key ws svc ≢ slot_key p
  unfolding join
  keys_differ ws svc p e =
      let r : Char = "r" in
      let h : Char = "h" in
      let k = head-eq_of_cons-eq (sym (cons-append r "r" _) ∙ e ∙ cons-append h "old" _) in
      absurd (omega (arith, ap code k))

  save-IsHeld :
      (ws svc : String) (s : State) (ttl : Option ℕ) (p : Slot) (r : c.Store)
      → IsHeld p r
      → IsHeld p (save_state c true (state_key ws svc) s ttl r)
  unfolding save_state redis_set
  save-IsHeld ws svc s ttl p r h k = h (
      ground (
        arith,
        laws.get-set (state_key ws svc) (slot_key p) (rr_state s) (truthy_ttl ttl) r,
        eq_iff (state_key ws svc) (slot_key p),
        keys_differ ws svc p,
      ))

  pick-IsHeld :
      (ws svc : String) (es : List String) (weights : String → Option ℤ) (ttl : Option ℕ) (p : Slot)
      (r : c.Store)
      → IsHeld p r
      → IsHeld p (pick_weighted_smooth_rr c true ws svc es weights ttl r).1
  unfolding pick_weighted_smooth_rr
  pick-IsHeld ws svc es weights ttl p r h =
      elim (Option-cases (pick weights es (get_state c true ws svc r))) [
        | inl e ↦ rw (e, pick_weighted_smooth_rr) h
        | inr ((u, s), e) ↦ rw (e, pick_weighted_smooth_rr) (save-IsHeld ws svc s ttl p r h)
      ]

  settle_hold-some :
      (p : Slot) (o : Option String) (r r' : c.Store) (u : String)
      → settle_hold c true p o r ≡ (some u, r')
      → r ≡ r'
  unfolding settle_hold
  settle_hold-some p none r r' u h = cc
  settle_hold-some p (some v) r r' u h = cc

  -- Somebody is chosen only for a slot that nobody held, and the hold stays in place.
  pub chosen-IsHeld :
      (p : Slot) (es : List String) (weights : String → Option ℤ) (r : c.Store) (u : String)
      (r' : c.Store)
      → choose_staff_with_rr c true p es weights r ≡ (some u, r')
      → (c.get (slot_key p) r ≡ none) × IsHeld p r'
  unfolding choose_staff_with_rr
  chosen-IsHeld p [] weights r u r' h = cc
  chosen-IsHeld p (e ∷ es) weights r u r' h = elim (Option-cases (c.get (slot_key p) r)) [
    | inr (w, taken) ↦
        let a = acquire_held p (some 60) r (λ k. cc) in
        let h' : (none, r) ≡ (some u, r') = rw a at h in cc h'
    | inl free ↦
        let (a, held) = acquire_free p (some 60) r free in
        let saved =
          pick-IsHeld p.id_workspace p.id_service (e ∷ es) weights (some 1209600) p _ held in
        (free, subst (IsHeld p) (settle_hold-some p _ _ r' u (rw a at h)) saved)
  ]

  -- A call for any slot keeps the hold of another one: what it releases it has acquired itself.
  release-IsHeld :
      (p q : Slot) (r : c.Store)
      → slot_key q ≢ slot_key p
      → IsHeld p r
      → IsHeld p (release_hold c true q r)
  unfolding release_hold redis_delete
  release-IsHeld p q r n h k = h (
      ground (arith, laws.get-del (slot_key q) (slot_key p) r, eq_iff (slot_key q) (slot_key p), n))

  settle-IsHeld :
      (p q : Slot) (o : Option String) (r : c.Store)
      → slot_key q ≢ slot_key p
      → IsHeld p r
      → IsHeld p (settle_hold c true q o r).1
  unfolding settle_hold
  settle-IsHeld p q none r n h = release-IsHeld p q r n h
  settle-IsHeld p q (some u) r n h = h

  acquire-IsHeld :
      (p q : Slot) (r : c.Store)
      → c.get (slot_key q) r ≡ none
      → IsHeld p r
      → IsHeld p (acquire_hold c true q (some 60) r).1
  unfolding acquire_hold redis_get redis_set
  acquire-IsHeld p q r free h =
      rw (free, acquire_hold)
        (λ k. h (
          ground (
            arith,
            laws.get-set (slot_key q) (slot_key p) flag (truthy_ttl (some 60)) r,
            eq_iff (slot_key q) (slot_key p),
          )))

  choose-IsHeld :
      (p q : Slot) (es : List String) (weights : String → Option ℤ) (r : c.Store)
      → IsHeld p r
      → IsHeld p (choose_staff_with_rr c true q es weights r).1
  unfolding choose_staff_with_rr
  choose-IsHeld p q [] weights r h = h
  choose-IsHeld p q (e ∷ es) weights r h = elim (Option-cases (c.get (slot_key q) r)) [
    | inr (w, taken) ↦ rw (acquire_held q (some 60) r (λ k. cc), choose_staff_with_rr) h
    | inl free ↦
        let apart : slot_key q ≢ slot_key p = λ same. h (ap (λ k. c.get k r) (sym same) ∙ free) in
        let (a, _) = acquire_free q (some 60) r free in
        rw (a, choose_staff_with_rr)
          (settle-IsHeld p q _ _ apart (
            pick-IsHeld q.id_workspace q.id_service (e ∷ es) weights (some 1209600) p _
              (acquire-IsHeld p q r free h)))
  ]

  -- Calls for any slots, one after another.
  pub record Call : Type 0 where
    pub slot : Slot
    pub eligible : List String
    pub weights : String → Option ℤ

  abbrev pub run_calls : List Call → c.Store → c.Store
  run_calls [] r = r
  run_calls (k ∷ ks) r = run_calls ks (choose_staff_with_rr c true k.slot k.eligible k.weights r).1

  run-IsHeld : (p : Slot) (ks : List Call) (r : c.Store) → IsHeld p r → IsHeld p (run_calls ks r)
  run-IsHeld p [] r h = h
  run-IsHeld p (k ∷ ks) r h = run-IsHeld p ks _ (choose-IsHeld p k.slot k.eligible k.weights r h)

  refused-IsHeld :
      (p : Slot) (es : List String) (weights : String → Option ℤ) (r : c.Store)
      → IsHeld p r
      → choose_staff_with_rr c true p es weights r ≡ (none, r)
  unfolding choose_staff_with_rr
  refused-IsHeld p [] weights r h = refl
  refused-IsHeld p (e ∷ es) weights r h = rw (acquire_held p (some 60) r h)

  -- With Redis switched on and while no key expires: once a professional is chosen for a slot, then
  -- after any later calls, for this slot or others, a call for the slot returns nobody and changes
  -- nothing.
  pub choose_staff_with_rr_once :
      (p : Slot) (es es' : List String) (weights weights' : String → Option ℤ) (r r' : c.Store)
      (u : String) (later : List Call)
      → choose_staff_with_rr c true p es weights r ≡ (some u, r')
      → choose_staff_with_rr c true p es' weights' (run_calls later r') ≡ (none, run_calls later r')
  choose_staff_with_rr_once p es es' weights weights' r r' u later h =
      refused-IsHeld p es' weights' (run_calls later r')
        (run-IsHeld p later r' (chosen-IsHeld p es weights r u r' h).1)

  release-free : (p : Slot) (r : c.Store) → c.get (slot_key p) (release_hold c true p r) ≡ none
  unfolding release_hold redis_delete
  release-free p r = laws.get-del (slot_key p) (slot_key p) r ∙ rw (eq_refl (slot_key p))

  settle_hold-none :
      (p : Slot) (o : Option String) (r r' : c.Store)
      → settle_hold c true p o r ≡ (none, r')
      → c.get (slot_key p) r' ≡ none
  unfolding settle_hold
  settle_hold-none p none r r' h = ap (λ x. c.get (slot_key p) x.1) (sym h) ∙ release-free p r
  settle_hold-none p (some v) r r' h = cc

  -- A call that returns nobody for a slot that was free leaves it free: the hold is released.
  pub choose_staff_with_rr-none :
      (p : Slot) (es : List String) (weights : String → Option ℤ) (r r' : c.Store)
      → c.get (slot_key p) r ≡ none
      → choose_staff_with_rr c true p es weights r ≡ (none, r')
      → c.get (slot_key p) r' ≡ none
  unfolding choose_staff_with_rr
  choose_staff_with_rr-none p [] weights r r' free h =
      ap (λ x. c.get (slot_key p) x.1) (sym h) ∙ free
  choose_staff_with_rr-none p (e ∷ es) weights r r' free h =
      settle_hold-none p _ _ r' (rw ((acquire_free p (some 60) r free).0) at h)
