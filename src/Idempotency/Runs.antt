-- ===== src/Idempotency/Runs.antt =====
-- A run of requests against a memory of those that came before.
use text.Mathlib.Text.{◌==◌ as str_eq}
use ms_calendar_service.Base.{
  ℕ, ◌≡◌, String, Option, none, some, Bool, true, false, ◌&&◌, List, [], ◌∷◌, ◌++◌, if◌then◌else◌,
  any, refl, arith, eq_iff, any-append, Bool-cases, Option-cases, inl, inr, ◌∙◌, sym, ap, subst,
}
use ms_calendar_service.Redis.{RedisClient, IsRedis, redis_set_if_not_exists}
use ms_calendar_service.Idempotency.{
  GuardOptions, HttpRequest, Builtins, Verdict, passed, duplicate, redis_key, is_guarded,
  prevent_duplicate_clicks, handle_all,
}

abbrev pub is_some {ℓ} : {A : Type ℓ} → Option A → Bool
is_some none = false
is_some (some x) = true

module _ (js : Builtins) (o : GuardOptions) where
  -- The request is under the guard, with this key.
  abbrev pub holds_key : String → HttpRequest → Bool
  holds_key k r = is_guarded js o r && str_eq (redis_key js o r) k

  abbrev pub is_repeated : List HttpRequest → HttpRequest → Bool
  is_repeated seen r = is_guarded js o r && any (holds_key (redis_key js o r)) seen

  -- What is expected after the requests that were seen: a guarded request is refused exactly if one
  -- with its key was seen.
  abbrev pub expected : List HttpRequest → List HttpRequest → List Verdict
  expected seen [] = []
  expected seen (r ∷ rs) =
      (if is_repeated seen r then duplicate else passed) ∷ expected (seen ++ r ∷ []) rs

  module _ (c : RedisClient String) (lawful : IsRedis c) where
    -- The service, with Redis switched on.
    abbrev pub lock : String → ℕ → c.Store → Option (Bool × c.Store)
    lock k ttl s = some (redis_set_if_not_exists c true k "1" ttl s)

    abbrev guard : HttpRequest → c.Store → Verdict × c.Store
    guard r s = prevent_duplicate_clicks js o lock r s

    -- The store has the keys of the requests that were seen.
    abbrev Remembers : List HttpRequest → c.Store → Type 0
    Remembers seen s = (k : String) → is_some (c.get k s) ≡ any (holds_key k) seen

    guard-skip :
        (r : HttpRequest) (s : c.Store) → is_guarded js o r ≡ false → guard r s ≡ (passed, s)
    unfolding prevent_duplicate_clicks
    guard-skip r s h = rw h refl

    guard-free :
        (r : HttpRequest) (s : c.Store)
        → is_guarded js o r ≡ true
        → c.get (redis_key js o r) s ≡ none
        → guard r s ≡ (passed, c.set (redis_key js o r) "1" (some o.ttl_seconds) s)
    unfolding prevent_duplicate_clicks redis_set_if_not_exists
    guard-free r s h free =
        rw h (rw (lawful.set_nx_free (redis_key js o r) "1" o.ttl_seconds s free) refl)

    guard-taken :
        (r : HttpRequest) (s : c.Store) (w : String)
        → is_guarded js o r ≡ true
        → c.get (redis_key js o r) s ≡ some w
        → guard r s ≡ (duplicate, s)
    unfolding prevent_duplicate_clicks redis_set_if_not_exists
    guard-taken r s w h taken =
        rw h (rw (lawful.set_nx_taken (redis_key js o r) "1" w o.ttl_seconds s taken) refl)

    -- One request gets the expected verdict, and is remembered.
    abbrev IsStep : List HttpRequest → HttpRequest → c.Store → Type 0
    IsStep seen r s =
        ((guard r s).0 ≡ (if is_repeated seen r then duplicate else passed))
        × Remembers (seen ++ r ∷ []) (guard r s).1

    set-Remembers :
        (seen : List HttpRequest) (r : HttpRequest) (s : c.Store)
        → Remembers seen s
        → is_guarded js o r ≡ true
        → Remembers (seen ++ r ∷ []) (c.set (redis_key js o r) "1" (some o.ttl_seconds) s)
    set-Remembers seen r s h e k = elim (Bool-cases (str_eq (redis_key js o r) k)) [
      | inl t ↦
          rw (lawful.get-set (redis_key js o r) k "1" (some o.ttl_seconds) s, t)
            (ground (arith, any-append (holds_key k) seen (r ∷ [])))
      | inr t ↦
          rw (lawful.get-set (redis_key js o r) k "1" (some o.ttl_seconds) s, t)
            (ground (arith, any-append (holds_key k) seen (r ∷ []), h k))
    ]

    taken-Remembers :
        (seen : List HttpRequest) (r : HttpRequest) (s : c.Store)
        → Remembers seen s
        → any (holds_key (redis_key js o r)) seen ≡ true
        → Remembers (seen ++ r ∷ []) s
    taken-Remembers seen r s h old k = elim (Bool-cases (str_eq (redis_key js o r) k)) [
      | inl t ↦
          let same : redis_key js o r ≡ k = ground (arith, eq_iff (redis_key js o r) k) in
          let old_k : any (holds_key k) seen ≡ true =
            subst (λ j. any (holds_key j) seen ≡ true) same old in
          ground (arith, any-append (holds_key k) seen (r ∷ []), h k)
      | inr t ↦ ground (arith, any-append (holds_key k) seen (r ∷ []), h k)
    ]

    guard-IsStep :
        (seen : List HttpRequest) (r : HttpRequest) (s : c.Store)
        → Remembers seen s
        → IsStep seen r s
    guard-IsStep seen r s h = elim (Bool-cases (is_guarded js o r)) [
      | inr e ↦
          rw (guard-skip r s e, e)
            (refl, λ k. ground (arith, any-append (holds_key k) seen (r ∷ []), h k))
      | inl e ↦ elim (Option-cases (c.get (redis_key js o r) s)) [
        | inl free ↦
            let fresh : any (holds_key (redis_key js o r)) seen ≡ false =
              sym (h (redis_key js o r)) ∙ ap is_some free in
            rw (guard-free r s e free) (ground (arith, e, fresh), set-Remembers seen r s h e)
        | inr (w, taken) ↦
            let old : any (holds_key (redis_key js o r)) seen ≡ true =
              sym (h (redis_key js o r)) ∙ ap is_some taken in
            rw (guard-taken r s w e taken) (ground (arith, e, old), taken-Remembers seen r s h old)
      ]
    ]

    handle_all-from :
        (seen rs : List HttpRequest) (s : c.Store)
        → Remembers seen s
        → (handle_all js o lock rs s).0 ≡ expected seen rs
    unfolding handle_all
    handle_all-from seen [] s h = refl
    handle_all-from seen (r ∷ rs) s h =
        let (e, next) = guard-IsStep seen r s h in
        rw (e, handle_all-from (seen ++ r ∷ []) rs (guard r s).1 next) refl

    -- While no key expires and Redis answers, from a store without keys, a run of requests gets
    -- exactly the expected verdicts: a request that is under the guard is refused if and only if an
    -- earlier request under the guard has its key, and every other request passes.
    pub handle_all_lem :
        (rs : List HttpRequest) (s : c.Store)
        → ((k : String) → c.get k s ≡ none)
        → (handle_all js o lock rs s).0 ≡ expected [] rs
    handle_all_lem rs s h = handle_all-from [] rs s (λ k. ap is_some (h k))
