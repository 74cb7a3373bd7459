-- ===== src/RoundRobin/Leader.antt =====
-- The professional that the rounds choose has the largest credit of the pool.
use mathlib.Core.List.Memᴰ as Mem
use mathlib.Core.List.{Memᴰ}
use ms_calendar_service.Base.{
  ◌≡◌, ◌≢◌, ◌⊎◌, inl, inr, String, none, some, List, [], ◌∷◌, true, false, refl, arith, All, sym,
  ◌∙◌, ap, Bool-cases, tests,
}
use ms_calendar_service.Base.Members.{All-Memᴰ}
use ms_calendar_service.Base.Int.{pos, ◌+ℤ◌, ◌≤ℤ◌, int_laws, ltb_ℤ}
use ms_calendar_service.RoundRobin.{
  State, current_of, current_at, weight_of, Turn, advance, take_turns, exceeds,
}
use ms_calendar_service.RoundRobin.Entries.{NotIn, Distinct, advance_other, advance_self}

abbrev pub Below : State → String → String → Type 0
Below s w v = current_of s v ≤ℤ current_of s w

-- The variables of the loop name a leader among those seen.
pub record Leads (seen : List String) (t : Turn) (w : String) : Type 0 where
  pub chosen : t.chosen ≡ some w
  pub max_cur : t.max_cur ≡ some (current_of t.state w)
  pub member : Memᴰ w seen
  pub above : All (Below t.state w) seen

-- A round leaves the credit of the others as it was.
still : (u v : String) (t : Turn) → u ≢ v → current_of (advance u t).state v ≡ current_of t.state v
still u v t h = ap current_at (advance_other u v t h)

advance_exceeding :
    (u : String) (t : Turn)
    → exceeds (current_of t.state u +ℤ pos (weight_of t.state u)) t.max_cur ≡ true
    → ((advance u t).chosen ≡ some u)
      × ((advance u t).max_cur ≡ some (current_of t.state u +ℤ pos (weight_of t.state u)))
unfolding advance
advance_exceeding u t h = (ground arith, ground arith)

advance_behind :
    (u : String) (t : Turn)
    → exceeds (current_of t.state u +ℤ pos (weight_of t.state u)) t.max_cur ≡ false
    → ((advance u t).chosen ≡ t.chosen) × ((advance u t).max_cur ≡ t.max_cur)
unfolding advance
advance_behind u t h = (ground arith, ground arith)

above_step :
    (u w : String) (t : Turn) (seen : List String)
    → NotIn u seen
    → current_of t.state w ≤ℤ current_of (advance u t).state u
    → All (Below t.state w) seen
    → All (Below (advance u t).state u) seen
above_step u w t [] p h k = tt
above_step u w t (v ∷ seen) (p, ps) h (q, k) =
    (rw (still u v t p) (omega int_laws), above_step u w t seen ps h k)

above_keep :
    (u w : String) (t : Turn) (seen : List String)
    → NotIn u seen
    → u ≢ w
    → All (Below t.state w) seen
    → All (Below (advance u t).state w) seen
above_keep u w t [] p n k = tt
above_keep u w t (v ∷ seen) (p, ps) n (q, k) =
    (rw (still u v t p, still u w t n) q, above_keep u w t seen ps n k)

first-Leads : (u : String) (t : Turn) → t.max_cur ≡ none → Leads (u ∷ []) (advance u t) u
first-Leads u t h =
    let (c, m) = advance_exceeding u t (rw h) in
    record {
      chosen = c;
      max_cur = m ∙ ap some (sym (advance_self u t).0);
      member = Memᴰ.head refl;
      above = (omega arith, tt);
    }

advance-Leads :
    (u w : String) (seen : List String) (t : Turn)
    → NotIn u seen
    → Leads seen t w
    → (x : String) × Leads (u ∷ seen) (advance u t) x
advance-Leads u w seen t p l =
    let c = current_of t.state u +ℤ pos (weight_of t.state u) in
    let self = (advance_self u t).0 in
    let other : u ≢ w = All-Memᴰ (λ v. u ≢ v) seen p l.member in
    elim (Bool-cases (ltb_ℤ (current_of t.state w) c)) [
      | inl more ↦
          let (chosen, top) = advance_exceeding u t (rw l.max_cur more) in
          (
            u,
            record {
              chosen = chosen;
              max_cur = top ∙ ap some (sym self);
              member = Memᴰ.head refl;
              above =
                  (omega arith, above_step u w t seen p (rw self (omega (tests, more))) l.above);
            },
          )
      | inr less ↦
          let (chosen, top) = advance_behind u t (rw l.max_cur less) in
          (
            w,
            record {
              chosen = chosen ∙ l.chosen;
              max_cur = top ∙ l.max_cur ∙ ap some (sym (still u w t other));
              member = Memᴰ.tail l.member;
              above = (
                rw (self, still u w t other) (omega (tests, less)),
                above_keep u w t seen p other l.above,
              );
            },
          )
    ]

-- The result of the rounds over `us`, after those over `seen`.
pub record Winner (us seen : List String) (t : Turn) (w : String) : Type 0 where
  pub chosen : t.chosen ≡ some w
  pub member : Memᴰ w us ⊎ Memᴰ w seen
  pub above_us : All (Below t.state w) us
  pub above_seen : All (Below t.state w) seen

abbrev Fresh : List String → List String → Type 0
Fresh seen us = All (λ u. NotIn u seen) us

Fresh-cons : (u : String) (seen us : List String) → NotIn u us → Fresh seen us → Fresh (u ∷ seen) us
Fresh-cons u seen [] p h = tt
Fresh-cons u seen (v ∷ us) (p, ps) (q, h) = ((λ e. p (sym e), q), Fresh-cons u seen us ps h)

past_head :
    (w u : String) (us seen : List String)
    → Memᴰ w us ⊎ Memᴰ w (u ∷ seen)
    → Memᴰ w (u ∷ us) ⊎ Memᴰ w seen
past_head w u us seen (inl m) = inl (Memᴰ.tail m)
past_head w u us seen (inr (Memᴰ.head e)) = inl (Memᴰ.head e)
past_head w u us seen (inr (Memᴰ.tail m)) = inr m

take_turns-Winner :
    (us seen : List String) (t : Turn) (x : String)
    → Leads seen t x
    → Distinct us
    → Fresh seen us
    → (w : String) × Winner us seen (take_turns us t) w
unfolding take_turns
take_turns-Winner [] seen t x l d f =
    (x, record { chosen = l.chosen; member = inr l.member; above_us = tt; above_seen = l.above })
take_turns-Winner (u ∷ us) seen t x l (p, d) (q, f) =
    let (x', l') = advance-Leads u x seen t q l in
    let (w, r) = take_turns-Winner us (u ∷ seen) (advance u t) x' l' d (Fresh-cons u seen us p f) in
    (
      w,
      record {
        chosen = r.chosen;
        member = past_head w u us seen r.member;
        above_us = (r.above_seen.0, r.above_us);
        above_seen = r.above_seen.1;
      },
    )

no_other : (w : String) (us : List String) → Memᴰ w us ⊎ Memᴰ w [] → Memᴰ w us
no_other w us (inl m) = m
no_other w us (inr m) = absurd (Mem.not-nil m)

-- From no choice, the rounds over a pool that is not empty choose a member of the pool whose new
-- credit is the largest.
pub take_turns_leader :
    (u : String) (us : List String) (t : Turn)
    → t.max_cur ≡ none
    → Distinct (u ∷ us)
    → (w : String) × ((take_turns (u ∷ us) t).chosen ≡ some w)
      × Memᴰ w (u ∷ us)
      × All (Below (take_turns (u ∷ us) t).state w) (u ∷ us)
unfolding take_turns
take_turns_leader u us t h (p, d) =
    let (w, r) =
      take_turns-Winner us (u ∷ []) (advance u t) u (first-Leads u t h) d
        (Fresh-cons u [] us p (fresh_nil us)) in
    (w, r.chosen, no_other w (u ∷ us) (past_head w u us [] r.member), (r.above_seen.0, r.above_us))
  where
    fresh_nil : (vs : List String) → Fresh [] vs
    fresh_nil [] = tt
    fresh_nil (v ∷ vs) = (tt, fresh_nil vs)
