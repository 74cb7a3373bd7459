-- ===== src/RoundRobin/Sorted.antt =====
-- Sorting the pool keeps its members.
use mathlib.Core.List.Memᴰ as Mem
use mathlib.Core.List.{Memᴰ}
use ms_calendar_service.Base.{◌≢◌, String, List, [], ◌∷◌, Bool-cases, inl, inr, All, sym}
use ms_calendar_service.RoundRobin.Texts.{text_le, insert_text, sort_texts}
use ms_calendar_service.RoundRobin.Entries.{NotIn, Distinct}

All-insert_text {κ} :
    (P : String → Type κ) (u : String) (vs : List String)
    → P u
    → All P vs
    → All P (insert_text u vs)
unfolding insert_text
All-insert_text P u [] p h = (p, tt)
All-insert_text P u (v ∷ vs) p (q, h) = elim (Bool-cases (text_le u v)) [
  | inl e ↦ rw e (p, (q, h))
  | inr e ↦ rw e (q, All-insert_text P u vs p h)
]

pub All-sort_texts {κ} : (P : String → Type κ) (us : List String) → All P us → All P (sort_texts us)
unfolding sort_texts
All-sort_texts P [] h = tt
All-sort_texts P (u ∷ us) (p, h) = All-insert_text P u (sort_texts us) p (All-sort_texts P us h)

insert_text-Distinct :
    (u : String) (vs : List String) → NotIn u vs → Distinct vs → Distinct (insert_text u vs)
unfolding insert_text
insert_text-Distinct u [] p h = (tt, tt)
insert_text-Distinct u (v ∷ vs) (p, ps) (q, h) = elim (Bool-cases (text_le u v)) [
  | inl e ↦ rw e ((p, ps), (q, h))
  | inr e ↦
      rw e (All-insert_text (λ w. v ≢ w) u vs (λ k. p (sym k)) q, insert_text-Distinct u vs ps h)
]

pub sort_texts-Distinct : (us : List String) → Distinct us → Distinct (sort_texts us)
unfolding sort_texts
sort_texts-Distinct [] h = tt
sort_texts-Distinct (u ∷ us) (p, h) =
    insert_text-Distinct u (sort_texts us) (All-sort_texts (λ w. u ≢ w) us p)
      (sort_texts-Distinct us h)

Mem_past :
    (u v w : String) (vs xs : List String)
    → Memᴰ v (u ∷ w ∷ vs)
    → (Memᴰ v (u ∷ vs) → Memᴰ v xs)
    → Memᴰ v (w ∷ xs)
Mem_past u v w vs xs (Memᴰ.head k) f = Memᴰ.tail (f (Memᴰ.head k))
Mem_past u v w vs xs (Memᴰ.tail (Memᴰ.head k)) f = Memᴰ.head k
Mem_past u v w vs xs (Memᴰ.tail (Memᴰ.tail m)) f = Memᴰ.tail (f (Memᴰ.tail m))

insert_text-Memᴰ : (u v : String) (vs : List String) → Memᴰ v (u ∷ vs) → Memᴰ v (insert_text u vs)
unfolding insert_text
insert_text-Memᴰ u v [] m = m
insert_text-Memᴰ u v (w ∷ vs) m = elim (Bool-cases (text_le u w)) [
  | inl e ↦ rw e m
  | inr e ↦ rw e (Mem_past u v w vs (insert_text u vs) m (insert_text-Memᴰ u v vs))
]

pub sort_texts-Memᴰ : (v : String) (us : List String) → Memᴰ v us → Memᴰ v (sort_texts us)
unfolding sort_texts
sort_texts-Memᴰ v [] m = absurd (Mem.not-nil m)
sort_texts-Memᴰ v (u ∷ us) (Memᴰ.head e) = insert_text-Memᴰ u v (sort_texts us) (Memᴰ.head e)
sort_texts-Memᴰ v (u ∷ us) (Memᴰ.tail m) =
    insert_text-Memᴰ u v (sort_texts us) (Memᴰ.tail (sort_texts-Memᴰ v us m))
