-- ===== src/RoundRobin/Texts/Order.antt =====
-- The comparison of the default sort is a total order.
use Prim.Native.Char.{code}
use text.Mathlib.TextEquality.{Char-path}
use ms_calendar_service.Base.{◌≡◌, String, true, false, refl, arith, ap, ◌∙◌}
use ms_calendar_service.RoundRobin.Texts.{text_le}

pub text_le-total : (s t : String) → text_le s t ≡ false → text_le t s ≡ true
unfolding text_le
text_le-total String.[] t h = cc
text_le-total (String.◌∷◌ c s) String.[] h = refl
text_le-total (String.◌∷◌ c s) (String.◌∷◌ d t) h = ground (arith, text_le-total s t)

pub text_le_trans : (s t u : String) → text_le s t ≡ true → text_le t u ≡ true → text_le s u ≡ true
unfolding text_le
text_le_trans String.[] t u h k = refl
text_le_trans (String.◌∷◌ c s) String.[] u h k = cc
text_le_trans (String.◌∷◌ c s) (String.◌∷◌ d t) String.[] h k = cc
text_le_trans (String.◌∷◌ c s) (String.◌∷◌ d t) (String.◌∷◌ e u) h k =
    ground (arith, text_le_trans s t u)

pub text_le_antisym : (s t : String) → text_le s t ≡ true → text_le t s ≡ true → s ≡ t
unfolding text_le
text_le_antisym String.[] String.[] h k = refl
text_le_antisym String.[] (String.◌∷◌ d t) h k = cc
text_le_antisym (String.◌∷◌ c s) String.[] h k = cc
text_le_antisym (String.◌∷◌ c s) (String.◌∷◌ d t) h k =
    let rest : s ≡ t = text_le_antisym s t (ground arith) (ground arith) in
    let first : code c ≡ code d = ground arith in
    ap (λ x. String.◌∷◌ x s) (Char-path c d first) ∙ ap (String.◌∷◌ d) rest
