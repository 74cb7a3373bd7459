-- ===== src/RoundRobin/Texts.antt =====
-- Texts: joined keys, and the default sort of an array of texts (by code points).
pub mod Order
use Prim.Native.Char.{code}
use Prim.Native.String
use ms_calendar_service.Base.{String, List, [], ◌∷◌, Bool, true, false, if◌then◌else◌, ltb}

-- The parts of a key, with a colon between two of them.
unfoldable pub join : List String → String
join [] = ""
join (x ∷ []) = x
join (x ∷ y ∷ ys) = String.◌++◌ x (String.◌++◌ ":" (join (y ∷ ys)))

-- The comparison of the default sort.
unfoldable pub text_le : String → String → Bool
text_le String.[] t = true
text_le (String.◌∷◌ c s) String.[] = false
text_le (String.◌∷◌ c s) (String.◌∷◌ d t) =
    if ltb (code c) (code d) then true else if ltb (code d) (code c) then false else text_le s t

unfoldable pub insert_text : String → List String → List String
insert_text u [] = u ∷ []
insert_text u (v ∷ vs) = if text_le u v then u ∷ v ∷ vs else v ∷ insert_text u vs

unfoldable pub sort_texts : List String → List String
sort_texts [] = []
sort_texts (u ∷ us) = insert_text u (sort_texts us)
