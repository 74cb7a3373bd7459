-- ===== src/Booking/Rows.antt =====
-- The rows that a web booking reads and writes (models Event, GroupEvents and EventParticipant of
-- the database), and the queries over them. A table is the list of its rows, the oldest first;
-- `findFirst` returns the first match. Prices are floating-point numbers and are left out of the
-- rows.

use text.Mathlib.Text.{◌==◌ as str_eq}
use ms_calendar_service.Base.{
  ℕ, zero, suc, String, Option, none, some, Bool, true, false, not, ◌&&◌, List, [], ◌∷◌,
  if◌then◌else◌, find, keep, length, min, max,
}

pub data Status : Type 0 where
  pending accepted confirmed completed cancelled cancelled_by_client : Status
  cancelled_by_client_removed paid no_show : Status

-- `CANCELLED_STATES`
abbrev pub is_cancelled : Status → Bool
is_cancelled cancelled = true
is_cancelled cancelled_by_client = true
is_cancelled cancelled_by_client_removed = true
is_cancelled _ = false

pub record Event : Type 0 where
  pub id : String
  pub id_group : String
  pub id_company : String
  pub id_service : Option String
  pub id_user_platform : Option String
  pub start_date : ℕ
  pub end_date : ℕ
  pub deleted : Bool
  pub title : String
  pub service_name : Option String
  pub service_duration : Option ℕ
  pub service_max_participants : Option ℕ

pub record Group : Type 0 where
  pub id : String
  pub id_company : String
  pub id_workspace : String
  pub title : String
  pub start_date : ℕ
  pub end_date : ℕ
  pub comment_client : Option String
  pub is_comment_read : Bool
  pub status : Status
  pub time_zone : String
  pub deleted : Bool

pub record Participant : Type 0 where
  pub id_group : String
  pub id_client : String
  pub id_client_workspace : String
  pub status : Status
  pub deleted : Bool

pub record Db : Type 0 where
  pub events : List Event
  pub groups : List Group
  pub participants : List Participant

-- The values of the foreign keys that a filter compares; `null` equals no text.
abbrev pub is_text : Option String → String → Bool
is_text none s = false
is_text (some t) s = str_eq t s

abbrev pub group_by_id : Db → String → Option Group
group_by_id db id = find (λ (g : Group). str_eq g.id id) db.groups

-- A filter on the group of an event; an event without a group fails it.
abbrev pub holds_of_group : (Group → Bool) → Option Group → Bool
holds_of_group p none = false
holds_of_group p (some g) = p g

-- A participant of the group that is not deleted.
abbrev pub is_seated : String → Participant → Bool
is_seated id_group p = str_eq p.id_group id_group && not p.deleted

abbrev pub is_client : String → String → Participant → Bool
is_client id_group client p = is_seated id_group p && str_eq p.id_client_workspace client

abbrev pub seats_taken : String → List Participant → ℕ
seats_taken id_group ps = length (keep (is_seated id_group) ps)

-- The aggregate of `_syncGroupStartEndDates`.
abbrev pub is_live_in : String → Event → Bool
is_live_in id_group e = str_eq e.id_group id_group && not e.deleted

unfoldable pub span_of : List Event → Option (ℕ × ℕ)
span_of [] = none
span_of (e ∷ es) = elim (span_of es) [
  | none ↦ some (e.start_date, e.end_date)
  | some (s, t) ↦ some (min e.start_date s, max e.end_date t)
]

unfoldable pub date_group : String → ℕ → ℕ → List Group → List Group
date_group id s t [] = []
date_group id s t (g ∷ gs) =
    if str_eq g.id id
    then record g { start_date = s; end_date = t } ∷ gs
    else g ∷ date_group id s t gs

-- `s.slice(0, n)`, over characters.
unfoldable pub take_text : ℕ → String → String
take_text zero s = String.[]
take_text (suc n) String.[] = String.[]
take_text (suc n) (String.◌∷◌ c s) = String.◌∷◌ c (take_text n s)
