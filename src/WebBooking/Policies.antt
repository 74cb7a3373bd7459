-- ===== src/WebBooking/Policies.antt =====
-- The policies of src/features/event-client/domain/policies, as tests.
use Prim.Native.Char.{code}
use text.Mathlib.Text.{◌==◌ as str_eq}
use ms_calendar_service.Base.{
  ℕ, ◌-◌, ◌/◌, String, Option, none, some, Bool, true, false, not, ◌&&◌, ◌||◌, List, [], ◌∷◌,
  if◌then◌else◌, ltb, leb, ◌==◌, any,
}
use ms_calendar_service.Availability.Zone.{minute_ms}
use ms_calendar_service.Availability.Windows.{Window}

-- The truth of a text: it is not empty.
abbrev pub is_present : String → Bool
is_present s = not (str_eq s "")

abbrev pub has_required_context : String → String → String → String → Bool
has_required_context company workspace zone_workspace zone_client =
    is_present company
    && is_present workspace
    && is_present zone_workspace
    && is_present zone_client

abbrev pub has_attendees {ℓ} : {A : Type ℓ} → List A → Bool
has_attendees [] = false
has_attendees (a ∷ rest) = true

abbrev pub has_customer_identifiers : String → String → Bool
has_customer_identifiers id id_client_workspace = is_present id && is_present id_client_workspace

abbrev is_digit : ℕ → Bool
is_digit n = leb 48 n && leb n 57

-- Each `0` of the pattern stands for a digit, any other character for itself.
unfoldable pub matches : String → String → Bool
matches String.[] String.[] = true
matches String.[] (String.◌∷◌ c s) = false
matches (String.◌∷◌ p ps) String.[] = false
matches (String.◌∷◌ p ps) (String.◌∷◌ c s) =
    (if code p == 48 then is_digit (code c) else code p == code c) && matches ps s

-- `/^\d{4}-\d{2}-\d{2}T\d{2}:\d{2}:\d{2}$/`
abbrev pub is_start_local_iso : String → Bool
is_start_local_iso s = matches "0000-00-00T00:00:00" s

-- On the first instants of the two days.
abbrev pub is_day_in_past : ℕ → ℕ → Bool
is_day_in_past start_day today = ltb start_day today

abbrev pub is_time_in_past : Bool → ℕ → ℕ → Bool
is_time_in_past is_today start min_allowed_start =
    if is_today then ltb start min_allowed_start else false

abbrev pub has_any : List String → Bool
has_any [] = false
has_any (u ∷ us) = true

abbrev same_id : Option String → String → Bool
same_id none s = false
same_id (some t) s = str_eq t s

-- A participant is the pair of its identifiers.
abbrev pub is_owner : List (Option String × Option String) → String → String → Bool
is_owner participants id id_client_workspace =
    any (λ (p : Option String × Option String). same_id p.0 id || same_id p.1 id_client_workspace)
      participants

abbrev pub belongs_to_workspace : Option String → String → Bool
belongs_to_workspace event_workspace workspace = same_id event_workspace workspace

abbrev pub can_edit : Bool → Bool → Bool
can_edit is_group same_service_set = not is_group || same_service_set

abbrev pub is_within_limit : ℕ → ℕ → Bool
is_within_limit attendees_count max_per_booking = leb attendees_count max_per_booking

-- The event is given by its date of deletion, if it has one.
abbrev pub original_exists : Option (Option ℕ) → Bool
original_exists none = false
original_exists (some none) = true
original_exists (some (some deleted)) = false

abbrev pub has_conflict : Option String → Bool
has_conflict none = false
has_conflict (some id) = is_present id

abbrev pub has_window_of : List String → (String → List Window) → ℕ → Bool
has_window_of eligible free required =
    any (λ u. any (λ (w : Window). leb required ((w.end - w.start) / minute_ms)) (free u)) eligible

abbrev pub can_assign : Option String → Bool
can_assign none = false
can_assign (some s) = is_present s

abbrev pub is_available : Bool → Bool
is_available recheck = recheck
