-- ===== src/Update/Entry/Authorised.antt =====
-- Who may change a booking, and that a failed update changes nothing.
use mathlib.Core.List.{Memᴰ}
use text.Mathlib.Text.{◌==◌ as str_eq}
use ms_calendar_service.Base.{
  ℕ, ◌≡◌, ◌⊎◌, String, Option, none, some, Bool, true, false, List, [], ◌∷◌, refl, arith,
  Bool-cases, Option-cases, inl, inr, find, keep, eq_iff, if◌then◌else◌,
}
use ms_calendar_service.Base.Int.{ℤ}
use ms_calendar_service.Base.Members.{keep-All, All-Memᴰ}
use ms_calendar_service.Availability.Zone.{Zone}
use ms_calendar_service.Availability.Assign.{Attendee, Segment}
use ms_calendar_service.Booking.{Service, Request}
use ms_calendar_service.Booking.Rows.{Event, Group, Participant, Db, group_by_id, is_seated}
use ms_calendar_service.WebBooking.Policies.{is_owner, is_within_limit, can_edit}
use ms_calendar_service.WebBooking.Start.{
  WebInput, Calendar, StartContext, validate_add_from_web_input, resolve_start_context,
}
use ms_calendar_service.WebBooking.Context.{WebAttendee, AvailabilityContext}
use ms_calendar_service.Update.Persist.{
  GroupEdit, has_id, SingleResult, updated_in_place, single_failed,
}
use ms_calendar_service.Update.Strategy.{UpdateFlow, pure_class_edit, rebuild_booking}
use ms_calendar_service.Update.Rebuild.{RebuildInput, RebuildResult, rebuilt, rebuild_failed}
use ms_calendar_service.Update.Move.{MoveResult, moved, move_failed}
use ms_calendar_service.Update.Flows.{
  Choose, Chosen, chosen, not_chosen, no_snapshot, FlowResult, flow_done, after_single,
  store_single, fast_path_in, run_fast_path_single_flow, after_rebuild, store_rebuild, rebuild_in,
  run_rebuild_booking_flow, after_move, store_move, run_pure_class_edit_flow,
}
use ms_calendar_service.Update.Original.{
  identities, is_authorised, same_set, services_of, requested,
}
use ms_calendar_service.Update.Entry.{
  UpdateDeps, Edit, edit_for, run_class, run_single, run_flow, run_edit, run_original, run_start,
  update_event_from_web,
}

abbrev pub IsDone : FlowResult → Type 0
IsDone r =
    (segs : List Segment) × (updated : List Event) × (made : List Event) × (deleted : List String)
    × (r ≡ flow_done segs updated made deleted)

-- Done, or without an effect on the database.
abbrev Settles : Db → FlowResult × Db → Type 0
Settles before (r, after) = IsDone r ⊎ (after ≡ before)

after_single-Settles : (s : Segment) (db : Db) (r : SingleResult) → Settles db (after_single s db r)
after_single-Settles s db (updated_in_place e db') = inl (_, _, _, _, refl)
after_single-Settles s db (single_failed why) = inr refl

store_single-Settles :
    (z : Zone) (edit : GroupEdit) (svc : Option Service) (id service : String) (start end : ℕ)
    (o : Option String) (db : Db)
    → Settles db (store_single z edit svc id service start end o db)
store_single-Settles z edit svc id service start end none db = inr refl
store_single-Settles z edit svc id service start end (some u) db = after_single-Settles _ db _

after_rebuild-Settles :
    (segs : List Segment) (db : Db) (r : RebuildResult) → Settles db (after_rebuild segs db r)
after_rebuild-Settles segs db (rebuilt updated made deleted db') = inl (_, _, _, _, refl)
after_rebuild-Settles segs db (rebuild_failed why) = inr refl

store_rebuild-Settles :
    (input : RebuildInput) (db : Db) (c : Chosen) → Settles db (store_rebuild input db c)
store_rebuild-Settles input db (chosen segs) = after_rebuild-Settles segs db _
store_rebuild-Settles input db (not_chosen why) = inr refl
store_rebuild-Settles input db no_snapshot = inr refl

after_move-Settles : (s : Segment) (db : Db) (r : MoveResult) → Settles db (after_move s db r)
after_move-Settles s db (moved e action deleted db') = inl (_, _, _, _, refl)
after_move-Settles s db (move_failed why) = inr refl

store_move-Settles :
    (z : Zone) (request : Segment → Request) (group_id id service : String) (start end : ℕ)
    (o : Option String) (db : Db)
    → Settles db (store_move z request group_id id service start end o db)
store_move-Settles z request group_id id service start end none db = inr refl
store_move-Settles z request group_id id service start end (some u) db = after_move-Settles _ db _

-- The same of a flow, whose result has the store of the round robin too.
abbrev FlowSettles : {W : Type 0} → Db → FlowResult × W × Db → Type 0
FlowSettles db (r, w, db') = IsDone r ⊎ (db' ≡ db)

if-Settles :
    {W : Type 0} (db : Db) (c : Bool) (x y : FlowResult × W × Db)
    → FlowSettles db x
    → FlowSettles db y
    → FlowSettles db (if c then x else y)
if-Settles db true x y p q = p
if-Settles db false x y p q = q

module _ {W : Type 0} (z : Zone) (choose : Choose W) where
  fast_path-Settles :
      (ctx : Option AvailabilityContext) (edit : GroupEdit) (svc : Option Service) (id : String)
      (start : ℕ) (a : Attendee) (w : W) (db : Db)
      → FlowSettles db (run_fast_path_single_flow z choose ctx edit svc id start a w db)
  unfolding run_fast_path_single_flow fast_path_in
  fast_path-Settles ctx edit none id start a w db = inr refl
  fast_path-Settles none edit (some svc) id start a w db = inr refl
  fast_path-Settles (some ctx) edit (some svc) id start a w db =
      if-Settles db _ _ _ (store_single-Settles z edit (some svc) id a.service_id start _ _ db)
        (inr refl)

  rebuild-Settles :
      (ctx : Option AvailabilityContext) (input : RebuildInput) (most count start : ℕ)
      (attendees : List Attendee) (w : W) (db : Db)
      → FlowSettles db (run_rebuild_booking_flow z choose ctx input most count start attendees w db)
  unfolding run_rebuild_booking_flow rebuild_in
  rebuild-Settles none input most count start attendees w db =
      if-Settles db (is_within_limit count most) _ _ (inr refl) (inr refl)
  rebuild-Settles (some ctx) input most count start attendees w db =
      if-Settles db (is_within_limit count most) _ _ (store_rebuild-Settles input db _) (inr refl)

  class-Settles :
      (users : String → List String) (svc : Option Service) (request : Segment → Request)
      (group_id id : String) (start : ℕ) (a : WebAttendee) (w : W) (db : Db)
      → FlowSettles db
          (run_pure_class_edit_flow z choose users svc request group_id id start a w db)
  unfolding run_pure_class_edit_flow
  class-Settles users none request group_id id start a w db = inr refl
  class-Settles users (some svc) request group_id id start a w db =
      if-Settles db _ _ _
        (store_move-Settles z request group_id id a.attendee.service_id start _ _ db) (inr refl)

-- The original event is not deleted, its group is of the request's workspace, and the customer is
-- one of the group's participants that are not deleted.
abbrev pub IsAuthorised : WebInput → Db → Event → Type 0
IsAuthorised input db e =
    (e.deleted ≡ false)
    × ((g : Group) × (group_by_id db e.id_group ≡ some g) × (g.id_workspace ≡ input.id_workspace))
    × ((p : Participant) × Memᴰ p db.participants
        × (is_seated e.id_group p ≡ true)
        × ((p.id_client ≡ input.customer_id) ⊎ (p.id_client_workspace ≡ input.customer_workspace)))

module _ {W : Type 0} (z : Zone) (cal : Calendar) (choose : (String → Option ℤ) → Choose W)
    (input : WebInput) (deps : UpdateDeps) where
  class_flow-Settles :
      (ed : Edit) (start : StartContext) (attendees : List WebAttendee) (svc : Option Service)
      (w : W) (db : Db)
      → FlowSettles db (run_class z cal choose input deps ed start attendees svc w db)
  unfolding run_class
  class_flow-Settles ed start [] svc w db = inr refl
  class_flow-Settles ed start (a ∷ []) none w db = inr refl
  class_flow-Settles ed start (a ∷ []) (some svc) w db =
      class-Settles z (choose ed.weights) _ (some svc) _ _ _ _ a w db
  class_flow-Settles ed start (a ∷ b ∷ rest) svc w db = inr refl

  single_flow-Settles :
      (ed : Edit) (start : StartContext) (attendees : List WebAttendee) (w : W) (db : Db)
      → FlowSettles db (run_single z cal choose deps ed start attendees w db)
  unfolding run_single
  single_flow-Settles ed start [] w db = inr refl
  single_flow-Settles ed start (a ∷ []) w db =
      fast_path-Settles z (choose ed.weights) _ ed.edit _ _ _ a.attendee w db
  single_flow-Settles ed start (a ∷ b ∷ rest) w db = inr refl

  run_flow-Settles :
      (ed : Edit) (start : StartContext) (attendees : List WebAttendee) (f : Option UpdateFlow)
      (w : W) (db : Db)
      → FlowSettles db (run_flow z cal choose input deps ed start attendees f w db)
  unfolding run_flow
  run_flow-Settles ed start attendees none w db = inr refl
  run_flow-Settles ed start attendees (some pure_class_edit) w db =
      class_flow-Settles ed start attendees _ w db
  run_flow-Settles ed start attendees (some UpdateFlow.fast_path_single) w db =
      single_flow-Settles ed start attendees w db
  run_flow-Settles ed start attendees (some rebuild_booking) w db =
      rebuild-Settles z (choose ed.weights) _ _ _ _ _ _ w db

  is_owner-inv :
      (ps : List Participant)
      → is_owner (identities ps) input.customer_id input.customer_workspace ≡ true
      → (p : Participant) × Memᴰ p ps
        × ((p.id_client ≡ input.customer_id) ⊎ (p.id_client_workspace ≡ input.customer_workspace))
  is_owner-inv [] h = cc
  is_owner-inv (p ∷ ps) h = elim (Bool-cases (str_eq p.id_client input.customer_id)) [
    | inl t ↦ (p, Memᴰ.head refl, inl (ground (arith, eq_iff p.id_client input.customer_id)))
    | inr t ↦ elim (Bool-cases (str_eq p.id_client_workspace input.customer_workspace)) [
      | inl k ↦ (
        p,
        Memᴰ.head refl,
        inr (ground (arith, eq_iff p.id_client_workspace input.customer_workspace)),
      )
      | inr k ↦ let (q, m, own) = is_owner-inv ps (rw (t, k) at h) in (q, Memᴰ.tail m, own)
    ]
  ]

  is_authorised-IsAuthorised :
      (db : Db) (e : Event) → is_authorised input db e ≡ true → IsAuthorised input db e
  unfolding is_authorised
  is_authorised-IsAuthorised db e h =
      let mine = keep (is_seated e.id_group) db.participants in
      elim (Bool-cases e.deleted) [
        | inl t ↦ cc
        | inr t ↦ elim (Option-cases (group_by_id db e.id_group)) [
          | inl k ↦ cc
          | inr (g, k) ↦ elim (Bool-cases (str_eq g.id_workspace input.id_workspace)) [
            | inr m ↦ cc
            | inl m ↦
                let owns : is_owner (identities mine) input.customer_id input.customer_workspace
                    ≡ true =
                  rw (t, k, m) at h in
                let (p, member, own) = is_owner-inv mine owns in
                let (there, seated) =
                  All-Memᴰ (λ q. Memᴰ q db.participants × (is_seated e.id_group q ≡ true)) mine
                    (keep-All (is_seated e.id_group) db.participants) member in
                (
                  t,
                  (g, k, ground (arith, eq_iff g.id_workspace input.id_workspace)),
                  (p, there, seated, own),
                )
          ]
        ]
      ]

  abbrev IsRightful : String → Db → FlowResult × W × Db → Type 0
  IsRightful id_event db (r, w, db') =
      (db' ≡ db)
      ⊎ (IsDone r
          × ((e : Event) × (find (has_id id_event) db.events ≡ some e) × IsAuthorised input db e))

  edit-IsRightful :
      (id_event : String) (ed : Edit) (start : StartContext) (attendees : List WebAttendee) (w : W)
      (db : Db) (e : Event)
      → find (has_id id_event) db.events ≡ some e
      → IsAuthorised input db e
      → IsRightful id_event db (run_edit z cal choose input deps ed start attendees w db)
  unfolding run_edit
  edit-IsRightful id_event ed start attendees w db e found own =
      elim (if-Settles db
        (can_edit deps.mode_group (same_set (services_of ed.originals) (requested attendees))) _ _
        (run_flow-Settles ed start attendees _ w db) (inr refl)) [
          | inl d ↦ inr (d, (e, found, own))
          | inr same ↦ inl same
        ]

  original-IsRightful :
      (id_event : String) (deleted : List String) (start : StartContext)
      (attendees : List WebAttendee) (o : Option Event) (w : W) (db : Db)
      → find (has_id id_event) db.events ≡ o
      → IsRightful id_event db (run_original z cal choose input deps deleted start attendees o w db)
  unfolding run_original
  original-IsRightful id_event deleted start attendees none w db found = inl refl
  original-IsRightful id_event deleted start attendees (some e) w db found =
      elim (Bool-cases (is_authorised input db e)) [
        | inr m ↦ inl (rw (m, run_original) refl)
        | inl m ↦
            rw (m, run_original)
              (edit-IsRightful id_event (edit_for input deps deleted db e) start attendees w db e
                found (is_authorised-IsAuthorised db e m))
      ]

  started :
      (id_event : String) (deleted : List String) (attendees : List WebAttendee) (start : ℕ) (w : W)
      (db : Db)
      → IsRightful id_event db
          (run_start z cal choose input deps id_event deleted attendees start w db)
  unfolding run_start
  started id_event deleted attendees start w db =
      elim (Option-cases (resolve_start_context z cal start deps.now)) [
        | inl t ↦ inl (rw (t, run_start) refl)
        | inr (ctx, t) ↦
            rw (t, run_start)
              (original-IsRightful id_event deleted ctx attendees (find (has_id id_event) db.events)
                w db refl)
      ]

  -- An update from the web either leaves the database as it was, whichever of its checks or steps
  -- fails, or it was done to an event that exists with the requested identifier, is not deleted, is
  -- of the request's workspace, and has the customer among its participants.
  pub update_event_from_web-IsAuthorised :
      (id_event : String) (deleted : List String) (attendees : List WebAttendee) (w : W) (db : Db)
      → ((update_event_from_web z cal choose input deps id_event deleted attendees w db).2 ≡ db)
        ⊎ (IsDone (update_event_from_web z cal choose input deps id_event deleted attendees w db).0
            × ((e : Event) × (find (has_id id_event) db.events ≡ some e) × IsAuthorised input db e))
  unfolding update_event_from_web
  update_event_from_web-IsAuthorised id_event deleted attendees w db =
      elim (Bool-cases (str_eq id_event "")) [
        | inl t ↦ inl (rw (t, update_event_from_web) refl)
        | inr t ↦
            elim (Option-cases
              (validate_add_from_web_input input attendees deps.time_zone_workspace)) [
                | inr (why, k) ↦ inl (rw (t, k, update_event_from_web) refl)
                | inl k ↦ elim (Option-cases deps.parsed) [
                  | inl m ↦ inl (rw (t, k, m, update_event_from_web) refl)
                  | inr (start, m) ↦
                      rw (t, k, m, update_event_from_web)
                        (started id_event deleted attendees start w db)
                ]
              ]
      ]
