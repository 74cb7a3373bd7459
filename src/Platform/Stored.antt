-- ===== src/Platform/Stored.antt =====
-- The rows of events that the creation and the edit of a booking store.
use mathlib.Core.List.{Memᴰ}
use mathlib.Core.List.Memᴰ as Mem
use ms_calendar_service.Base.{
  ℕ, ◌≡◌, ◌≢◌, inl, inr, String, some, Bool, true, false, List, [], ◌∷◌, ◌++◌, arith, Bool-cases,
  Option-cases, ap, sym, ◌∙◌, subst, eq_iff, All,
}
use ms_calendar_service.Availability.Zone.{add_minutes}
use ms_calendar_service.Booking.Rows.{Event}
use ms_calendar_service.Update.Persist.{update_rows, has_id}
use ms_calendar_service.Update.Rows.{update_event-inv, find-Memᴰ}
use ms_calendar_service.Platform.Payload.{SidebarService, SidebarPayload, Makers}
use ms_calendar_service.Platform.Upsert.{
  has_row, place_service, blank_event, stored_service, upsert_services,
}

module _ (p : Event → Bool) (f : Event → Event) where
  update_rows-kept :
      (x : Event) (xs : List Event) → Memᴰ x xs → p x ≡ false → Memᴰ x (update_rows p f xs)
  unfolding update_rows
  update_rows-kept x [] m h = absurd (Mem.not-nil m)
  update_rows-kept x (y ∷ xs) (Memᴰ.head k) h =
      let j : p y ≡ false = rw (← k) h in rw j (Memᴰ.head k)
  update_rows-kept x (y ∷ xs) (Memᴰ.tail m) h = Memᴰ.tail (update_rows-kept x xs m h)

  update_rows-changed :
      (x : Event) (xs : List Event) → Memᴰ x xs → p x ≡ true → Memᴰ (f x) (update_rows p f xs)
  unfolding update_rows
  update_rows-changed x [] m h = absurd (Mem.not-nil m)
  update_rows-changed x (y ∷ xs) (Memᴰ.head k) h =
      let j : p y ≡ true = rw (← k) h in rw j (Memᴰ.head (ap f k))
  update_rows-changed x (y ∷ xs) (Memᴰ.tail m) h = Memᴰ.tail (update_rows-changed x xs m h)

-- No two of the events have one identifier.
abbrev pub AreDistinct : List Event → Type 0
AreDistinct [] = Unit
AreDistinct (e ∷ es) = All (λ (f : Event). f.id ≢ e.id) es × AreDistinct es

module _ (makers : Makers) (p : SidebarPayload) (id_group : String) where
  -- The service has its row in the events, and rows with another identifier stay.
  stored_service-rows :
      (s : SidebarService) (start : ℕ) (events events' : List Event) (e : Event)
      → stored_service makers p s id_group start events ≡ some (e, events')
      → Memᴰ e events' × ((x : Event) → Memᴰ x events → e.id ≢ x.id → Memᴰ x events')
  stored_service-rows s start events events' e h = elim (Bool-cases (has_row s)) [
    | inl t ↦
        let f = place_service p s id_group start (add_minutes start s.duration) in
        let (row, found, key, made, final) =
          update_event-inv s.id_event f events events' e (rw t at h) in
        let (m, hit) = find-Memᴰ (has_id s.id_event) events row found in
        (
          rw (made, final) (update_rows-changed (has_id s.id_event) f row events m hit),
          λ x n apart.
              let id : e.id ≡ s.id_event = ap (λ (y : Event). y.id) made ∙ key in
              let miss : has_id s.id_event x ≡ false = ground (arith, eq_iff x.id s.id_event) in
              rw final (update_rows-kept (has_id s.id_event) f x events n miss),
        )
    | inr t ↦
        let blank = blank_event (makers.fresh_event events) in
        let new = place_service p s id_group start (add_minutes start s.duration) blank in
        let same : new ≡ e = cc (rw t at h) in
        let rows : events ++ new ∷ [] ≡ events' = cc (rw t at h) in
        (
          rw (← rows) (Mem.append_right events (Memᴰ.head (sym same))),
          λ x n apart. rw (← rows) (Mem.append_left (new ∷ []) n),
        )
  ]

  upsert_services-keeps :
      (services : List SidebarService) (start : ℕ) (events final : List Event) (es : List Event)
      (x : Event)
      → upsert_services makers p id_group services start events ≡ some (es, final)
      → Memᴰ x events
      → All (λ (e : Event). e.id ≢ x.id) es
      → Memᴰ x final
  unfolding upsert_services
  upsert_services-keeps [] start events final es x h m n =
      let same : events ≡ final = cc in rw (← same) m
  upsert_services-keeps (s ∷ services) start events final es x h m n =
      elim (Option-cases (stored_service makers p s id_group start events)) [
        | inl t ↦ cc (rw (t, upsert_services) at h)
        | inr ((e, events'), t) ↦
            elim (Option-cases
              (upsert_services makers p id_group services (add_minutes start s.duration) events')) [
                | inl u ↦ cc (rw (t, u, upsert_services) at h)
                | inr ((rest, last), u) ↦
                    let same : e ∷ rest ≡ es = cc (rw (t, u, upsert_services) at h) in
                    let end : last ≡ final = cc (rw (t, u, upsert_services) at h) in
                    let (first, others) = subst (All (λ (f : Event). f.id ≢ x.id)) (sym same) n in
                    let (_, keeps) = stored_service-rows s start events events' e t in
                    rw (← end) (
                      upsert_services-keeps services (add_minutes start s.duration) events' last
                        rest x u (keeps x m first) others)
              ]
      ]

  -- Every answered event is a row.
  pub upsert_services-stored :
      (services : List SidebarService) (start : ℕ) (events final : List Event) (es : List Event)
      → upsert_services makers p id_group services start events ≡ some (es, final)
      → AreDistinct es
      → All (λ (e : Event). Memᴰ e final) es
  unfolding upsert_services
  upsert_services-stored [] start events final es h d =
      let same : [] ≡ es = cc in subst (All (λ (e : Event). Memᴰ e final)) same tt
  upsert_services-stored (s ∷ services) start events final es h d =
      elim (Option-cases (stored_service makers p s id_group start events)) [
        | inl t ↦ cc (rw (t, upsert_services) at h)
        | inr ((e, events'), t) ↦
            elim (Option-cases
              (upsert_services makers p id_group services (add_minutes start s.duration) events')) [
                | inl u ↦ cc (rw (t, u, upsert_services) at h)
                | inr ((rest, last), u) ↦
                    let same : e ∷ rest ≡ es = cc (rw (t, u, upsert_services) at h) in
                    let end : last ≡ final = cc (rw (t, u, upsert_services) at h) in
                    let (apart, distinct) = subst AreDistinct (sym same) d in
                    let (m, _) = stored_service-rows s start events events' e t in
                    let next = add_minutes start s.duration in
                    subst (λ l. All (λ (f : Event). Memᴰ f final) l) same
                      (
                        rw (← end)
                            (upsert_services-keeps services next events' last rest e u m apart),
                        subst (λ l. All (λ (f : Event). Memᴰ f l) rest) end
                            (upsert_services-stored services next events' last rest u distinct),
                      )
              ]
      ]
