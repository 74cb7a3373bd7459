-- ===== src/Guard/Admitted.antt =====
-- What a request that passes the guards fulfils.
use ms_calendar_service.Base.{
  ℕ, ◌≡◌, ◌≤◌, ◌<◌, inl, inr, Option, none, some, false, not, ◌&&◌, ◌||◌, length, ltb, leb, arith,
  Bool-cases, ap, sym, subst,
}
use ms_calendar_service.Availability.Zone.{add_minutes}
use ms_calendar_service.WebBooking.Policies.{is_present}
use ms_calendar_service.WebBooking.Start.{Calendar}
use ms_calendar_service.Guard.{next, GuardInput, RawBody, base_validation_and_normalize}
use ms_calendar_service.Guard.Config.{BookingLimits, resolve_workspace}
use ms_calendar_service.Guard.Limits.{
  ClientWorkspace, Customer, When, brief_of, resolve_client_workspace, time_rules,
  enforce_time_rules, total_duration, number_or, count_bookings, is_within, max_services, per_day,
  concurrent, enforce_user_limits,
}
use ms_calendar_service.Guard.Chain.{
  GuardDeps, Admitted, timed_guards, client_update_guards, limit_guard, client_add_guards,
  and_then-inv, checked_client-inv,
}

-- The customer has an entry in the company, and neither it nor the client is banned.
abbrev pub IsWelcome : GuardDeps → Customer → Type 0
IsWelcome deps c =
    (w : ClientWorkspace) × (brief_of deps.clients deps.created ≡ some w)
    × (w.is_banned ≡ false)
    × (w.client_is_banned ≡ false)
    × (c.id_client_workspace ≡ w.id)

-- The start is far enough ahead and not too far, and the end is that of the services.
abbrev pub IsInTime : GuardDeps → Admitted → Type 0
IsInTime deps a =
    (deps.start_of a.input ≡ some a.time.start_ws)
    × (add_minutes deps.now (number_or 0 a.config.min_lead_time_min) ≤ a.time.start_ws)
    × (a.time.start_ws
        ≤ (deps.days_of a.time_zone).end_of_day_after deps.now
            (number_or 365 a.config.max_advance_days))
    × (a.time.end_ws ≡ add_minutes a.time.start_ws (total_duration a.input.attendees))

abbrev pub day_count : GuardDeps → Admitted → ℕ
day_count deps a =
    count_bookings deps.db a.customer.id_client_workspace
      ((deps.days_of a.time_zone).cal.start_of_day a.time.start_ws)
      ((deps.days_of a.time_zone).end_of_day a.time.start_ws)

abbrev pub slot_count : GuardDeps → Admitted → ℕ
slot_count deps a =
    count_bookings deps.db a.customer.id_client_workspace a.time.start_ws a.time.end_ws

-- Each limit that is set is kept.
abbrev pub IsLimited : GuardDeps → Admitted → Type 0
IsLimited deps a =
    (0 < max_services a.config → length a.input.attendees ≤ max_services a.config)
    × (0 < per_day a.config → day_count deps a < per_day a.config)
    × (0 < concurrent a.config → slot_count deps a < concurrent a.config)

enforce_time_rules-inv :
    (cal : Calendar) (end_of_day_after : ℕ → ℕ → ℕ) (config : BookingLimits) (now : ℕ)
    (input : GuardInput) (start : Option ℕ) (time : When)
    → enforce_time_rules cal end_of_day_after config now input start ≡ next time
    → (start ≡ some time.start_ws)
      × (add_minutes now (number_or 0 config.min_lead_time_min) ≤ time.start_ws)
      × (time.start_ws ≤ end_of_day_after now (number_or 365 config.max_advance_days))
      × (time.end_ws ≡ add_minutes time.start_ws (total_duration input.attendees))
unfolding enforce_time_rules
enforce_time_rules-inv cal end_of_day_after config now input none time h = cc
enforce_time_rules-inv cal end_of_day_after config now input (some start) time h =
    elim (Bool-cases (time_rules cal end_of_day_after config now start)) [
      | inr e ↦ cc (rw e at h)
      | inl e ↦
          let made : record {
            start_ws = start;
            end_ws = add_minutes start (total_duration input.attendees);
          }
              ≡ time =
            cc (rw e at h) in
          let from : start ≡ time.start_ws = ap (λ (t : When). t.start_ws) made in
          let to : add_minutes start (total_duration input.attendees) ≡ time.end_ws =
            ap (λ (t : When). t.end_ws) made in
          (
            ap some from,
            ground (arith, from),
            ground (arith, from),
            subst (λ n. time.end_ws ≡ add_minutes n (total_duration input.attendees)) from (sym to),
          )
    ]

resolve_client_workspace-inv :
    (deps : GuardDeps) (input : GuardInput) (customer : Customer)
    → resolve_client_workspace input deps.clients deps.created ≡ next customer
    → IsWelcome deps customer
unfolding resolve_client_workspace
resolve_client_workspace-inv deps input customer h =
    elim (Bool-cases (is_present input.customer_id && is_present input.id_company)) [
      | inr e ↦ cc (rw e at h)
      | inl e ↦ checked_client-inv input (brief_of deps.clients deps.created) customer (rw e at h)
    ]

enforce_user_limits-inv :
    (deps : GuardDeps) (a : Admitted) (time : When)
    → enforce_user_limits
        (deps.days_of a.time_zone).cal
        (deps.days_of a.time_zone).end_of_day
        a.config
        deps.db
        a.input
        a.customer
        a.time
      ≡ next time
    → IsLimited deps a
unfolding enforce_user_limits
enforce_user_limits-inv deps a time h =
    elim (Bool-cases (
      leb (length a.input.attendees) (max_services a.config)
      || not (ltb 0 (max_services a.config)))) [
        | inr e ↦ cc (rw e at h)
        | inl e ↦
            elim (Bool-cases (
              is_within (per_day a.config) (day_count deps a)
              && is_within (concurrent a.config) (slot_count deps a))) [
                | inr f ↦ cc (rw (e, f) at h)
                | inl f ↦ (λ p. ground arith, λ p. ground arith, λ p. ground arith)
              ]
      ]

timed_guards-inv :
    (deps : GuardDeps) (input : GuardInput) (a : Admitted)
    → timed_guards deps input ≡ next a
    → IsWelcome deps a.customer × IsInTime deps a
timed_guards-inv deps input a h =
    let ((zone, config), _, rest) = and_then-inv (resolve_workspace deps.source) _ a h in
    let (customer, met, rest') =
      and_then-inv (resolve_client_workspace input deps.clients deps.created) _ a rest in
    let (time, timed, made) =
      and_then-inv
        (enforce_time_rules (deps.days_of zone).cal (deps.days_of zone).end_of_day_after config
          deps.now input (deps.start_of input))
        _ a rest' in
    let same : record {
      input = input;
      time_zone = zone;
      config = config;
      customer = customer;
      time = time;
    }
        ≡ a =
      cc in
    let in_time =
      enforce_time_rules-inv (deps.days_of zone).cal (deps.days_of zone).end_of_day_after config
        deps.now input (deps.start_of input) time timed in
    subst (λ b. IsWelcome deps b.customer × IsInTime deps b) same
      (resolve_client_workspace-inv deps input customer met, in_time)

-- A request that passes the guards of client-add is of a customer who is known to the company and not
-- banned. Its start is at least the lead time after the present and not after the last day that can be
-- booked, and its end is the start and the durations of its services. Where the limits are set, it has
-- no more services than allowed, and the customer has fewer uncancelled bookings on the day of the
-- start, and fewer that meet its time, than allowed.
pub client_add_guards-IsAdmitted :
    (deps : GuardDeps) (body : RawBody) (a : Admitted)
    → client_add_guards deps body ≡ next a
    → IsWelcome deps a.customer × IsInTime deps a × IsLimited deps a
unfolding client_add_guards client_update_guards
client_add_guards-IsAdmitted deps body a h =
    let (b, timed, limited) =
      and_then-inv (client_update_guards deps body) (limit_guard deps) a h in
    let (input, _, run) =
      and_then-inv (base_validation_and_normalize body) (timed_guards deps) b timed in
    let (time, kept, made) =
      and_then-inv
        (enforce_user_limits (deps.days_of b.time_zone).cal (deps.days_of b.time_zone).end_of_day
          b.config deps.db b.input b.customer b.time)
        (λ t. next b) a limited in
    let same : b ≡ a = cc in
    let (welcome, in_time) = timed_guards-inv deps input b run in
    subst (λ c. IsWelcome deps c.customer × IsInTime deps c × IsLimited deps c) same
      (welcome, in_time, enforce_user_limits-inv deps b time kept)
