-- ===== src/Guard/Chain.antt =====
-- The guards in the order of the routes client-add and client-update (src/features/event-
-- client/routes.ts), and what a request that passes them fulfils.
use ms_calendar_service.Base.{
  ℕ, ◌≡◌, inl, inr, String, Option, none, some, false, not, ◌&&◌, List, refl, arith, Bool-cases,
}
use ms_calendar_service.WebBooking.Policies.{is_present}
use ms_calendar_service.WebBooking.Start.{Calendar}
use ms_calendar_service.Booking.Rows.{Db}
use ms_calendar_service.Guard.{
  Guarded, refused, next, and_then, GuardInput, RawBody, base_validation_and_normalize,
}
use ms_calendar_service.Guard.Config.{BookingLimits, ConfigSource, resolve_workspace}
use ms_calendar_service.Guard.Limits.{
  ClientWorkspace, Customer, When, checked_client, resolve_client_workspace, enforce_time_rules,
  enforce_user_limits,
}

-- The days of a time zone.
pub record Days : Type 0 where
  pub cal : Calendar
  pub end_of_day_after : ℕ → ℕ → ℕ
  pub end_of_day : ℕ → ℕ

pub record GuardDeps : Type 0 where
  pub source : ConfigSource
  pub days_of : String → Days
  pub start_of : GuardInput → Option ℕ
  pub now : ℕ
  pub clients : List ClientWorkspace
  pub created : Option ClientWorkspace
  pub db : Db

-- The context after the guards.
pub record Admitted : Type 0 where
  pub input : GuardInput
  pub time_zone : String
  pub config : BookingLimits
  pub customer : Customer
  pub time : When

module _ (deps : GuardDeps) where
  -- The guards of client-update, the last of which is on the time.
  abbrev pub timed_guards : GuardInput → Guarded Admitted
  timed_guards input = and_then (resolve_workspace deps.source) (λ (zone, config).
      and_then (resolve_client_workspace input deps.clients deps.created) (λ customer.
        and_then
          (enforce_time_rules (deps.days_of zone).cal (deps.days_of zone).end_of_day_after config
            deps.now input (deps.start_of input))
          (λ time. next (record {
            input = input;
            time_zone = zone;
            config = config;
            customer = customer;
            time = time;
          }))))

  unfoldable pub client_update_guards : RawBody → Guarded Admitted
  client_update_guards body = and_then (base_validation_and_normalize body) timed_guards

  abbrev pub limit_guard : Admitted → Guarded Admitted
  limit_guard a =
      and_then
        (enforce_user_limits (deps.days_of a.time_zone).cal (deps.days_of a.time_zone).end_of_day
          a.config deps.db a.input a.customer a.time)
        (λ time. next a)

  unfoldable pub client_add_guards : RawBody → Guarded Admitted
  client_add_guards body = and_then (client_update_guards body) limit_guard

-- A guard that passes, and the ones behind it.
pub and_then-inv {ℓ} :
    {A B : Type ℓ} (g : Guarded A) (f : A → Guarded B) (y : B)
    → and_then g f ≡ next y
    → (x : A) × (g ≡ next x) × (f x ≡ next y)
and_then-inv (refused status place) f y h = cc
and_then-inv (next x) f y h = (x, refl, h)

pub checked_client-inv :
    (input : GuardInput) (c : Option ClientWorkspace) (customer : Customer)
    → checked_client input c ≡ next customer
    → (w : ClientWorkspace) × (c ≡ some w)
      × (w.is_banned ≡ false)
      × (w.client_is_banned ≡ false)
      × (customer.id_client_workspace ≡ w.id)
checked_client-inv input none customer h = cc
checked_client-inv input (some w) customer h =
    elim (Bool-cases (is_present w.id && not w.is_banned && not w.client_is_banned)) [
      | inr e ↦ cc (rw e at h)
      | inl e ↦ let passed = rw e at h in (w, refl, ground arith, ground arith, cc)
    ]
