-- ===== src/Idempotency/Examples.antt =====
-- Three requests, and the theorems at them.
use mathlib.Core.Bool.{true≢false}
use text.Mathlib.Text.{◌==◌ as str_eq}
use ms_calendar_service.Base.{◌≡◌, String, none, true, false, List, [], ◌∷◌, refl, sym, ap}
use ms_calendar_service.RoundRobin.Texts.{text_le}
use ms_calendar_service.Redis.{
  RedisClient, table_client, table_client-IsRedis, redis_set_if_not_exists,
}
use ms_calendar_service.Idempotency.{
  Value, object, other, field, last_field, insert_field, normalize_for_hash, normalize_items,
  normalize_fields, GuardOptions, HttpRequest, Builtins, before_query, concat, passed, duplicate,
  redis_key, is_guarded, prevent_duplicate_clicks, handle_all,
}
use ms_calendar_service.Idempotency.Runs.{lock, expected, handle_all_lem}
use ms_calendar_service.Idempotency.Normal.{same_value, same_object, swapped, redis_key-Same}

-- The text of a body with the field `a` first, and of any other.
abbrev text_of : Value → String
text_of (object (field k v fs)) = k
text_of v = ""

abbrev js : Builtins
js = record { sha256 = λ s. s; stringify = λ p. text_of p.body; to_upper = λ s. s }

abbrev options : GuardOptions
options = record {
  ttl_seconds = 5;
  methods = "POST" ∷ [];
  key_prefix = "avoid-minor-abuse";
  include_query = false;
  fail_open = true;
  ignored_paths = [];
}

abbrev with_body : Value → HttpRequest
with_body v = record {
  method = "POST";
  original_url = "/events?x=1";
  base_url = "";
  path = "";
  token = "t";
  ip = "";
  forwarded_for = "";
  body = v;
  params = last;
  query = last;
}
  where
    last : Value
    last = object last_field

abbrev one : Value
one = object (field "a" (other "1") (field "b" (other "2") last_field))

abbrev turned : Value
turned = object (field "b" (other "2") (field "a" (other "1") last_field))

abbrev client : RedisClient String
client = table_client String

abbrev requests : List HttpRequest
requests = with_body one ∷ with_body turned ∷ with_body (other "3") ∷ []

run_example :
    (handle_all js options (lock js options client table_client-IsRedis) requests (λ k. none)).0
    ≡ expected js options [] requests
run_example = handle_all_lem js options client table_client-IsRedis requests (λ k. none) (λ k. refl)

key_example : redis_key js options (with_body one) ≡ redis_key js options (with_body turned)
key_example =
    redis_key-Same js options (with_body one) turned (object last_field) (object last_field)
      (same_object _ _ (
        swapped "a" "b" (other "1") (other "2") last_field
          (λ e. true≢false (sym (ap (λ s. str_eq s "b") e)))))
      (same_value _) (same_value _)

-- The second request is the first one again.
run_test :
    (handle_all js options (lock js options client table_client-IsRedis) requests (λ k. none)).0
    ≡ passed ∷ duplicate ∷ passed ∷ []
unfolding insert_field normalize_for_hash normalize_items normalize_fields before_query concat
    redis_key is_guarded prevent_duplicate_clicks handle_all redis_set_if_not_exists text_le
run_test = refl
