-- ===== src/Idempotency.antt =====
-- The guard against repeated requests (src/middlewares/request-idempotency.middleware.ts). The
-- hash, the text of a JSON value and the upper case of a text are parameters. A call of Redis that
-- throws is `none`.
pub mod Runs
pub mod Normal
mod Examples
use Prim.Native.Char.{code}
use Prim.Native.String
use text.Mathlib.Text.{◌==◌ as str_eq}
use ms_calendar_service.Base.{
  ℕ, String, Option, none, some, Bool, true, false, not, ◌&&◌, List, [], ◌∷◌, map, if◌then◌else◌,
  ◌==◌, any,
}
use ms_calendar_service.RoundRobin.Texts.{text_le}

-- A value of a request; `other` is any value that is none of the first three.
mutual
  pub data Value : Type 0 where
    date : String → Value
    array : Items → Value
    object : Fields → Value
    other : String → Value

  pub data Items : Type 0 where
    last_item : Items
    item : Value → Items → Items

  pub data Fields : Type 0 where
    last_field : Fields
    field : String → Value → Fields → Fields

-- The keys in the order of the default sort.
unfoldable pub insert_field : String → Value → Fields → Fields
insert_field k v last_field = field k v last_field
insert_field k v (field j w fs) =
    if text_le k j then field k v (field j w fs) else field j w (insert_field k v fs)

unfoldable mutual
  pub normalize_for_hash : Value → Value
  normalize_for_hash (date iso) = other iso
  normalize_for_hash (array items) = array (normalize_items items)
  normalize_for_hash (object fields) = object (normalize_fields fields)
  normalize_for_hash (other v) = other v

  pub normalize_items : Items → Items
  normalize_items last_item = last_item
  normalize_items (item v items) = item (normalize_for_hash v) (normalize_items items)

  pub normalize_fields : Fields → Fields
  normalize_fields last_field = last_field
  normalize_fields (field k v fs) = insert_field k (normalize_for_hash v) (normalize_fields fs)

-- An ignored path: a text, or the test of a regular expression.
pub data Ignored : Type 0 where
  path_text : String → Ignored
  path_pattern : (String → Bool) → Ignored

abbrev pub ignores : String → Ignored → Bool
ignores path (path_text p) = str_eq p path
ignores path (path_pattern test) = test path

abbrev pub path_is_ignored : String → List Ignored → Bool
path_is_ignored path ignored = any (ignores path) ignored

-- The options, with their defaults.
pub record GuardOptions : Type 0 where
  pub ttl_seconds : ℕ
  pub methods : List String
  pub key_prefix : String
  pub include_query : Bool
  pub fail_open : Bool
  pub ignored_paths : List Ignored

pub record HttpRequest : Type 0 where
  pub method : String
  pub original_url : String
  pub base_url : String
  pub path : String
  pub token : String  -- empty where there is none
  pub ip : String
  pub forwarded_for : String
  pub body : Value
  pub params : Value
  pub query : Value

-- `payload`
pub record Payload : Type 0 where
  pub body : Value
  pub params : Value
  pub query : Option Value

pub record Builtins : Type 0 where
  pub sha256 : String → String
  pub stringify : Payload → String
  pub to_upper : String → String

-- `split("?")[0]`
unfoldable pub before_query : String → String
before_query String.[] = ""
before_query (String.◌∷◌ c s) =
    let rest = before_query s in if code c == 63 then "" else String.◌∷◌ c rest

abbrev pub or_text : String → String → String
or_text s t = if str_eq s "" then t else s

abbrev pub route_path : HttpRequest → String
route_path r = before_query (or_text r.original_url (or_text r.base_url r.path))

unfoldable pub concat : List String → String
concat [] = ""
concat (s ∷ ss) = String.◌++◌ s (concat ss)

-- What the guard answers.
pub data Verdict : Type 0 where
  passed duplicate unavailable : Verdict

module _ (js : Builtins) (o : GuardOptions) where
  abbrev pub subject_of : HttpRequest → String
  subject_of r =
      if str_eq r.token ""
      then concat ("ip:" ∷ js.sha256 (or_text r.ip (or_text r.forwarded_for "unknown")) ∷ [])
      else concat ("token:" ∷ js.sha256 r.token ∷ [])

  abbrev pub payload_of : HttpRequest → Payload
  payload_of r = record {
    body = normalize_for_hash r.body;
    params = normalize_for_hash r.params;
    query = if o.include_query then some (normalize_for_hash r.query) else none;
  }

  unfoldable pub redis_key : HttpRequest → String
  redis_key r = concat (
      o.key_prefix
      ∷ ":"
      ∷ js.sha256 (
          concat (
            js.to_upper r.method
            ∷ ":"
            ∷ route_path r
            ∷ ":"
            ∷ subject_of r
            ∷ ":"
            ∷ js.sha256 (js.stringify (payload_of r))
            ∷ []))
      ∷ [])

  -- The two early returns.
  unfoldable pub is_guarded : HttpRequest → Bool
  is_guarded r =
      any (str_eq (js.to_upper r.method)) (map js.to_upper o.methods)
      && not (path_is_ignored (route_path r) o.ignored_paths)

  module _ {S : Type 0} (set_if_not_exists : String → ℕ → S → Option (Bool × S)) where
    abbrev pub after_lock : S → Option (Bool × S) → Verdict × S
    after_lock s none = (if o.fail_open then passed else unavailable, s)
    after_lock s (some (true, s')) = (passed, s')
    after_lock s (some (false, s')) = (duplicate, s')

    unfoldable pub prevent_duplicate_clicks : HttpRequest → S → Verdict × S
    prevent_duplicate_clicks r s =
        if is_guarded r
        then after_lock s (set_if_not_exists (redis_key r) o.ttl_seconds s)
        else (passed, s)

    -- Requests one after the other, with the verdict on each.
    unfoldable pub handle_all : List HttpRequest → S → List Verdict × S
    handle_all [] s = ([], s)
    handle_all (r ∷ rs) s =
        let (verdict, s') = prevent_duplicate_clicks r s in
        let (verdicts, s'') = handle_all rs s' in (verdict ∷ verdicts, s'')
