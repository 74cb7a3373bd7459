-- ===== src/Idempotency/Normal.antt =====
-- The normal form of a request's values.
use ms_calendar_service.Base.{
  ◌≡◌, ◌≢◌, String, true, false, refl, Bool-cases, inl, inr, ◌⊎◌, ap, sym, ◌∙◌,
}
use ms_calendar_service.RoundRobin.Texts.{text_le}
use ms_calendar_service.RoundRobin.Texts.Order.{text_le-total, text_le_trans, text_le_antisym}
use ms_calendar_service.Idempotency.{
  Value, array, object, Items, last_item, item, Fields, last_field, field, insert_field,
  normalize_for_hash, normalize_items, normalize_fields, HttpRequest, Builtins, GuardOptions,
  redis_key,
}

-- For two keys that differ, the comparison holds one way only.
abbrev IsBefore : String → String → Type 0
IsBefore k j = (text_le k j ≡ true) × (text_le j k ≡ false)

ordered : (k j : String) → k ≢ j → IsBefore k j ⊎ IsBefore j k
ordered k j n = elim (Bool-cases (text_le k j)) [
  | inl e ↦ elim (Bool-cases (text_le j k)) [
    | inl f ↦ absurd (n (text_le_antisym k j e f))
    | inr f ↦ inl (e, f)
  ]
  | inr e ↦ inr (text_le-total k j e, e)
]

-- Two insertions commute, first where the one key is before the other.
insert_field-commutes :
    (k j : String) (v w : Value) (fs : Fields)
    → IsBefore k j
    → insert_field k v (insert_field j w fs) ≡ insert_field j w (insert_field k v fs)
unfolding insert_field
insert_field-commutes k j v w last_field (e, f) = rw (e, f) refl
insert_field-commutes k j v w (field i x fs) (e, f) = elim (Bool-cases (text_le j i)) [
  | inl g ↦ rw (g, text_le_trans k j i e g, e, f, g) refl
  | inr g ↦ elim (Bool-cases (text_le k i)) [
    | inl h ↦ rw (g, h, f, g) refl
    | inr h ↦ rw (g, h, insert_field, g) (ap (field i x) (insert_field-commutes k j v w fs (e, f)))
  ]
]

insert_field_swap :
    (k j : String) (v w : Value) (fs : Fields)
    → k ≢ j
    → insert_field k v (insert_field j w fs) ≡ insert_field j w (insert_field k v fs)
insert_field_swap k j v w fs n = elim (ordered k j n) [
  | inl b ↦ insert_field-commutes k j v w fs b
  | inr b ↦ sym (insert_field-commutes j k w v fs b)
]

-- The same value up to the order of the fields of its objects, whose keys differ.
mutual
  pub data Same : Value → Value → Type 0 where
    same_value : (v : Value) → Same v v
    same_array : (xs ys : Items) → SameItems xs ys → Same (array xs) (array ys)
    same_object : (fs gs : Fields) → SameFields fs gs → Same (object fs) (object gs)

  pub data SameItems : Items → Items → Type 0 where
    same_last : SameItems last_item last_item
    same_item :
        (v w : Value) (xs ys : Items)
        → Same v w
        → SameItems xs ys
        → SameItems (item v xs) (item w ys)

  pub data SameFields : Fields → Fields → Type 0 where
    same_no_field : SameFields last_field last_field
    same_field :
        (k : String) (v w : Value) (fs gs : Fields)
        → Same v w
        → SameFields fs gs
        → SameFields (field k v fs) (field k w gs)
    swapped :
        (k j : String) (v w : Value) (fs : Fields)
        → k ≢ j
        → SameFields (field k v (field j w fs)) (field j w (field k v fs))
    joined : (fs gs hs : Fields) → SameFields fs gs → SameFields gs hs → SameFields fs hs

mutual
  unfolding normalize_for_hash normalize_items normalize_fields

  pub normalize-Same : (v w : Value) → Same v w → normalize_for_hash v ≡ normalize_for_hash w
  normalize-Same v w (same_value u) = refl
  normalize-Same v w (same_array xs ys h) = ap array (items-Same xs ys h)
  normalize-Same v w (same_object fs gs h) = ap object (fields-Same fs gs h)

  pub items-Same : (xs ys : Items) → SameItems xs ys → normalize_items xs ≡ normalize_items ys
  items-Same xs ys same_last = refl
  items-Same xs ys (same_item v w xs' ys' h k) =
      rw (normalize-Same v w h, items-Same xs' ys' k) refl

  pub fields-Same : (fs gs : Fields) → SameFields fs gs → normalize_fields fs ≡ normalize_fields gs
  fields-Same fs gs same_no_field = refl
  fields-Same fs gs (same_field k v w fs' gs' h r) =
      rw (normalize-Same v w h, fields-Same fs' gs' r) refl
  fields-Same fs gs (swapped k j v w fs' n) =
      insert_field_swap k j (normalize_for_hash v) (normalize_for_hash w) (normalize_fields fs') n
  fields-Same fs gs (joined fs' gs' hs h r) = fields-Same fs' gs' h ∙ fields-Same gs' hs r

-- Two requests with the same method, path and client, whose bodies, parameters and queries are the
-- same up to the order of the fields of their objects, have one key.
pub redis_key-Same :
    (js : Builtins) (o : GuardOptions) (r : HttpRequest) (body params query : Value)
    → Same r.body body
    → Same r.params params
    → Same r.query query
    → redis_key js o r ≡ redis_key js o (record r { body = body; params = params; query = query })
unfolding redis_key
redis_key-Same js o r body params query h k l =
    rw
      (
        normalize-Same r.body body h,
        normalize-Same r.params params k,
        normalize-Same r.query query l,
      )
      refl
