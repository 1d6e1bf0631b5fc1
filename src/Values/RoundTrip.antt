-- ===== src/Values/RoundTrip.antt =====
-- `low_level_serialize` and `deserialize` of utils.py, one after the other.
use aiodynamo.Prelude.{◌+◌, ◌≡◌, refl, ap, ◌⊎◌, inl, inr, String, List, [], ◌∷◌, arith, map}
use aiodynamo.Errors.{Result, ok, map_result}
use aiodynamo.Values.{
  Value, Items, Fields, Tagged, TaggedItems, TaggedFields, null, bool, num, str, bytes, set,
  mapping, list, other_sequence, other, nil, cons, end, field, is_numeric, is_str, is_bytes,
  count_items, total_items, number_texts, str_texts, bytes_texts, serialize_set,
  low_level_serialize, serialize_list, serialize_dict, items_of, decoded_bytes, deserialize,
  deserialize_list, dy2py,
}
use aiodynamo.Values.Base64.{IsBytes, b64encode, b64decode-b64encode}

-- A set of str, or of bytes.
abbrev pub AreStrs : Items → Type 0
AreStrs nil = Unit
AreStrs (cons (str x) vs) = AreStrs vs
AreStrs (cons v vs) = ⊥

abbrev pub AreBytes : Items → Type 0
AreBytes nil = Unit
AreBytes (cons (bytes x) vs) = IsBytes x × AreBytes vs
AreBytes (cons v vs) = ⊥

module _ (numeric_type : String → Result Value) where
  -- A set of numbers (with no bool) that the reader of numbers reads back from their texts.
  abbrev pub AreNumbers : Items → Type 0
  AreNumbers nil = Unit
  AreNumbers (cons (num x) vs) = (numeric_type x.text ≡ ok (num x)) × AreNumbers vs
  AreNumbers (cons v vs) = ⊥

  -- The values that DynamoDB can hold and that are read back as themselves: a tuple is read back as a
  -- list.
  abbrev mutual
    pub IsStorable : Value → Type 0
    IsStorable (num x) = numeric_type x.text ≡ ok (num x)
    IsStorable (bytes x) = IsBytes x
    IsStorable (set items) = AreNumbers items ⊎ (AreStrs items ⊎ AreBytes items)
    IsStorable (mapping fields) = AreStorableFields fields
    IsStorable (list items) = AreStorable items
    IsStorable (other_sequence items) = ⊥
    IsStorable other = ⊥
    IsStorable _ = Unit

    pub AreStorable : Items → Type 0
    AreStorable nil = Unit
    AreStorable (cons v vs) = IsStorable v × AreStorable vs

    pub AreStorableFields : Fields → Type 0
    AreStorableFields end = Unit
    AreStorableFields (field k v fs) = IsStorable v × AreStorableFields fs

  numbers_counted : (vs : Items) → AreNumbers vs → count_items is_numeric vs ≡ total_items vs
  unfolding count_items total_items is_numeric
  numbers_counted nil h = refl
  numbers_counted (cons (num x) vs) h = omega (arith, numbers_counted vs h.1)
  numbers_counted (cons _ vs) h = elim h [ ]

  strs_counted :
      (vs : Items)
      → AreStrs vs
      → (count_items is_numeric vs ≡ 0) × (count_items is_str vs ≡ total_items vs)
  unfolding count_items total_items is_numeric is_str
  strs_counted nil h = (refl, refl)
  strs_counted (cons (str x) vs) h = omega (arith, strs_counted vs h)
  strs_counted (cons _ vs) h = elim h [ ]

  bytes_counted :
      (vs : Items)
      → AreBytes vs
      → (count_items is_numeric vs ≡ 0)
        × (count_items is_str vs ≡ 0)
        × (count_items is_bytes vs ≡ total_items vs)
  unfolding count_items total_items is_numeric is_str is_bytes
  bytes_counted nil h = (refl, refl, refl)
  bytes_counted (cons (bytes x) vs) h = omega (arith, bytes_counted vs h.1)
  bytes_counted (cons _ vs) h = elim h [ ]

  total_pos : (v : Value) (vs : Items) → total_items (cons v vs) ≡ 1 + total_items vs
  unfolding total_items
  total_pos v vs = refl

  serialize_set-numbers :
      (vs : Items) → AreNumbers vs → serialize_set vs ≡ ok (Tagged.ns (number_texts vs))
  unfolding serialize_set
  serialize_set-numbers vs h = ground (arith, numbers_counted vs h)

  serialize_set-strs :
      (v : Value) (vs : Items)
      → AreStrs (cons v vs)
      → serialize_set (cons v vs) ≡ ok (Tagged.ss (str_texts (cons v vs)))
  unfolding serialize_set
  serialize_set-strs v vs h = ground (arith, strs_counted (cons v vs) h, total_pos v vs)

  serialize_set-bytes :
      (v : Value) (vs : Items)
      → AreBytes (cons v vs)
      → serialize_set (cons v vs) ≡ ok (Tagged.bs (bytes_texts (cons v vs)))
  unfolding serialize_set
  serialize_set-bytes v vs h = ground (arith, bytes_counted (cons v vs) h, total_pos v vs)

  numbers_back :
      (vs : Items)
      → AreNumbers vs
      → (xs : List Value) × (map_result numeric_type (number_texts vs) ≡ ok xs) × (items_of xs ≡ vs)
  unfolding map_result number_texts items_of
  numbers_back nil h = ([], refl, refl)
  numbers_back (cons (num x) vs) h =
      let (xs, run, same) = numbers_back vs h.1 in
      (num x ∷ xs, rw (h.0, run), ap (cons (num x)) same)
  numbers_back (cons _ vs) h = elim h [ ]

  strs_back : (vs : Items) → AreStrs vs → items_of (map str (str_texts vs)) ≡ vs
  unfolding str_texts items_of
  strs_back nil h = refl
  strs_back (cons (str x) vs) h = ap (cons (str x)) (strs_back vs h)
  strs_back (cons _ vs) h = elim h [ ]

  bytes_back :
      (vs : Items)
      → AreBytes vs
      → (xs : List Value) × (map_result decoded_bytes (bytes_texts vs) ≡ ok xs) × (items_of xs ≡ vs)
  unfolding map_result bytes_texts items_of decoded_bytes
  bytes_back nil h = ([], refl, refl)
  bytes_back (cons (bytes x) vs) h =
      let (xs, run, same) = bytes_back vs h.1 in
      (bytes x ∷ xs, rw (b64decode-b64encode x h.0, run), ap (cons (bytes x)) same)
  bytes_back (cons _ vs) h = elim h [ ]

  abbrev Back : Value → Type 0
  Back v = (x : Tagged) × (low_level_serialize v ≡ ok x) × (deserialize numeric_type x ≡ ok v)

  number_set-Back : (vs : Items) → AreNumbers vs → Back (set vs)
  unfolding low_level_serialize deserialize
  number_set-Back vs h =
      let (xs, run, same) = numbers_back vs h in
      (Tagged.ns (number_texts vs), serialize_set-numbers vs h, rw (run, same))

  set-Back : (vs : Items) → IsStorable (set vs) → Back (set vs)
  unfolding low_level_serialize deserialize
  set-Back vs (inl h) = number_set-Back vs h
  set-Back nil (inr h) = number_set-Back nil tt
  set-Back (cons v vs) (inr (inl h)) = (
    Tagged.ss (str_texts (cons v vs)),
    serialize_set-strs v vs h,
    ap (λ w. ok (set w)) (strs_back (cons v vs) h),
  )
  set-Back (cons v vs) (inr (inr h)) =
      let (xs, run, same) = bytes_back (cons v vs) h in
      (Tagged.bs (bytes_texts (cons v vs)), serialize_set-bytes v vs h, rw (run, same))

  mutual
    unfolding low_level_serialize deserialize decoded_bytes

    value-Back : (v : Value) → IsStorable v → Back v
    value-Back null h = (Tagged.null, refl, refl)
    value-Back (bool x) h = (Tagged.bool x, refl, refl)
    value-Back (num x) h = (Tagged.n x.text, refl, rw h)
    value-Back (str x) h = (Tagged.s x, refl, refl)
    value-Back (bytes x) h = (Tagged.b (b64encode x), refl, rw (b64decode-b64encode x h))
    value-Back (set vs) h = set-Back vs h
    value-Back (mapping fs) h =
        let (x, there, back) = fields_back fs h in (Tagged.m x, rw there, rw back)
    value-Back (list vs) h =
        let (x, there, back) = items_back vs h in (Tagged.l x, rw there, rw back)
    value-Back (other_sequence vs) h = elim h [ ]
    value-Back other h = elim h [ ]

    items_back :
        (vs : Items)
        → AreStorable vs
        → (x : TaggedItems) × (serialize_list vs ≡ ok x) × (deserialize_list numeric_type x ≡ ok vs)
    items_back nil h = (TaggedItems.nil, refl, refl)
    items_back (cons v vs) h =
        let (x, there, back) = value-Back v h.0 in
        let (xs, there', back') = items_back vs h.1 in
        (TaggedItems.cons x xs, rw (there, there'), rw (back, back'))

    fields_back :
        (fs : Fields)
        → AreStorableFields fs
        → (x : TaggedFields) × (serialize_dict fs ≡ ok x) × (dy2py numeric_type x ≡ ok fs)
    fields_back end h = (TaggedFields.end, refl, refl)
    fields_back (field k v fs) h =
        let (x, there, back) = value-Back v h.0 in
        let (xs, there', back') = fields_back fs h.1 in
        (TaggedFields.field k x xs, rw (there, there'), rw (back, back'))

  -- A value of the storable kind (numbers that `numeric_type` reads back from their texts, bytes
  -- below 256, sets of such numbers, of str or of bytes alone, lists and mappings, no tuple or other
  -- sequence that is not a list, and no value of another class) serializes, and what it serializes to
  -- is deserialized to that value.
  pub deserialize-serialize :
      (v : Value)
      → IsStorable v
      → (x : Tagged) × (low_level_serialize v ≡ ok x) × (deserialize numeric_type x ≡ ok v)
  deserialize-serialize = value-Back

  -- An item whose values are all storable is serialized, and `dy2py` gives that item back.
  pub dy2py-serialize_dict :
      (fs : Fields)
      → AreStorableFields fs
      → (x : TaggedFields) × (serialize_dict fs ≡ ok x) × (dy2py numeric_type x ≡ ok fs)
  dy2py-serialize_dict = fields_back
