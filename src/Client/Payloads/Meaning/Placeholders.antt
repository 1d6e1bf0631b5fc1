-- ===== src/Client/Payloads/Meaning/Placeholders.antt =====
-- The placeholders that the payloads of query, scan, count, the item operations and the
-- transactions of client.py and operations.py enter.
use aiodynamo.Prelude.{String, ◌≡◌, refl, ◌∙◌, Option, none, some, string_Keyed}
use aiodynamo.Prelude.Dict.{lookup}
use aiodynamo.Errors.{empty_item}
use aiodynamo.Values.{Fields, py2dy}
use aiodynamo.Expressions.Parameters.{Piece, Text}
use aiodynamo.Expressions.Fields.{Projection, encode_projection}
use aiodynamo.Expressions.Conditions.{Condition, encode_condition}
use aiodynamo.Expressions.Updates.{UpdateExpression}
use aiodynamo.Expressions.Usage.{
  Stands, Nowhere, Used, Used-pure, Used-raise, Used-bind, Used-then, Used-weaken,
}
use aiodynamo.Expressions.Usage.Encoders.{either, Used-key, Used-projection, Used-condition}
use aiodynamo.Expressions.Usage.Updates.{StandsOption, Used-update}
use aiodynamo.Client.Payloads.{Payload, text, expression, put_index, put_expression}
use aiodynamo.Client.Payloads.Query.{
  Select, select_value, QueryArguments, query_base, query_body, ScanArguments, scan_base, scan_body,
  CountArguments, count_base, count_body, encode_option,
}
use aiodynamo.Client.Payloads.Items.{updating, update_body}
use aiodynamo.Client.Payloads.Meaning.{
  key_condition, projection, filter, condition, update, IsPlain,
}
use aiodynamo.Client.Payloads.Meaning.Usage.{
  Mentions, UsedPayload, Used-put, Used-put_last, Used-start, Used-lift, SameSlots-Mentions,
  insert-SameSlots, put_index-SameSlots,
}

select-IsPlain : IsPlain "Select"
select-IsPlain = (refl, refl, refl, refl, refl, refl, refl)

key_Mentions :
    (payload : Payload) (t : Text)
    → lookup "KeyConditionExpression" payload ≡ some (expression t)
    → (x : Piece) → Stands t x
    → Mentions payload x
key_Mentions payload t at x h = (key_condition, t, at, h)

pub query_body-Used :
    (a : QueryArguments) (select : Select) → UsedPayload Nowhere (query_body a select)
unfolding query_body lookup
query_body-Used a select = Used-bind (Used-key a.key_condition) λ t.
    Used-weaken (λ x h. either h (λ n. elim n [ ]) (key_Mentions (query_base a t) t refl x))
      (Used-put Used-projection projection a.projection (query_base a t) _ refl λ projected same.
        Used-put Used-condition filter a.filter_expression projected _ (same filter refl)
          λ filtered same₂. Used-start a.start_key filtered _ λ started same₃. Used-pure _ λ x h.
            SameSlots-Mentions (put_index a.index started) _
              (insert-SameSlots "Select" (text (select_value select)) (put_index a.index started)
                select-IsPlain)
              x (SameSlots-Mentions started _ (put_index-SameSlots a.index started) x h))

pub scan_body-Used : (a : ScanArguments) → UsedPayload Nowhere (scan_body a)
unfolding scan_body lookup
scan_body-Used a =
    let indexed = put_index a.index (scan_base a) in
    let free = put_index-SameSlots a.index (scan_base a) in
    Used-weaken (λ x h. elim h [ ])
      (Used-start a.start_key indexed _ λ started same.
        Used-put Used-projection projection a.projection started _
          (same projection ∙ free projection)
          λ projected same₂.
            Used-put_last Used-condition filter a.filter_expression projected
              (same₂ filter refl ∙ same filter ∙ free filter))

pub count_body-Used : (a : CountArguments) → UsedPayload Nowhere (count_body a)
unfolding count_body lookup
count_body-Used a = Used-bind (Used-key a.key_condition) λ t.
    Used-weaken (λ x h. either h (λ n. elim n [ ]) (key_Mentions (count_base a t) t refl x))
      (Used-start a.start_key (count_base a t) _ λ started same.
        Used-put Used-condition filter a.filter_expression started _ (same filter) λ filtered same₂.
          Used-pure _ (SameSlots-Mentions filtered _ (put_index-SameSlots a.index filtered)))

-- A payload with at most one expression, which is put in last.
pub projected-Used :
    (o : Option Projection) (payload : Payload)
    → lookup "ProjectionExpression" payload ≡ none
    → UsedPayload Nowhere
        (put_expression "ProjectionExpression" (encode_option encode_projection o) payload)
projected-Used o payload free =
    Used-weaken (λ x h. elim h [ ]) (Used-put_last Used-projection projection o payload free)

pub conditional-Used :
    (o : Option Condition) (payload : Payload)
    → lookup "ConditionExpression" payload ≡ none
    → UsedPayload Nowhere
        (put_expression "ConditionExpression" (encode_option encode_condition o) payload)
conditional-Used o payload free =
    Used-weaken (λ x h. elim h [ ]) (Used-put_last Used-condition condition o payload free)

Used-updating : (o : Option Text) → Used Stands (λ x. StandsOption o x) (updating o)
Used-updating none = Used-raise empty_item
Used-updating (some t) = Used-pure t (λ x h. h)

pub update_body-Used :
    (table : String) (extra : Payload) (key : Fields) (u : UpdateExpression) (c : Option Condition)
    → lookup "ConditionExpression" extra ≡ none
    → UsedPayload Nowhere (update_body table extra key u c)
unfolding update_body lookup
update_body-Used table extra key u c free = Used-bind (Used-update u) λ o.
    Used-weaken (λ x h. either h (λ n. elim n [ ]) (λ s. s))
      (Used-then (Used-updating o) λ t. Used-bind (Used-lift {S = λ k x. ⊥} (py2dy key)) λ k.
        Used-weaken (λ x h. (update, t, refl, either h (λ s. s) (λ n. elim n [ ])))
          (Used-put_last Used-condition condition c _ free))
