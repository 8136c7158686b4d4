-- ===== src/Images/Replace.antt =====
-- After the replacement no image is left, cmd/server/main.go.
use opencode_rush_free.Base.{
  Bool, Option, String, ap, ap₂, bytes_eqb, false, if_cases, none, refl, some, subst, sym, to_lower,
  trim_left, trim_space, true, ◌||◌, ◌∙◌, ◌≡◌,
}
use opencode_rush_free.Json.{
  Json, Items, Fields, null, bool, num, str, arr, obj, nil, cons, end, field, get, as_arr, get-put,
}
use opencode_rush_free.Images.{
  is_image_content_part, any_image_part, parts_have_image, contains_image_content,
  content_has_image, message_has_image, contains_image_content_in_messages,
  image_description_content, replace_parts, replace_in_parts, replace_image_content_value,
  write_content, replace_content, replace_message, replace_messages, ReplaceResult, no_messages,
  no_image, rewritten, replaced_payload, replace_in_messages, replace_image_content_payload,
  messages_have_image, request_has_image_input, clone_json_value, clone_items, clone_fields,
  describe_images,
}

description-plain : (d : String) → is_image_content_part (image_description_content d) ≡ false
unfolding is_image_content_part image_description_content get trim_space trim_left to_lower
    bytes_eqb
description-plain d = refl

replace_parts-clean : (d : String) (parts : Items) → any_image_part (replace_parts d parts) ≡ false
unfolding any_image_part replace_parts
replace_parts-clean d nil = refl
replace_parts-clean d (cons part parts) =
    let rest = replace_parts-clean d parts in
    if_cases (λ p. (is_image_content_part p || any_image_part (replace_parts d parts)) ≡ false)
      (is_image_content_part part)
      (λ _. ap (λ b. b || any_image_part (replace_parts d parts)) (description-plain d) ∙ rest)
      (λ e. ap (λ b. b || any_image_part (replace_parts d parts)) e ∙ rest)

-- What a replacement that may have found an image comes to: it finds one if there is one, and leaves none.
record Cleans (content : Json) (r : Json × Bool) : Type 0 where
  finds : r.1 ≡ contains_image_content content
  leaves : contains_image_content r.0 ≡ false

description-clean : (d : String) → contains_image_content (image_description_content d) ≡ false
unfolding contains_image_content image_description_content
description-clean d = ap (λ b. b || false) (description-plain d)

parts-Cleans :
    (d : String) (content : Json) (o : Option Items)
    → contains_image_content content ≡ parts_have_image o
    → Cleans content (replace_in_parts d content o)
unfolding contains_image_content is_image_content_part any_image_part
parts-Cleans d content none h = record { finds = sym h; leaves = h }
parts-Cleans d content (some parts) h = record {
  finds = sym h;
  leaves = array_clean (replace_parts d parts) (replace_parts-clean d parts);
}
  where
    array_clean :
        (parts : Items) → any_image_part parts ≡ false → contains_image_content (arr parts) ≡ false
    array_clean parts h = h

value-Cleans :
    (d : String) (content : Json) → Cleans content (replace_image_content_value d content)
unfolding replace_image_content_value contains_image_content
value-Cleans d content =
    if_cases (Cleans content) (is_image_content_part content)
      (λ e. record {
        finds = sym (ap (λ b. b || parts_have_image (as_arr (some content))) e);
        leaves = description-clean d;
      })
      (λ e.
        parts-Cleans d content (as_arr (some content))
          (ap (λ b. b || parts_have_image (as_arr (some content))) e))

-- The same of a message.
record CleansMessage (message : Json) (r : Json × Bool) : Type 0 where
  found : r.1 ≡ message_has_image message
  clean : message_has_image r.0 ≡ false

written-CleansMessage :
    (m : Fields) (content : Json) (r : Json × Bool)
    → get "content" m ≡ some content
    → Cleans content r
    → CleansMessage (obj m) (write_content m r)
written-CleansMessage m content (v, true) h c = record {
  found = c.finds ∙ ap content_has_image (sym h);
  clean = ap content_has_image (get-put "content" "content" v m) ∙ c.leaves;
}
written-CleansMessage m content (v, false) h c = record {
  found = c.finds ∙ ap content_has_image (sym h);
  clean = ap content_has_image h ∙ sym c.finds;
}

content-CleansMessage :
    (d : String) (m : Fields) (o : Option Json)
    → get "content" m ≡ o
    → CleansMessage (obj m) (replace_content d m o)
content-CleansMessage d m none h = record {
  found = sym (ap content_has_image h);
  clean = ap content_has_image h;
}
content-CleansMessage d m (some content) h =
    written-CleansMessage m content (replace_image_content_value d content) h
      (value-Cleans d content)

message-CleansMessage :
    (d : String) (message : Json) → CleansMessage message (replace_message d message)
unfolding replace_message
message-CleansMessage d (obj m) = content-CleansMessage d m (get "content" m) refl
message-CleansMessage d null = record { found = refl; clean = refl }
message-CleansMessage d (bool b) = record { found = refl; clean = refl }
message-CleansMessage d (num n) = record { found = refl; clean = refl }
message-CleansMessage d (str s) = record { found = refl; clean = refl }
message-CleansMessage d (arr xs) = record { found = refl; clean = refl }

replace_messages-clean :
    (d : String) (messages : Items)
    → ((replace_messages d messages).1 ≡ contains_image_content_in_messages messages)
      × (contains_image_content_in_messages (replace_messages d messages).0 ≡ false)
unfolding replace_messages contains_image_content_in_messages
replace_messages-clean d nil = (refl, refl)
replace_messages-clean d (cons message messages) =
    let c = message-CleansMessage d message in
    let (f, l) = replace_messages-clean d messages in
    (ap₂ (λ a b. a || b) c.found f, ap₂ (λ a b. a || b) c.clean l)

abbrev pub HasNoImage : Option Fields → Type 0
HasNoImage payload = request_has_image_input payload ≡ false

-- The rewritten request has no image, and a request has been rewritten only if it had one.
abbrev pub Replaced : Fields → ReplaceResult → Type 0
Replaced payload (rewritten p) =
    HasNoImage (some p) × (request_has_image_input (some payload) ≡ true)
Replaced payload no_image = HasNoImage (some payload)
Replaced payload no_messages = (as_arr (get "messages" payload) ≡ none) × HasNoImage (some payload)

payload-Replaced :
    (payload : Fields) (messages : Items) (r : Items × Bool)
    → as_arr (get "messages" payload) ≡ some messages
    → r.1 ≡ contains_image_content_in_messages messages
    → contains_image_content_in_messages r.0 ≡ false
    → Replaced payload (replaced_payload payload r)
unfolding request_has_image_input
payload-Replaced payload messages (ms, true) h f c = (
  ap (λ o. messages_have_image (as_arr o)) (get-put "messages" "messages" (arr ms) payload) ∙ c,
  ap messages_have_image h ∙ sym f,
)
payload-Replaced payload messages (ms, false) h f c = ap messages_have_image h ∙ sym f

in_messages-Replaced :
    (d : String) (payload : Fields) (o : Option Items)
    → as_arr (get "messages" payload) ≡ o
    → Replaced payload (replace_in_messages d payload o)
unfolding request_has_image_input
in_messages-Replaced d payload none h = (h, ap messages_have_image h)
in_messages-Replaced d payload (some messages) h =
    let (f, c) = replace_messages-clean d messages in
    payload-Replaced payload messages (replace_messages d messages) h f c

replace_image_content_payload_lem :
    (payload : Fields) (d : String) → Replaced payload (replace_image_content_payload payload d)
unfolding replace_image_content_payload
replace_image_content_payload_lem payload d =
    in_messages-Replaced d payload (as_arr (get "messages" payload)) refl

mutual
  unfolding clone_json_value

  clone_json_value_lem : (v : Json) → clone_json_value v ≡ v
  clone_json_value_lem (obj m) = ap obj (clone_fields_lem m)
  clone_json_value_lem (arr xs) = ap arr (clone_items_lem xs)
  clone_json_value_lem null = refl
  clone_json_value_lem (bool b) = refl
  clone_json_value_lem (num n) = refl
  clone_json_value_lem (str s) = refl

  clone_items_lem : (xs : Items) → clone_items xs ≡ xs
  clone_items_lem nil = refl
  clone_items_lem (cons x xs) = ap₂ cons (clone_json_value_lem x) (clone_items_lem xs)

  clone_fields_lem : (m : Fields) → clone_fields m ≡ m
  clone_fields_lem end = refl
  clone_fields_lem (field k v m) = ap₂ (field k) (clone_json_value_lem v) (clone_fields_lem m)

-- What the gateway forwards instead of a request with images: it is rewritten exactly if it has an image,
-- and is then free of images by the test that the gateway itself uses; without an image or without messages
-- there is an error.
pub describe_images_lem :
    (payload : Fields) (d : String) → Replaced payload (describe_images payload d)
unfolding describe_images
describe_images_lem payload d =
    subst (λ p. Replaced payload (replace_image_content_payload p d))
      (sym (clone_fields_lem payload)) (replace_image_content_payload_lem payload d)
