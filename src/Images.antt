-- ===== src/Images.antt =====
-- Images in chat messages, cmd/server/main.go: whether a request has one, the request to the vision helper,
-- and the replacement of images by the helper's description. `json.Marshal` is not modelled: a payload
-- stands for its encoding. The maps that the code changes in place are the parts of the one payload.
use Prim.Native.String.{◌++◌ as str_append}
use opencode_rush_free.Base.{
  Bool, Bytes, Option, String, bytes_eqb, codes, false, if◌then◌else◌, none, some, to_lower,
  trim_space, true, ◌||◌,
}
use opencode_rush_free.Json.{
  Json, Items, Fields, null, bool, num, str, arr, obj, nil, cons, end, field, get, put,
  append_items, as_str, as_arr,
}
pub mod Replace
mod Tests

abbrev pub is_image_kind : Bytes → Bool
is_image_kind kind =
    let k = to_lower (trim_space kind) in
    bytes_eqb k (codes "image_url")
    || bytes_eqb k (codes "input_image")
    || bytes_eqb k (codes "image")

abbrev pub kind_is_image : Option String → Bool
kind_is_image none = false
kind_is_image (some kind) = is_image_kind (codes kind)

abbrev pub is_present : Option Json → Bool
is_present none = false
is_present (some v) = true

unfoldable pub is_image_content_part : Json → Bool
is_image_content_part (obj part) =
    kind_is_image (as_str (get "type" part)) || is_present (get "image_url" part)
is_image_content_part _ = false

unfoldable pub any_image_part : Items → Bool
any_image_part nil = false
any_image_part (cons part parts) = is_image_content_part part || any_image_part parts

abbrev pub parts_have_image : Option Items → Bool
parts_have_image none = false
parts_have_image (some parts) = any_image_part parts

unfoldable pub contains_image_content : Json → Bool
contains_image_content content =
    is_image_content_part content || parts_have_image (as_arr (some content))

abbrev pub content_has_image : Option Json → Bool
content_has_image none = false
content_has_image (some content) = contains_image_content content

abbrev pub message_has_image : Json → Bool
message_has_image (obj message) = content_has_image (get "content" message)
message_has_image _ = false

unfoldable pub contains_image_content_in_messages : Items → Bool
contains_image_content_in_messages nil = false
contains_image_content_in_messages (cons message messages) =
    message_has_image message || contains_image_content_in_messages messages

-- A request body as it is decoded; `none` is no JSON object.
abbrev pub messages_have_image : Option Items → Bool
messages_have_image none = false
messages_have_image (some messages) = contains_image_content_in_messages messages

unfoldable pub request_has_image_input : Option Fields → Bool
request_has_image_input none = false
request_has_image_input (some payload) = messages_have_image (as_arr (get "messages" payload))

unfoldable pub image_description_content : String → Json
image_description_content description =
    obj (field "type" (str "text") (field "text" (str (str_append "[图片内容]\n" description)) end))

unfoldable pub replace_parts : String → Items → Items
replace_parts description nil = nil
replace_parts description (cons part parts) =
    let rest = replace_parts description parts in
    cons (if is_image_content_part part then image_description_content description else part) rest

abbrev pub replace_in_parts : String → Json → Option Items → Json × Bool
replace_in_parts description content none = (content, false)
replace_in_parts description content (some parts) =
    (arr (replace_parts description parts), any_image_part parts)

unfoldable pub replace_image_content_value : String → Json → Json × Bool
replace_image_content_value description content =
    if is_image_content_part content
    then (image_description_content description, true)
    else replace_in_parts description content (as_arr (some content))

-- `message["content"] = rewritten`, if there was an image.
abbrev pub write_content : Fields → Json × Bool → Json × Bool
write_content message (rewritten, found) =
    if found then (obj (put "content" rewritten message), true) else (obj message, false)

abbrev pub replace_content : String → Fields → Option Json → Json × Bool
replace_content description message none = (obj message, false)
replace_content description message (some content) =
    write_content message (replace_image_content_value description content)

unfoldable pub replace_message : String → Json → Json × Bool
replace_message description (obj message) =
    replace_content description message (get "content" message)
replace_message description message = (message, false)

unfoldable pub replace_messages : String → Items → Items × Bool
replace_messages description nil = (nil, false)
replace_messages description (cons message messages) =
    let (message', found) = replace_message description message in
    let (messages', more) = replace_messages description messages in
    (cons message' messages', found || more)

pub data ReplaceResult : Type 0 where
  no_messages no_image : ReplaceResult
  rewritten : Fields → ReplaceResult

abbrev pub replaced_payload : Fields → Items × Bool → ReplaceResult
replaced_payload payload (messages, replaced) =
    if replaced then rewritten (put "messages" (arr messages) payload) else no_image

abbrev pub replace_in_messages : String → Fields → Option Items → ReplaceResult
replace_in_messages description payload none = no_messages
replace_in_messages description payload (some messages) =
    replaced_payload payload (replace_messages description messages)

unfoldable pub replace_image_content_payload : Fields → String → ReplaceResult
replace_image_content_payload payload description =
    replace_in_messages description payload (as_arr (get "messages" payload))

abbrev pub helper_prompt : String
helper_prompt =
    "Describe every image in the conversation in concise, factual text. Include visible text, objects, layout, and relevant details. Return only the description so another text-only model can use it."

-- The request to the helper, `none` without messages.
unfoldable pub build_vision_request : Items → String → Option Fields
build_vision_request nil vision_model = none
build_vision_request (cons m ms) vision_model = some (
    field "model" (str vision_model) (
      field "messages"
        (arr (
          cons (obj (field "role" (str "system") (field "content" (str helper_prompt) end)))
            (cons m ms)))
        (field "max_tokens" (num "768") (field "stream" (bool false) end))))

unfoldable mutual
  pub clone_json_value : Json → Json
  clone_json_value (obj m) = obj (clone_fields m)
  clone_json_value (arr xs) = arr (clone_items xs)
  clone_json_value null = null
  clone_json_value (bool b) = bool b
  clone_json_value (num n) = num n
  clone_json_value (str s) = str s

  pub clone_items : Items → Items
  clone_items nil = nil
  clone_items (cons x xs) = cons (clone_json_value x) (clone_items xs)

  pub clone_fields : Fields → Fields
  clone_fields end = end
  clone_fields (field k v m) = field k (clone_json_value v) (clone_fields m)

-- What the gateway does to a request with an image: the payload that it forwards is a clone, with the
-- images replaced.
unfoldable pub describe_images : Fields → String → ReplaceResult
describe_images payload description =
    replace_image_content_payload (clone_fields payload) description
