-- ===== src/Images/Tests.antt =====
-- A request with an image.
use opencode_rush_free.Json.{Fields, str, arr, obj, nil, cons, end, field}
use opencode_rush_free.Images.{describe_images}
use opencode_rush_free.Images.Replace.{Replaced, describe_images_lem}

abbrev request : Fields
request =
    field "messages"
      (arr (
        cons (obj (field "content" (arr (cons (obj (field "image_url" (str "x") end)) nil)) end))
          nil))
      end

describe_images_lem_example : Replaced request (describe_images request "a cat")
describe_images_lem_example = describe_images_lem request "a cat"
