-- ===== src/Json.antt =====
-- JSON values as `encoding/json` decodes them into `any`: objects are Go maps, a number is kept as
-- its literal text, since the code that is modelled here only passes numbers on.
use opencode_rush_free.Base.{
  ==_self, Bool, Option, String, ap, arith, bytes_eq, if◌then◌else◌, nat_eq, none, refl, some,
  string_eq, ◌==◌, ◌≡◌,
}

mutual
  pub data Json : Type 0 where
    null : Json
    bool : Bool → Json
    num : String → Json
    str : String → Json
    arr : Items → Json
    obj : Fields → Json

  pub data Items : Type 0 where
    nil : Items
    cons : Json → Items → Items

  pub data Fields : Type 0 where
    end : Fields
    field : String → Json → Fields → Fields

-- `m[k]` with the `ok` of a map read.
unfoldable pub get : String → Fields → Option Json
get k end = none
get k (field j v m) = if j == k then some v else get k m

-- `m[k] = v`.
unfoldable pub put : String → Json → Fields → Fields
put k v end = field k v end
put k v (field j w m) = if j == k then field k v m else field j w (put k v m)

-- `append(xs, ys...)`.
unfoldable pub append_items : Items → Items → Items
append_items nil ys = ys
append_items (cons x xs) ys = cons x (append_items xs ys)

-- The type assertions `v.(T)`, of a value that may be absent.
abbrev pub as_bool : Option Json → Option Bool
as_bool (some (bool b)) = some b
as_bool _ = none

abbrev pub as_str : Option Json → Option String
as_str (some (str s)) = some s
as_str _ = none

abbrev pub as_arr : Option Json → Option Items
as_arr (some (arr xs)) = some xs
as_arr _ = none

abbrev pub as_obj : Option Json → Option Fields
as_obj (some (obj m)) = some m
as_obj _ = none

pub get-put :
    (k j : String) (v : Json) (m : Fields)
    → get j (put k v m) ≡ (if k == j then some v else get j m)
unfolding get put
get-put k j v end = refl
get-put k j v (field i w m) =
    ground
      (arith, string_eq.eqb_iff k j, string_eq.eqb_iff i k, string_eq.eqb_iff i j, get-put k j v m)

-- Writing back the value that a key has changes nothing.
pub put-get_self : (k : String) (v : Json) (m : Fields) → get k m ≡ some v → put k v m ≡ m
unfolding get put
put-get_self k v end h = ground arith
put-get_self k v (field j w m) h = ground (arith, string_eq.eqb_iff j k, put-get_self k v m)

pub put-put : (k : String) (v w : Json) (m : Fields) → put k v (put k w m) ≡ put k v m
unfolding put
put-put k v w end = ground (arith, ==_self k)
put-put k v w (field j x m) = ground (arith, ==_self k, put-put k v w m)

pub append_items-nil : (xs : Items) → append_items xs nil ≡ xs
unfolding append_items
append_items-nil nil = refl
append_items-nil (cons x xs) = ap (cons x) (append_items-nil xs)
