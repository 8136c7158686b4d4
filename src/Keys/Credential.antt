-- ===== src/Keys/Credential.antt =====
-- The key that a request brings and the session it belongs to, cmd/server/main.go. The header's values, by
-- `Header.Get`, `json.Marshal`, `json.Unmarshal` into a string and `hashToken` are arguments.
use opencode_rush_free.Base.{
  Bool, Bytes, List, Option, String, [], arith, bytes_eq, codes, drop, false, get_elem?, has_prefix,
  if◌then◌else◌, leb, length, nat_eq, none, some, string_eq, sym, take, to_lower, trim_space, ℕ,
  ◌&&◌, ◌++◌, ◌-◌, ◌==◌, ◌||◌, ◌∙◌, ◌∷◌, ◌≡◌,
}
use opencode_rush_free.Json.{
  Json, get, Items, append_items, Fields, as_str, bool, cons, as_obj, num, str, arr, obj, null, nil,
}

abbrev pub bearer_of : Bytes → Bytes
bearer_of auth = if has_prefix (to_lower auth) (codes "bearer ") then drop 7 auth else []

abbrev pub first_present : (Bytes → Bytes) → List Bytes → Bytes
first_present header_of [] = []
first_present header_of (name ∷ names) =
    let rest = first_present header_of names in
    if header_of name == [] then rest else header_of name

-- `supplied[0] == q && supplied[len(supplied)-1] == q`, of two bytes or more.
abbrev pub char_is : ℕ → Option ℕ → Bool
char_is q none = false
char_is q (some c) = c == q

abbrev pub quoted_by : ℕ → Bytes → Bool
quoted_by q s =
    leb 2 (length s) && (char_is q (get_elem? s 0) && char_is q (get_elem? s (length s - 1)))

unfoldable pub unquoted : Bytes → Bytes
unfolding trim_space
unquoted s =
    if quoted_by 34 s || quoted_by 39 s then trim_space (take (length s - 2) (drop 1 s)) else s

unfoldable pub client_credential : (Bytes → Bytes) → Bytes
unfolding unquoted trim_space to_lower has_prefix
client_credential header_of =
    let bearer = bearer_of (header_of (codes "Authorization")) in
    let supplied =
      if bearer == []
      then first_present header_of (codes "X-API-Key" ∷ codes "API-Key" ∷ [])
      else bearer in
    unquoted (trim_space supplied)

abbrev pub null_text : Bytes
null_text = codes "null"

-- The content of a message, if it is there, not null, and can be written as JSON.
abbrev pub written : Option Bytes → Option Bytes
written none = none
written (some text) = if text == null_text then none else some text

abbrev pub written_content : (Json → Option Bytes) → Option Json → Option Bytes
written_content marshal none = none
written_content marshal (some null) = none
written_content marshal (some (bool b)) = written (marshal (bool b))
written_content marshal (some (num n)) = written (marshal (num n))
written_content marshal (some (str s)) = written (marshal (str s))
written_content marshal (some (arr xs)) = written (marshal (arr xs))
written_content marshal (some (obj m)) = written (marshal (obj m))

abbrev pub is_user : Option String → Bool
is_user none = false
is_user (some role) = role == "user"

-- What a message of the user gives as a seed.
unfoldable pub message_seed : (Json → Option Bytes) → Option Fields → Option Bytes
unfolding get
message_seed marshal none = none
message_seed marshal (some m) =
    if is_user (as_str (get "role" m)) then written_content marshal (get "content" m) else none

abbrev pub first_of : Option Bytes → Option Bytes → Option Bytes
first_of none other = other
first_of (some text) other = some text

unfoldable pub first_seed : (Json → Option Bytes) → Items → Option Bytes
unfolding message_seed
first_seed marshal nil = none
first_seed marshal (cons message messages) =
    first_of (message_seed marshal (as_obj (some message))) (first_seed marshal messages)

abbrev pub or_empty : Option Bytes → Bytes
or_empty none = []
or_empty (some text) = text

unfoldable pub conversation_seed : (Json → Option Bytes) → Items → Bytes
unfolding first_seed
conversation_seed marshal messages = or_empty (first_seed marshal messages)

abbrev pub first_trimmed : (Bytes → Bytes) → List Bytes → Bytes
first_trimmed header_of [] = []
first_trimmed header_of (name ∷ names) =
    let rest = first_trimmed header_of names in
    if header_of name == [] then rest else header_of name

-- The name of the session before it is hashed: the header's, the `user` field's, if that is a string, or the seed.
unfoldable pub session_id : (Bytes → Bytes) → (Json → Option Bytes) → Bytes → Items → Bytes
unfolding conversation_seed trim_space
session_id header_of marshal user messages =
    let header =
      first_trimmed (λ name. trim_space (header_of name))
        (codes "X-Relay-Session-ID" ∷ codes "X-OpenCode-Session-ID" ∷ codes "X-Session-ID" ∷ []) in
    let named = if header == [] then trim_space user else header in
    if named == [] then conversation_seed marshal messages else named

unfoldable pub session_key :
    (Bytes → Bytes) → (Bytes → Bytes) → (Json → Option Bytes) → Bytes → Items → Bytes
unfolding session_id client_credential
session_key hash_token header_of marshal user messages =
    let id = session_id header_of marshal user messages in
    if id == [] then [] else hash_token (hash_token (client_credential header_of) ++ (0 ∷ id))

first_seed-append :
    (marshal : Json → Option Bytes) (messages later : Items) (text : Bytes)
    → first_seed marshal messages ≡ some text
    → first_seed marshal (append_items messages later) ≡ some text
unfolding first_seed append_items
first_seed-append marshal nil later text e = cc
first_seed-append marshal (cons message messages) later text e =
    ground (arith, first_seed-append marshal messages later text)

-- As a conversation grows, every request of the same client with the same headers has the same session, once
-- there is a message of the user with a content.
pub session_key-append :
    (hash_token header_of : Bytes → Bytes) (marshal : Json → Option Bytes) (user : Bytes)
    (messages later : Items) (text : Bytes)
    → first_seed marshal messages ≡ some text
    → session_key hash_token header_of marshal user (append_items messages later)
      ≡ session_key hash_token header_of marshal user messages
unfolding session_key session_id conversation_seed
session_key-append hash_token header_of marshal user messages later text e =
    let same : first_seed marshal (append_items messages later) ≡ first_seed marshal messages =
      first_seed-append marshal messages later text e ∙ sym e in
    rw same

-- A bearer key without white space or quotes around it is the credential.
pub client_credential-bearer :
    (header_of : Bytes → Bytes) (key : Bytes)
    → header_of (codes "Authorization") ≡ codes "Bearer " ++ key
    → (key == []) ≡ false
    → trim_space key ≡ key
    → (quoted_by 34 key || quoted_by 39 key) ≡ false
    → client_credential header_of ≡ key
unfolding client_credential unquoted has_prefix to_lower
client_credential-bearer header_of key a n t q = rw (a, n, t, q)
