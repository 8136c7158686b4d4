-- ===== src/Login/Admin.antt =====
-- The administrator's login, session and password, cmd/server/main.go, with the lock on failed logins. What
-- bcrypt, HMAC, the cookie and the database give are arguments; times are nanoseconds, an expiry is stored in
-- whole seconds.
use opencode_rush_free.Base.{
  Bool, Bytes, List, Option, [], bytes_eq, codes, delete, false, if◌then◌else◌, insert, leb, length,
  lookup, ltb, nat_eq, none, not, some, string_eq, to_lower, trim_space, true, ℕ, ◌&&◌, ◌*◌, ◌+◌,
  ◌/◌, ◌==◌, ◌||◌,
}
use opencode_rush_free.Limiter.{second}
use opencode_rush_free.Login.{
  LoginAttempt, login_retry_after, record_login_failure, clear_login_failures,
}
pub mod Lifetime

-- The settings that matter here: the password's hash, and the sessions' keys with their expiries.
pub record AdminState : Type 0 where
  pub attempts : List (Bytes × LoginAttempt)
  pub admin_hash : Option Bytes
  pub sessions : List (Bytes × ℕ)

abbrev pub session_life : ℕ
session_life = 12 * 60 * 60 * second

-- `Format(time.RFC3339)` drops the fraction of a second.
abbrev pub stored_time : ℕ → ℕ
stored_time t = t / second * second

unfoldable pub opened : Bool → (Bytes → Bytes) → Bytes → ℕ → Bytes → AdminState → ℕ × AdminState
opened false admin_session_key ip now token s = (500, s)
opened true admin_session_key ip now token s = (
  200,
  record s {
    sessions = insert (admin_session_key token) (stored_time (now + session_life)) s.sessions;
    attempts = clear_login_failures ip s.attempts;
  },
)

unfoldable pub open_session :
    Bool → (Bytes → Bytes) → Bytes → ℕ → Option Bytes → AdminState → ℕ × AdminState
unfolding opened
open_session saves admin_session_key ip now none s = (500, s)
open_session saves admin_session_key ip now (some token) s =
    opened saves admin_session_key ip now token s

unfoldable pub check_password :
    (Bytes → Bytes → Bool)
    → Bool
    → (Bytes → Bytes)
    → Bytes
    → ℕ
    → Option Bytes
    → Bytes
    → Option Bytes
    → AdminState
    → ℕ × AdminState
unfolding open_session record_login_failure
check_password matches saves admin_session_key ip now token password none s = (500, s)
check_password matches saves admin_session_key ip now token password (some hash) s =
    if matches hash password
    then open_session saves admin_session_key ip now token s
    else (401, record s { attempts = record_login_failure now ip s.attempts })

-- A login; the form is `none` if it cannot be read, the token `none` without random bytes. A locked address is refused
-- before the password is looked at.
unfoldable pub login :
    (Bytes → Bytes → Bool)
    → Bool
    → (Bytes → Bytes)
    → Bytes
    → ℕ
    → Option Bytes
    → Option Bytes
    → AdminState
    → ℕ × AdminState
unfolding check_password login_retry_after
login matches saves admin_session_key ip now token none s = (400, s)
login matches saves admin_session_key ip now token (some password) s =
    let (wait, kept) = login_retry_after now ip s.attempts in
    let t = record s { attempts = kept } in
    if ltb 0 wait
    then (429, t)
    else check_password matches saves admin_session_key ip now token password t.admin_hash t

-- `sameOriginMutation`: the method, Sec-Fetch-Site, Origin, the host that `url.Parse` finds in it, and the request's own.
unfoldable pub same_origin_mutation : Bytes → Bytes → Bytes → (Bytes → Option Bytes) → Bytes → Bool
unfolding trim_space to_lower
same_origin_mutation verb fetch_site origin host_of host =
    if verb == codes "GET" || verb == codes "HEAD" || verb == codes "OPTIONS"
    then true
    else if to_lower (trim_space fetch_site) == codes "cross-site"
    then false
    else if trim_space origin == []
    then true
    else elim (host_of (trim_space origin)) [
      | none ↦ false
      | some parsed ↦ not (parsed == []) && to_lower parsed == to_lower host
    ]

-- `isAdmin`, by the cookie's value, which is empty without a cookie; an expired session is deleted.
unfoldable pub admitted_until :
    Bool → (Bytes → Bytes) → Bytes → ℕ → Option ℕ → AdminState → Bool × AdminState
unfolding delete
admitted_until deletes admin_session_key token now none s = (false, s)
admitted_until deletes admin_session_key token now (some expiry) s =
    if ltb now expiry then (true, s) else (
      false,
      if deletes then record s { sessions = delete (admin_session_key token) s.sessions } else s,
    )

unfoldable pub is_admin : Bool → Bool → (Bytes → Bytes) → Bytes → ℕ → AdminState → Bool × AdminState
unfolding admitted_until lookup
is_admin reads deletes admin_session_key token now s =
    if token == [] || not reads
    then (false, s)
    else admitted_until deletes admin_session_key token now
        (lookup (admin_session_key token) s.sessions) s

-- The status of a handler behind `requireAdmin`, or that of its refusal.
unfoldable pub require_admin :
    Bool → Bool → (AdminState → ℕ × AdminState) → AdminState → ℕ × AdminState
require_admin same_origin admin handler s =
    if not same_origin then (403, s) else if not admin then (401, s) else handler s

unfoldable pub logout : Bool → Bool → (Bytes → Bytes) → Bytes → AdminState → ℕ × AdminState
unfolding delete
logout same_origin deletes admin_session_key token s =
    if not same_origin
    then (403, s)
    else if token == []
    then (200, s)
    else if not deletes
    then (500, s)
    else (200, record s { sessions = delete (admin_session_key token) s.sessions })

unfoldable pub validate_admin_password : Bytes → Bool
validate_admin_password password = leb 8 (length password) && leb (length password) 72

-- A change of the password; `hashed` is bcrypt's answer, `saves` that of the transaction, which also deletes all sessions.
unfoldable pub change_checked :
    (Bytes → Bytes → Bool)
    → Bool
    → Option Bytes
    → Bytes
    → Option Bytes
    → AdminState
    → ℕ × AdminState
change_checked matches saves hashed current none s = (500, s)
change_checked matches saves none current (some hash) s = (400, s)
change_checked matches saves (some new_hash) current (some hash) s =
    if not (matches hash current)
    then (400, s)
    else if not saves
    then (500, s)
    else (200, record s { admin_hash = some new_hash; sessions = [] })

-- The form is the current and the new password, `none` if it cannot be read.
unfoldable pub change_password :
    (Bytes → Bytes → Bool)
    → Bool
    → Option Bytes
    → Option (Bytes × Bytes)
    → AdminState
    → ℕ × AdminState
unfolding change_checked validate_admin_password
change_password matches saves hashed none s = (400, s)
change_password matches saves hashed (some (current, new)) s =
    if not (validate_admin_password new)
    then (400, s)
    else change_checked matches saves hashed current s.admin_hash s
