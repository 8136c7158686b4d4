-- ===== src/Login/Admin/Lifetime.antt =====
-- The life of an administrator's session, cmd/server/main.go.
use opencode_rush_free.Base.{
  ==_self, Bool, Bytes, Option, [], ap, arith, bytes_eq, delete, false, if◌then◌else◌, lookup,
  lookup-delete, lookup-insert_self, ltb, nat_eq, none, refl, some, string_eq, true, ℕ, ◌+◌, ◌==◌,
  ◌||◌, ◌∙◌, ◌≡◌, ◌≢◌,
}
use opencode_rush_free.Login.{login_retry_after}
use opencode_rush_free.Login.Admin.{
  AdminState, session_life, stored_time, opened, open_session, check_password, login, is_admin,
  admitted_until, logout,
}

module _ (admin_session_key : Bytes → Bytes) where
  -- What an answer 200 to a login with a token leaves.
  unfoldable Opens : Bytes → ℕ → ℕ × AdminState → Type 0
  unfolding lookup
  Opens token now r =
      r.0 ≡ 200
      → lookup (admin_session_key token) r.1.sessions ≡ some (stored_time (now + session_life))

  refused-Opens :
      (token : Bytes) (now status : ℕ) (s : AdminState) → status ≢ 200 → Opens token now (status, s)
  unfolding Opens
  refused-Opens token now status s n e = absurd (n e)

  either-Opens :
      (token : Bytes) (now : ℕ) (b : Bool) (x y : ℕ × AdminState)
      → Opens token now x
      → Opens token now y
      → Opens token now (if b then x else y)
  either-Opens token now true x y p q = p
  either-Opens token now false x y p q = q

  open_session-Opens :
      (saves : Bool) (ip : Bytes) (now : ℕ) (token : Bytes) (s : AdminState)
      → Opens token now (open_session saves admin_session_key ip now (some token) s)
  unfolding open_session opened Opens
  open_session-Opens false ip now token s e = absurd (omega arith)
  open_session-Opens true ip now token s e =
      lookup-insert_self (admin_session_key token) (stored_time (now + session_life)) s.sessions

  login-Opens :
      (matches : Bytes → Bytes → Bool) (saves : Bool) (ip : Bytes) (now : ℕ) (token : Bytes)
      (password : Option Bytes) (s : AdminState)
      → Opens token now (login matches saves admin_session_key ip now (some token) password s)
  unfolding login check_password
  login-Opens matches saves ip now token none s = refused-Opens token now 400 s (λ e. omega arith)
  login-Opens matches saves ip now token (some password) s =
      let t = record s { attempts = (login_retry_after now ip s.attempts).1 } in
      either-Opens token now (ltb 0 (login_retry_after now ip s.attempts).0) (429, t)
        (check_password matches saves admin_session_key ip now (some token) password t.admin_hash t)
        (refused-Opens token now 429 t (λ e. omega arith)) (of_hash t t.admin_hash)
    where
      of_hash :
          (t : AdminState) (o : Option Bytes)
          → Opens token now
              (check_password matches saves admin_session_key ip now (some token) password o t)
      of_hash t none = refused-Opens token now 500 t (λ e. omega arith)
      of_hash t (some hash) =
          either-Opens token now (matches hash password) _ _
            (open_session-Opens saves ip now token t)
            (refused-Opens token now 401 _ (λ e. omega arith))

  abbrev lives : ℕ → Option ℕ → Bool
  lives now none = false
  lives now (some expiry) = ltb now expiry

  admitted_until-lives :
      (deletes : Bool) (token : Bytes) (now : ℕ) (o : Option ℕ) (s : AdminState)
      → (admitted_until deletes admin_session_key token now o s).0 ≡ lives now o
  unfolding admitted_until
  admitted_until-lives deletes token now none s = refl
  admitted_until-lives deletes token now (some expiry) s = ground arith

  is_admin-lives :
      (deletes : Bool) (token : Bytes) (now : ℕ) (s : AdminState)
      → (token == []) ≡ false
      → (is_admin true deletes admin_session_key token now s).0
        ≡ lives now (lookup (admin_session_key token) s.sessions)
  unfolding is_admin
  is_admin-lives deletes token now s n =
      ap
        (λ b.
          (if b || false
            then (false, s)
            else admitted_until deletes admin_session_key token now
                (lookup (admin_session_key token) s.sessions) s).0)
        n
      ∙ admitted_until-lives deletes token now (lookup (admin_session_key token) s.sessions) s

  logout-sessions :
      (token : Bytes) (s : AdminState)
      → (token == []) ≡ false
      → lookup (admin_session_key token) (logout true true admin_session_key token s).1.sessions
        ≡ none
  unfolding logout
  logout-sessions token s n =
      let k = admin_session_key token in
      let gone : ℕ × AdminState = (200, record s { sessions = delete k s.sessions }) in
      let kept : ℕ × AdminState = (200, s) in
      ap (λ b. lookup k (if◌then◌else◌ {A = ℕ × AdminState} b kept gone).1.sessions) n
      ∙ lookup-delete k k s.sessions
      ∙ ap (λ b. if b then none else lookup k s.sessions) (==_self k)

  -- A login that is answered with 200 opens a session for its token that is an administrator's for twelve hours, cut to
  -- the second, and no longer; and a logout with the token that is answered with 200 ends it at once.
  pub session_lifetime :
      (matches : Bytes → Bytes → Bool) (saves : Bool) (ip : Bytes) (at : ℕ) (token : Bytes)
      (password : Option Bytes) (s : AdminState) (deletes : Bool) (now : ℕ)
      → (token == []) ≡ false
      → (login matches saves admin_session_key ip at (some token) password s).0 ≡ 200
      → ((is_admin true deletes admin_session_key token now
            (login matches saves admin_session_key ip at (some token) password s).1).0
          ≡ ltb now (stored_time (at + session_life)))
        × ((is_admin true deletes admin_session_key token now
              (logout true true admin_session_key token
                (login matches saves admin_session_key ip at (some token) password s).1).1).0
            ≡ false)
  unfolding Opens
  session_lifetime matches saves ip at token password s deletes now n e =
      let t = (login matches saves admin_session_key ip at (some token) password s).1 in
      let out = (logout true true admin_session_key token t).1 in
      let found = login-Opens matches saves ip at token password s e in
      (
        is_admin-lives deletes token now t n ∙ ap (lives now) found,
        is_admin-lives deletes token now out n ∙ ap (lives now) (logout-sessions token t n),
      )
