-- ===== src/Login/Tests.antt =====
-- Five failed logins of one address.
use opencode_rush_free.Base.{
  [], arith, bytes_eq, bytes_eqb, codes, false, insert, lookup, ltb, nat_eq, none, refl, some,
  string_eq, true, ◌+◌, ◌==◌, ◌∷◌, ◌≡◌,
}
use opencode_rush_free.Login.Admin.{
  AdminState, stored_time, session_life, login, logout, is_admin, same_origin_mutation,
}
use opencode_rush_free.Login.Admin.Lifetime.{session_lifetime}
use opencode_rush_free.Login.{login_retry_after, retry_of}
use opencode_rush_free.Login.Lock.{fail_all, failures_lock}

failures_lock_example :
    (login_retry_after 5
      (codes "10.0.0.1")
      (fail_all (codes "10.0.0.1") (0 ∷ 1 ∷ 2 ∷ 3 ∷ 4 ∷ []) [])).0
    ≡ 899999999999
unfolding lookup
failures_lock_example =
    failures_lock (codes "10.0.0.1") 0 (1 ∷ 2 ∷ 3 ∷ 4 ∷ []) 5 [] tt refl
      (omega arith, (omega arith, (omega arith, (omega arith, tt)))) (omega arith) (omega arith)

-- A login with the right password, in a world where the hash is the password.
abbrev admin_state : AdminState
admin_state = record { attempts = []; admin_hash = some (codes "secret"); sessions = [] }

session_lifetime_example :
    ((is_admin true true
        (λ t. 35 ∷ t)
        (codes "tok")
        5
        (login
          (λ h p. h == p)
          true
          (λ t. 35 ∷ t)
          (codes "10.0.0.1")
          1
          (some (codes "tok"))
          (some (codes "secret"))
          admin_state).1).0
      ≡ ltb 5 (stored_time (1 + session_life)))
    × ((is_admin true true
          (λ t. 35 ∷ t)
          (codes "tok")
          5
          (logout true true
            (λ t. 35 ∷ t)
            (codes "tok")
            (login
              (λ h p. h == p)
              true
              (λ t. 35 ∷ t)
              (codes "10.0.0.1")
              1
              (some (codes "tok"))
              (some (codes "secret"))
              admin_state).1).1).0
        ≡ false)
unfolding bytes_eqb login retry_of lookup
session_lifetime_example =
    session_lifetime (λ t. 35 ∷ t) (λ h p. h == p) true (codes "10.0.0.1") 1 (codes "tok")
      (some (codes "secret")) admin_state true 5 refl refl

-- Five wrong passwords lock the address even for the right one.
abbrev wrong_login : AdminState → AdminState
wrong_login s =
    (login (λ h p. h == p) true (λ t. 35 ∷ t) (codes "10.0.0.1") 1 (some (codes "tok"))
      (some (codes "guess")) s).1

locked_out :
    (login
      (λ h p. h == p)
      true
      (λ t. 35 ∷ t)
      (codes "10.0.0.1")
      2
      (some (codes "tok"))
      (some (codes "secret"))
      (wrong_login (wrong_login (wrong_login (wrong_login (wrong_login admin_state)))))).0
    ≡ 429
unfolding login retry_of lookup bytes_eqb insert
locked_out = refl

cross_site :
    same_origin_mutation (codes "POST") (codes " Cross-Site") [] (λ o. none) (codes "desk") ≡ false
unfolding same_origin_mutation bytes_eqb
cross_site = refl

other_origin :
    same_origin_mutation
      (codes "POST")
      []
      (codes "https://evil")
      (λ o. some (codes "evil"))
      (codes "desk")
    ≡ false
unfolding same_origin_mutation bytes_eqb
other_origin = refl
