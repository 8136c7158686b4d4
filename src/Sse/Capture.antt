-- ===== src/Sse/Capture.antt =====
-- A capture holds the first bytes of all that is written, cmd/server/main.go.
use opencode_rush_free.Base.{
  Bytes, List, [], ap, append-nil, append_assoc, arith, if_cases, if◌then◌else◌, length, ltb, refl,
  suc, sym, take, zero, ℕ, ◌++◌, ◌-◌, ◌∙◌, ◌∷◌, ◌≡◌, ◌≤◌,
}
use opencode_rush_free.Sse.{LimitedCapture, write}

abbrev pub write_all : List Bytes → LimitedCapture → LimitedCapture
write_all [] w = w
write_all (p ∷ ps) w = write_all ps (write p w)

abbrev pub concat_chunks : List Bytes → Bytes
concat_chunks [] = []
concat_chunks (p ∷ ps) = p ++ concat_chunks ps

take_all : (n : ℕ) (xs : Bytes) → length xs ≤ n → take n xs ≡ xs
take_all zero [] h = refl
take_all zero (x ∷ xs) h = absurd (omega arith)
take_all (suc n) [] h = refl
take_all (suc n) (x ∷ xs) h = ap (λ ys. x ∷ ys) (take_all n xs (omega arith))

take-append : (n : ℕ) (xs ys : Bytes) → take n (xs ++ ys) ≡ take n xs ++ take (n - length xs) ys
take-append zero [] ys = refl
take-append zero (x ∷ xs) ys = ap (λ n. take n ys) (none_left (length xs))
  where
    none_left : (n : ℕ) → 0 ≡ 0 - suc n
    none_left n = omega arith
take-append (suc n) [] ys = ap (λ k. take k ys) (all_left n)
  where
    all_left : (n : ℕ) → suc n ≡ suc n - 0
    all_left n = omega arith
take-append (suc n) (x ∷ xs) ys =
    ap (λ zs. x ∷ zs) (take-append n xs ys)
    ∙ ap (λ k. x ∷ (take n xs ++ take k ys)) (one_less n (length xs))
  where
    one_less : (n m : ℕ) → n - m ≡ suc n - suc m
    one_less n m = omega arith

room-take : (n : ℕ) (xs : Bytes) → n - length (take n xs) ≡ n - length xs
room-take zero xs = omega arith
room-take (suc n) [] = refl
room-take (suc n) (x ∷ xs) = omega (arith, room-take n xs)

take-take_min :
    (n : ℕ) (xs : Bytes) → take (if ltb (length xs) n then length xs else n) xs ≡ take n xs
take-take_min n xs =
    if_cases (λ k. take k xs ≡ take n xs) (ltb (length xs) n)
      (λ e. take_all (length xs) xs (omega arith) ∙ sym (take_all n xs (ground arith))) (λ _. refl)

write-append :
    (p : Bytes) (w : LimitedCapture)
    → write p w ≡ record w { buf = w.buf ++ take (w.limit - length w.buf) p }
unfolding write
write-append p w =
    let n = w.limit - length w.buf in
    if_cases (λ x. x ≡ record w { buf = w.buf ++ take n p }) (ltb 0 n)
      (λ _. ap (λ s. record w { buf = w.buf ++ s }) (take-take_min n p))
      (λ e.
        let z : n ≡ 0 = (ground arith) in
        ap (λ s. record w { buf = s }) (sym (append-nil w.buf))
        ∙ ap (λ k. record w { buf = w.buf ++ take k p }) (sym z))

-- What the capture holds after any writes is what has been written, cut off at its limit.
pub write_all-take :
    (limit : ℕ) (ps : List Bytes) (seen : Bytes)
    → (write_all ps (record { buf = take limit seen; limit = limit })).buf
      ≡ take limit (seen ++ concat_chunks ps)
write_all-take limit [] seen = ap (take limit) (sym (append-nil seen))
write_all-take limit (p ∷ ps) seen =
    ap (λ w. (write_all ps w).buf)
      (write-append p (record { buf = take limit seen; limit = limit })
        ∙ ap (λ k. record { buf = take limit seen ++ take k p; limit = limit })
            (room-take limit seen)
        ∙ ap (λ s. record { buf = s; limit = limit }) (sym (take-append limit seen p)))
    ∙ write_all-take limit ps (seen ++ p)
    ∙ ap (take limit) (append_assoc seen p (concat_chunks ps))
