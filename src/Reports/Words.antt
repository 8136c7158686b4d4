-- ===== src/Reports/Words.antt =====
-- The words of a truncated error, cmd/server/main.go.
use opencode_rush_free.Base.{
  All, Bool, Bytes, List, [], any, ap₂, arith, bytes_eq, bytes_eqb, false, if_cases, is_space,
  length, ltb, nat_eq, not, refl, string_eq, suc, take, zero, ℕ, ◌&&◌, ◌++◌, ◌==◌, ◌||◌, ◌∙◌, ◌∷◌,
  ◌≡◌, ◌≢◌, ◌≤◌,
}
use opencode_rush_free.Reports.{fields_from, join_words, truncate_error, word_before}

length-take-le : (n : ℕ) (s : Bytes) → length (take n s) ≤ n
length-take-le zero s = omega arith
length-take-le (suc n) [] = omega arith
length-take-le (suc n) (c ∷ s) = omega (arith, length-take-le n s)

-- The words of a text have no white space, and none is empty.
unfoldable pub IsWord : Bytes → Type 0
IsWord w = (any is_space w ≡ false) × (w ≢ [])

any-append : (p : ℕ → Bool) (s t : Bytes) → any p (s ++ t) ≡ (any p s || any p t)
any-append p [] t = refl
any-append p (c ∷ s) t = ground (arith, any-append p s t)

snoc_not_nil : (s : Bytes) (c : ℕ) → (s ++ (c ∷ [])) ≢ []
snoc_not_nil [] c e = cc
snoc_not_nil (x ∷ s) c e = cc

word_before-All :
    (current : Bytes) (words : List Bytes)
    → any is_space current ≡ false
    → All IsWord words
    → All IsWord (word_before current words)
unfolding IsWord bytes_eqb
word_before-All [] words n a = a
word_before-All (c ∷ s) words n a = ((n, λ e. cc), a)

fields_from-All :
    (current s : Bytes) → any is_space current ≡ false → All IsWord (fields_from current s)
unfolding fields_from
fields_from-All current [] n = word_before-All current [] n tt
fields_from-All current (c ∷ s) n =
    if_cases (λ (w : List Bytes). All IsWord w) (is_space c)
      (λ e. word_before-All current (fields_from [] s) n (fields_from-All [] s refl))
      (λ e.
        fields_from-All (current ++ (c ∷ [])) s
          (any-append is_space current (c ∷ []) ∙ (ground arith)))

-- White space other than the blank.
abbrev pub breaks_line : ℕ → Bool
breaks_line c = is_space c && not (c == 32)

word-breaks : (w : Bytes) → any is_space w ≡ false → any breaks_line w ≡ false
word-breaks [] n = refl
word-breaks (c ∷ w) n = ground (arith, word-breaks w)

join_words-breaks :
    (words : List Bytes) → All IsWord words → any breaks_line (join_words words) ≡ false
unfolding join_words IsWord
join_words-breaks [] a = refl
join_words-breaks (w ∷ []) a = word-breaks w a.0.0
join_words-breaks (w ∷ (v ∷ words)) a =
    any-append breaks_line w (32 ∷ join_words (v ∷ words))
    ∙ ap₂ (λ x y. x || y) (word-breaks w a.0.0) (join_words-breaks (v ∷ words) a.1)

take-breaks : (n : ℕ) (s : Bytes) → any breaks_line s ≡ false → any breaks_line (take n s) ≡ false
take-breaks zero s e = refl
take-breaks (suc n) [] e = refl
take-breaks (suc n) (c ∷ s) e = ground (arith, take-breaks n s)

-- A recorded error has at most 500 bytes and, of white space, only blanks, whatever the error's text.
pub truncate_error_lem :
    (s : Bytes) → (length (truncate_error s) ≤ 500) × (any breaks_line (truncate_error s) ≡ false)
unfolding truncate_error
truncate_error_lem s =
    let text = join_words (fields_from [] s) in
    let plain = join_words-breaks (fields_from [] s) (fields_from-All [] s refl) in
    if_cases (λ (t : Bytes). (length t ≤ 500) × (any breaks_line t ≡ false)) (ltb 500 (length text))
      (λ e. (length-take-le 500 text, take-breaks 500 text plain)) (λ e. (ground arith, plain))
