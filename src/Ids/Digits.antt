-- ===== src/Ids/Digits.antt =====
-- The numbers behind the digits, cmd/server/main.go.
use opencode_rush_free.Base.{
  Bool, Bytes, [], ap₂, arith, bytes_eq, eq_of_==, if◌then◌else◌, nat_eq, refl, string_eq, suc,
  true, zero, ℕ, ◌%◌, ◌&&◌, ◌*◌, ◌++◌, ◌+◌, ◌/◌, ◌<◌, ◌==◌, ◌^◌, ◌∙◌, ◌∷◌, ◌≡◌,
}
use native.Mathlib.Nat.{pow-succ'}
use opencode_rush_free.Ids.{base62_alphabet, char_at, base62_encode, descending_word}

-- The position of a character in an alphabet; the length of the alphabet if it is not there.
abbrev pub index_of : ℕ → Bytes → ℕ
index_of c [] = 0
index_of c (x ∷ xs) = let later = index_of c xs in if x == c then 0 else suc later

-- The number that a text stands for, digit by digit.
abbrev pub decode_from : ℕ → Bytes → ℕ → Bytes → ℕ
decode_from base alphabet acc [] = acc
decode_from base alphabet acc (c ∷ s) =
    decode_from base alphabet (acc * base + index_of c alphabet) s

decode_from-append :
    (base : ℕ) (alphabet : Bytes) (acc : ℕ) (s t : Bytes)
    → decode_from base alphabet acc (s ++ t)
      ≡ decode_from base alphabet (decode_from base alphabet acc s) t
decode_from-append base alphabet acc [] t = refl
decode_from-append base alphabet acc (c ∷ s) t =
    decode_from-append base alphabet (acc * base + index_of c alphabet) s t

-- Every test on the numbers below a bound.
abbrev pub all_below : ℕ → (ℕ → Bool) → Bool
all_below zero p = true
all_below (suc n) p = p n && all_below n p

pub all_below_sound : (n : ℕ) (p : ℕ → Bool) (x : ℕ) → all_below n p ≡ true → x < n → p x ≡ true
all_below_sound zero p x h l = absurd (omega arith)
all_below_sound (suc n) p x h l = ground (arith, all_below_sound n p x)

digit62_table : all_below 62 (λ d. index_of (char_at base62_alphabet d) base62_alphabet == d) ≡ true
digit62_table = refl

digit62 : (d : ℕ) → d < 62 → index_of (char_at base62_alphabet d) base62_alphabet ≡ d
digit62 d l =
    let p = λ (x : ℕ). index_of (char_at base62_alphabet x) base62_alphabet == x in
    eq_of_== (index_of (char_at base62_alphabet d) base62_alphabet) d
      (all_below_sound 62 p d digit62_table l)

-- Decoding the encoding of a number that fits its width gives the number.
pub decode-base62_encode :
    (v width : ℕ) → v < 62 ^ width → decode_from 62 base62_alphabet 0 (base62_encode v width) ≡ v
unfolding base62_encode
decode-base62_encode v zero h = omega arith
decode-base62_encode v (suc width) h =
    let p = pow-succ' 62 width in
    let r = decode-base62_encode (v / 62) width (omega arith) in
    let d = digit62 (v % 62) (omega arith) in
    decode_from-append 62 base62_alphabet 0 (base62_encode (v / 62) width)
      (char_at base62_alphabet (v % 62) ∷ [])
    ∙ ap₂ (λ a b. a * 62 + b) r d
    ∙ (omega arith)

-- The low twelve bits of a session's time part read ffe.
descending_word-low :
    (h0 h1 h2 h3 h4 : ℕ)
    → h0 < 256
    → h1 < 256
    → h2 < 256
    → h3 < 256
    → h4 < 256
    → descending_word h0 h1 h2 h3 h4 % 4096 ≡ 0xffe
unfolding descending_word
descending_word-low h0 h1 h2 h3 h4 a b c d e = omega arith
