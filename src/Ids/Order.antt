-- ===== src/Ids/Order.antt =====
-- The order of the identifiers that one clock gives out, cmd/server/main.go.
use native.Mathlib.Nat.{pow-succ'}
use opencode_rush_free.Base.{
  Bool, Bytes, List, [], ap, ap₂, arith, bytes_eq, false, if◌then◌else◌, inl, inr, length, ltb,
  nat_eq, refl, string_eq, suc, sym, true, zero, ℕ, ◌%◌, ◌*◌, ◌++◌, ◌+◌, ◌/◌, ◌<◌, ◌==◌, ◌^◌, ◌∙◌,
  ◌∷◌, ◌≡◌, ◌≤◌, ◌⊎◌,
}
use opencode_rush_free.Ids.{
  base62_alphabet, hex_alphabet, char_at, base62_encode, hex_encode, IdClock, tick, random_chars,
  id_text,
}
use opencode_rush_free.Ids.Digits.{all_below, all_below_sound}

-- The order of texts by their bytes, as a database sorts them.
unfoldable pub lex_lt : Bytes → Bytes → Bool
lex_lt [] [] = false
lex_lt [] (y ∷ t) = true
lex_lt (x ∷ s) [] = false
lex_lt (x ∷ s) (y ∷ t) =
    let later = lex_lt s t in if ltb x y then true else if x == y then later else false

-- The clock behind some identifiers, of which each was asked for at its own time.
unfoldable pub ticks : List ℕ → IdClock → IdClock
ticks [] c = c
ticks (now ∷ later) c = ticks later (tick now c)

-- The clock's number: its time and its count.
abbrev pub clock_value : IdClock → ℕ
clock_value c = c.last_ms * 4096 + c.seq

tick_seq : (now : ℕ) (c : IdClock) → (tick now c).seq ≤ 4095
unfolding tick
tick_seq now c = ground arith

tick_later : (now : ℕ) (c : IdClock) → c.seq ≤ 4095 → clock_value c < clock_value (tick now c)
unfolding tick
tick_later now c h = ground arith

ticks_seq : (nows : List ℕ) (c : IdClock) → c.seq ≤ 4095 → (ticks nows c).seq ≤ 4095
unfolding ticks
ticks_seq [] c h = h
ticks_seq (now ∷ later) c h = ticks_seq later (tick now c) (tick_seq now c)

ticks_later :
    (nows : List ℕ) (c : IdClock) → c.seq ≤ 4095 → clock_value c ≤ clock_value (ticks nows c)
unfolding ticks
ticks_later [] c h = omega arith
ticks_later (now ∷ later) c h =
    let s = tick_later now c h in
    let r = ticks_later later (tick now c) (tick_seq now c) in omega arith

ltb-true : (x y : ℕ) → x < y → ltb x y ≡ true
ltb-true x y l = ground arith

lex_lt-prefix : (p s t : Bytes) → lex_lt (p ++ s) (p ++ t) ≡ lex_lt s t
unfolding lex_lt
lex_lt-prefix [] s t = refl
lex_lt-prefix (x ∷ p) s t = ground (arith, lex_lt-prefix p s t)

lex_lt-extend :
    (s t u v : Bytes) → length s ≡ length t → lex_lt s t ≡ true → lex_lt (s ++ u) (t ++ v) ≡ true
unfolding lex_lt
lex_lt-extend [] [] u v n h = cc
lex_lt-extend [] (y ∷ t) u v n h = absurd (omega arith)
lex_lt-extend (x ∷ s) [] u v n h = absurd (omega arith)
lex_lt-extend (x ∷ s) (y ∷ t) u v n h = ground (arith, lex_lt-extend s t u v)

-- The digits of two numbers below a bound stand in an alphabet in the order of the numbers.
abbrev Ascending : ℕ → Bytes → Type 0
Ascending n alphabet = (d e : ℕ) → d < e → e < n → char_at alphabet d < char_at alphabet e

less_or_same : (v w : ℕ) → v ≤ w → (v < w) ⊎ (v ≡ w)
less_or_same v w l = ground arith

Ascending-below :
    (n : ℕ) (alphabet : Bytes)
    → all_below n (λ e. all_below e (λ d. ltb (char_at alphabet d) (char_at alphabet e))) ≡ true
    → Ascending n alphabet
Ascending-below n alphabet h d e l m =
    let row =
      all_below_sound n
        (λ (x : ℕ). all_below x (λ d. ltb (char_at alphabet d) (char_at alphabet x))) e h m in
    let cell =
      all_below_sound e (λ (x : ℕ). ltb (char_at alphabet x) (char_at alphabet e)) d row l in
    ground arith

ascending62 : Ascending 62 base62_alphabet
ascending62 = Ascending-below 62 base62_alphabet refl

ascending16 : Ascending 16 hex_alphabet
ascending16 = Ascending-below 16 hex_alphabet refl

length-snoc : (s : Bytes) (d : ℕ) → length (s ++ (d ∷ [])) ≡ suc (length s)
length-snoc [] d = refl
length-snoc (x ∷ s) d = ap suc (length-snoc s d)

length-base62_encode : (v width : ℕ) → length (base62_encode v width) ≡ width
unfolding base62_encode
length-base62_encode v zero = refl
length-base62_encode v (suc width) =
    length-snoc (base62_encode (v / 62) width) (char_at base62_alphabet (v % 62))
    ∙ ap suc (length-base62_encode (v / 62) width)

length-hex_encode : (v width : ℕ) → length (hex_encode v width) ≡ width
unfolding hex_encode
length-hex_encode v zero = refl
length-hex_encode v (suc width) =
    length-snoc (hex_encode (v / 16) width) (char_at hex_alphabet (v % 16))
    ∙ ap suc (length-hex_encode (v / 16) width)

lex_lt-last : (s : Bytes) (d e : ℕ) → d < e → lex_lt (s ++ (d ∷ [])) (s ++ (e ∷ [])) ≡ true
unfolding lex_lt
lex_lt-last s d e l = lex_lt-prefix s (d ∷ []) (e ∷ []) ∙ (ground arith)

-- Encodings of the same width sort as their numbers.
base62_encode-ascends :
    (width v w : ℕ)
    → v < w
    → w < 62 ^ width
    → lex_lt (base62_encode v width) (base62_encode w width) ≡ true
unfolding base62_encode
base62_encode-ascends zero v w l h = absurd (omega arith)
base62_encode-ascends (suc width) v w l h =
    let p = pow-succ' 62 width in
    elim (less_or_same (v / 62) (w / 62) (omega arith)) [
      | inl m ↦
          lex_lt-extend (base62_encode (v / 62) width) (base62_encode (w / 62) width)
            (char_at base62_alphabet (v % 62) ∷ []) (char_at base62_alphabet (w % 62) ∷ [])
            (length-base62_encode (v / 62) width ∙ sym (length-base62_encode (w / 62) width))
            (base62_encode-ascends width (v / 62) (w / 62) m (omega arith))
      | inr e ↦ rw (sym e) (
          lex_lt-last (base62_encode (v / 62) width) (char_at base62_alphabet (v % 62))
            (char_at base62_alphabet (w % 62))
            (ascending62 (v % 62) (w % 62) (omega arith) (omega arith)))
    ]

hex_encode-ascends :
    (width v w : ℕ)
    → v < w
    → w < 16 ^ width
    → lex_lt (hex_encode v width) (hex_encode w width) ≡ true
unfolding hex_encode
hex_encode-ascends zero v w l h = absurd (omega arith)
hex_encode-ascends (suc width) v w l h =
    let p = pow-succ' 16 width in
    elim (less_or_same (v / 16) (w / 16) (omega arith)) [
      | inl m ↦
          lex_lt-extend (hex_encode (v / 16) width) (hex_encode (w / 16) width)
            (char_at hex_alphabet (v % 16) ∷ []) (char_at hex_alphabet (w % 16) ∷ [])
            (length-hex_encode (v / 16) width ∙ sym (length-hex_encode (w / 16) width))
            (hex_encode-ascends width (v / 16) (w / 16) m (omega arith))
      | inr e ↦ rw (sym e) (
          lex_lt-last (hex_encode (v / 16) width) (char_at hex_alphabet (v % 16))
            (char_at hex_alphabet (w % 16))
            (ascending16 (v % 16) (w % 16) (omega arith) (omega arith)))
    ]

mod_small : (x : ℕ) → x < 2 ^ 48 → x % 2 ^ 48 ≡ x
mod_small x k = omega arith

-- A number in hexadecimal, a count and any bytes, as `id_text` puts them together.
abbrev numbered : ℕ → ℕ → Bytes → Bytes
numbered ms count rest = hex_encode ms 12 ++ (base62_encode count 3 ++ rest)

numbered-ascends :
    (ms nt count number : ℕ) (s t : Bytes)
    → nt < 2 ^ 48
    → count ≤ 4095
    → number ≤ 4095
    → ms * 4096 + count < nt * 4096 + number
    → lex_lt (numbered ms count s) (numbered nt number t) ≡ true
numbered-ascends ms nt count number s t low h k l = elim (less_or_same ms nt (omega arith)) [
  | inl m ↦
      lex_lt-extend (hex_encode ms 12) (hex_encode nt 12) (base62_encode count 3 ++ s)
        (base62_encode number 3 ++ t) (length-hex_encode ms 12 ∙ sym (length-hex_encode nt 12))
        (hex_encode-ascends 12 ms nt m low)
  | inr e ↦
      rw (sym e) (
        lex_lt-prefix (hex_encode ms 12) (base62_encode count 3 ++ s) (base62_encode number 3 ++ t))
      ∙ lex_lt-extend (base62_encode count 3) (base62_encode number 3) s t
          (length-base62_encode count 3 ∙ sym (length-base62_encode number 3))
          (base62_encode-ascends 3 count number (omega arith) (omega arith))
]

-- The texts behind the prefix sort as the clocks' numbers.
id_text-ascends :
    (id_prefix : Bytes) (c d : IdClock) (r q : List ℕ)
    → c.seq ≤ 4095
    → d.seq ≤ 4095
    → d.last_ms < 2 ^ 48
    → clock_value c < clock_value d
    → lex_lt (id_text id_prefix c r) (id_text id_prefix d q) ≡ true
unfolding id_text
id_text-ascends id_prefix c d r q hc hd low l =
    let text = λ (x : IdClock) (ms : ℕ) (b : List ℕ).
      id_prefix ++ (95 ∷ numbered ms x.seq (random_chars b)) in
    ap₂ (λ a b. lex_lt (text c a r) (text d b q)) (mod_small c.last_ms (omega arith))
      (mod_small d.last_ms low)
    ∙ lex_lt-prefix id_prefix (95 ∷ numbered c.last_ms c.seq (random_chars r))
        (95 ∷ numbered d.last_ms d.seq (random_chars q))
    ∙ lex_lt-prefix (95 ∷ []) (numbered c.last_ms c.seq (random_chars r))
        (numbered d.last_ms d.seq (random_chars q))
    ∙ numbered-ascends c.last_ms d.last_ms c.seq d.seq (random_chars r) (random_chars q) low hc hd l

-- Of two identifiers with the same prefix from one clock, with any number of others between them, the one that was asked for
-- first sorts first, whatever the clock's readings and the random bytes, while the time fits 48 bits.
pub later_ids_sort_later :
    (id_prefix : Bytes) (now : ℕ) (nows : List ℕ) (c : IdClock) (r q : List ℕ)
    → c.seq ≤ 0xfff
    → (ticks (now ∷ nows) c).last_ms < 2 ^ 48
    → lex_lt (id_text id_prefix c r) (id_text id_prefix (ticks (now ∷ nows) c) q) ≡ true
unfolding ticks
later_ids_sort_later id_prefix now nows c r q h low =
    let d = tick now c in
    let s = tick_later now c h in
    let t = ticks_later nows d (tick_seq now c) in
    id_text-ascends id_prefix c (ticks nows d) r q h (ticks_seq nows d (tick_seq now c)) low
      (omega arith)
