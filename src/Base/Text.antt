-- ===== src/Base/Text.antt =====
-- Go strings as lists of bytes, and the functions of `strings` and `bytes` that the code uses, on
-- ASCII: white space is the six ASCII characters, and `to_lower` changes A to Z alone.
use Prim.Native.Char.{code}
use Prim.Native.Nat.{ℕ, ◌+◌}
use Prim.Native.String.{String}
use mathlib.Core.Path.{◌≡◌, refl}
use mathlib.Core.Logic.{◌↔◌}
use mathlib.Core.Bool.{Bool, true, false, ◌&&◌, ◌||◌}
use mathlib.Core.List.{List, [], ◌∷◌, ◌++◌, map, reverse}
use native.Mathlib.Omega.{arith}
use opencode_rush_free.Base.Tests.{leb, nat_eqb, if◌then◌else◌, Eq}
use opencode_rush_free.Base.Lists.{length, drop}

abbrev pub Bytes : Type 0
Bytes = List ℕ

-- The code points of a text, which are its bytes if it is ASCII.
abbrev pub codes : String → Bytes
codes String.[] = []
codes (String.◌∷◌ c s) = code c ∷ codes s

unfoldable pub bytes_eqb : Bytes → Bytes → Bool
bytes_eqb [] [] = true
bytes_eqb [] (y ∷ ys) = false
bytes_eqb (x ∷ xs) [] = false
bytes_eqb (x ∷ xs) (y ∷ ys) = nat_eqb x y && bytes_eqb xs ys

bytes_eqb_sound : (xs ys : Bytes) → bytes_eqb xs ys ≡ true → xs ≡ ys
unfolding bytes_eqb
bytes_eqb_sound [] [] h = refl
bytes_eqb_sound [] (y ∷ ys) h = cc
bytes_eqb_sound (x ∷ xs) [] h = cc
bytes_eqb_sound (x ∷ xs) (y ∷ ys) h = ground (arith, bytes_eqb_sound xs ys)

bytes_eqb_self : (xs : Bytes) → bytes_eqb xs xs ≡ true
unfolding bytes_eqb
bytes_eqb_self [] = refl
bytes_eqb_self (x ∷ xs) = ground (arith, bytes_eqb_self xs)

pub bytes_eqb_iff : (xs ys : Bytes) → (bytes_eqb xs ys ≡ true) ↔ (xs ≡ ys)
bytes_eqb_iff xs ys = (bytes_eqb_sound xs ys, λ e. rw e (bytes_eqb_self ys))

instance abbrev pub bytes_eq : Eq Bytes
bytes_eq = record { eqb = bytes_eqb; eqb_iff = bytes_eqb_iff }

unfoldable pub has_prefix : Bytes → Bytes → Bool
has_prefix s [] = true
has_prefix [] (p ∷ ps) = false
has_prefix (c ∷ s) (p ∷ ps) = nat_eqb c p && has_prefix s ps

-- `strings.Contains`.
unfoldable pub contains : Bytes → Bytes → Bool
contains [] p = has_prefix [] p
contains (c ∷ s) p = has_prefix (c ∷ s) p || contains s p

abbrev pub is_space : ℕ → Bool
is_space c = nat_eqb c 32 || (leb 9 c && leb c 13)

unfoldable pub trim_left : Bytes → Bytes
trim_left [] = []
trim_left (c ∷ s) = let rest = trim_left s in if is_space c then rest else c ∷ s

unfoldable pub trim_space : Bytes → Bytes
unfolding trim_left
trim_space s = reverse (trim_left (reverse (trim_left s)))

unfoldable pub to_lower : Bytes → Bytes
to_lower = map (λ c. if leb 65 c && leb c 90 then c + 32 else c)

-- `bytes.TrimPrefix`.
unfoldable pub trim_prefix : Bytes → Bytes → Bytes
unfolding has_prefix
trim_prefix s p = if has_prefix s p then drop (length p) s else s

pub has_prefix_self : (s : Bytes) → has_prefix s s ≡ true
unfolding has_prefix
has_prefix_self [] = refl
has_prefix_self (c ∷ s) = ground (arith, has_prefix_self s)

pub has_prefix-append : (s t : Bytes) → has_prefix (s ++ t) s ≡ true
unfolding has_prefix
has_prefix-append [] t = refl
has_prefix-append (c ∷ s) t = ground (arith, has_prefix-append s t)
