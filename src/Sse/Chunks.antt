-- ===== src/Sse/Chunks.antt =====
-- The detector sees lines, however they are cut into chunks, cmd/server/main.go.
use opencode_rush_free.Base.{
  Bool, Bool-cases, Bytes, List, Option, [], any, ap, append-nil, append_assoc, arith, bytes_eq,
  bytes_eqb, eq_of_==, false, has_prefix, if_cases, if◌then◌else◌, inl, inr, length, length-append,
  ltb, nat_eq, none, refl, some, string_eq, subst, suc, sym, trim_left, trim_space, true, zero, ℕ,
  ◌++◌, ◌<◌, ◌==◌, ◌||◌, ◌∙◌, ◌∷◌, ◌≡◌, ◌≤◌,
}
use opencode_rush_free.Json.{Fields}
use opencode_rush_free.Sse.{
  newline, Detector, observe_line, add_to_line, cut_line, scan, max_line, after_scan, observe,
  flush, new_detector,
}
use opencode_rush_free.Sse.Capture.{concat_chunks}

-- The lines of a text, the last one included, behind a line that has begun.
abbrev pub lines_from : Bytes → Bytes → List Bytes
lines_from line [] = line ∷ []
lines_from line (c ∷ s) =
    let cut = lines_from [] s in
    let more = lines_from (line ++ (c ∷ [])) s in if c == newline then line ∷ cut else more

abbrev pub lines_of : Bytes → List Bytes
lines_of s = lines_from [] s

line_cut :
    (c : ℕ) (pre s : Bytes) → (c == newline) ≡ true → lines_from pre (c ∷ s) ≡ pre ∷ lines_of s
line_cut c pre s e = ap (λ b. if b then pre ∷ lines_of s else lines_from (pre ++ (c ∷ [])) s) e

line_more :
    (c : ℕ) (pre s : Bytes)
    → (c == newline) ≡ false
    → lines_from pre (c ∷ s) ≡ lines_from (pre ++ (c ∷ [])) s
line_more c pre s e = ap (λ b. if b then pre ∷ lines_of s else lines_from (pre ++ (c ∷ [])) s) e

-- What a cut says: the line and the lines of the rest, or that there is but one line.
abbrev CutsLines : Bytes → Bytes → Option (Bytes × Bytes) → Type 0
CutsLines pre s none = lines_from pre s ≡ (pre ++ s) ∷ []
CutsLines pre s (some (line, rest)) =
    ((t : Bytes) → lines_from pre (s ++ t) ≡ (pre ++ line) ∷ lines_of (rest ++ t))
    × (suc (length rest) ≤ length s)

add_to_line-CutsLines :
    (c : ℕ) (pre s : Bytes) (o : Option (Bytes × Bytes))
    → (c == newline) ≡ false
    → CutsLines (pre ++ (c ∷ [])) s o
    → CutsLines pre (c ∷ s) (add_to_line c o)
add_to_line-CutsLines c pre s none e h =
    line_more c pre s e ∙ h ∙ ap (λ x. x ∷ []) (append_assoc pre (c ∷ []) s)
add_to_line-CutsLines c pre s (some (line, rest)) e h = (
  (λ t.
      line_more c pre (s ++ t) e
      ∙ h.0 t
      ∙ ap (λ x. x ∷ lines_of (rest ++ t)) (append_assoc pre (c ∷ []) line)),
  (let l = h.1 in omega arith),
)

cut_line-CutsLines : (pre s : Bytes) → CutsLines pre s (cut_line s)
unfolding cut_line
cut_line-CutsLines pre [] = ap (λ x. x ∷ []) (sym (append-nil pre))
cut_line-CutsLines pre (c ∷ s) =
    if_cases (CutsLines pre (c ∷ s)) (c == newline)
      (λ e. (
        (λ t. line_cut c pre (s ++ t) e ∙ ap (λ x. x ∷ lines_of (s ++ t)) (sym (append-nil pre))),
        omega arith,
      ))
      (λ e. add_to_line-CutsLines c pre s (cut_line s) e (cut_line-CutsLines (pre ++ (c ∷ [])) s))

-- What a scan leaves: no more than it had, one line, and the answer for the lines of whatever follows.
abbrev ScansLines : (Bytes → Bool) → Bytes → Bool × Bytes → Type 0
ScansLines f s (true, rest) = (t : Bytes) → any f (lines_of (s ++ t)) ≡ true
ScansLines f s (false, rest) =
    ((t : Bytes) → any f (lines_of (s ++ t)) ≡ any f (lines_of (rest ++ t)))
    × (lines_of rest ≡ rest ∷ [])
    × (length rest ≤ length s)

later-ScansLines :
    (f : Bytes → Bool) (s line rest : Bytes) (r : Bool × Bytes)
    → CutsLines [] s (some (line, rest))
    → f line ≡ false
    → ScansLines f rest r
    → ScansLines f s r
later-ScansLines f s line rest (true, last) c e h =
    λ t. ap (any f) (c.0 t) ∙ ap (λ b. b || any f (lines_of (rest ++ t))) e ∙ h t
later-ScansLines f s line rest (false, last) c e h = (
  (λ t. ap (any f) (c.0 t) ∙ ap (λ b. b || any f (lines_of (rest ++ t))) e ∙ h.0 t),
  h.1,
  (let a = c.1 in let b = h.2 in omega arith),
)

abbrev scan_cut : (Bytes → Bool) → ℕ → Bytes → Option (Bytes × Bytes) → Bool × Bytes
scan_cut f n buffer o = elim o [
  | none ↦ (false, buffer)
  | some (line, rest) ↦ let later = scan f n rest in if f line then (true, rest) else later
]

cut-ScansLines :
    (f : Bytes → Bool) (n : ℕ) (s : Bytes) (o : Option (Bytes × Bytes))
    → ((rest : Bytes) → length rest < n → ScansLines f rest (scan f n rest))
    → length s < suc n
    → CutsLines [] s o
    → ScansLines f s (scan_cut f n s o)
cut-ScansLines f n s none k h c = ((λ t. refl), c, omega arith)
cut-ScansLines f n s (some (line, rest)) k h c =
    if_cases (ScansLines f s) (f line)
      (λ e t. ap (any f) (c.0 t) ∙ ap (λ b. b || any f (lines_of (rest ++ t))) e)
      (λ e.
        later-ScansLines f s line rest (scan f n rest) c e (k rest (let l = c.1 in omega arith)))

scan-ScansLines :
    (f : Bytes → Bool) (n : ℕ) (s : Bytes) → length s < n → ScansLines f s (scan f n s)
unfolding scan
scan-ScansLines f zero s h = absurd (omega arith)
scan-ScansLines f (suc n) s h =
    cut-ScansLines f n s (cut_line s) (λ rest. scan-ScansLines f n rest) h (cut_line-CutsLines [] s)

-- What the detector knows of the bytes that it has seen: once it has found content, there is a line with
-- content whatever follows; and before, the buffer is the last line and stands for all of them.
abbrev Knows : (Bytes → Bool) → Bytes → Detector → Type 0
Knows f seen d = ScansLines f seen (d.found, d.buffer)

after_scan-Knows :
    (f : Bytes → Bool) (seen : Bytes) (r : Bool × Bytes)
    → length seen ≤ max_line
    → ScansLines f seen r
    → Knows f seen (after_scan r)
after_scan-Knows f seen (true, rest) l h = h
after_scan-Knows f seen (false, rest) l h =
    if_cases (λ b. ScansLines f seen (false, b)) (ltb max_line (length rest))
      (λ e. absurd (let a = h.2 in ground arith)) (λ _. h)

more-ScansLines :
    (f : Bytes → Bool) (seen buffer chunk : Bytes) (r : Bool × Bytes)
    → ScansLines f seen (false, buffer)
    → ScansLines f (buffer ++ chunk) r
    → ScansLines f (seen ++ chunk) r
more-ScansLines f seen buffer chunk (true, rest) h k = λ t.
    ap (λ s. any f (lines_of s)) (append_assoc seen chunk t)
    ∙ h.0 (chunk ++ t)
    ∙ ap (λ s. any f (lines_of s)) (sym (append_assoc buffer chunk t))
    ∙ k t
more-ScansLines f seen buffer chunk (false, rest) h k = (
  (λ t.
      ap (λ s. any f (lines_of s)) (append_assoc seen chunk t)
      ∙ h.0 (chunk ++ t)
      ∙ ap (λ s. any f (lines_of s)) (sym (append_assoc buffer chunk t))
      ∙ k.0 t),
  k.1,
  (let a = k.2 in
      let b = h.2 in
      let c = length-append seen chunk in let d = length-append buffer chunk in omega arith),
)

observe-Knows :
    (f : Bytes → Bool) (seen chunk : Bytes) (d : Detector)
    → length (seen ++ chunk) ≤ max_line
    → Knows f seen d
    → Knows f (seen ++ chunk) (observe f chunk d)
unfolding observe
observe-Knows f seen chunk d l h =
    if_cases (Knows f (seen ++ chunk)) d.found
      (λ e.
        let k = subst (λ b. ScansLines f seen (b, d.buffer)) e h in
        subst (λ b. ScansLines f (seen ++ chunk) (b, d.buffer)) (sym e)
          (λ t. ap (λ s. any f (lines_of s)) (append_assoc seen chunk t) ∙ k (chunk ++ t)))
      (λ e.
        let k = subst (λ b. ScansLines f seen (b, d.buffer)) e h in
        let buffer = d.buffer ++ chunk in
        let r = scan f (suc (length buffer)) buffer in
        after_scan-Knows f (seen ++ chunk) r l (
          more-ScansLines f seen d.buffer chunk r k
            (scan-ScansLines f (suc (length buffer)) buffer (omega arith))))

-- Chunk after chunk, and the flush at the end.
abbrev pub observe_all : (Bytes → Bool) → List Bytes → Detector → Detector
observe_all f [] d = d
observe_all f (chunk ∷ chunks) d = observe_all f chunks (observe f chunk d)

observe_all-Knows :
    (f : Bytes → Bool) (chunks : List Bytes) (seen : Bytes) (d : Detector)
    → length (seen ++ concat_chunks chunks) ≤ max_line
    → Knows f seen d
    → Knows f (seen ++ concat_chunks chunks) (observe_all f chunks d)
observe_all-Knows f [] seen d l h = subst (λ s. Knows f s d) (sym (append-nil seen)) h
observe_all-Knows f (chunk ∷ chunks) seen d l h =
    let a = append_assoc seen chunk (concat_chunks chunks) in
    let l' = subst (λ s. length s ≤ max_line) (sym a) l in
    subst (λ s. Knows f s (observe_all f chunks (observe f chunk d))) a
      (observe_all-Knows f chunks (seen ++ chunk) (observe f chunk d) l' (
        observe-Knows f seen chunk d
          (let b = length-append (seen ++ chunk) (concat_chunks chunks) in omega arith) h))

flush-any :
    (f : Bytes → Bool) (seen : Bytes) (d : Detector)
    → f [] ≡ false
    → Knows f seen d
    → (flush f d).found ≡ any f (lines_of seen)
unfolding flush
flush-any f seen d z h = elim (Bool-cases d.found) [
  | inl e ↦
      let k = subst (λ b. ScansLines f seen (b, d.buffer)) e h in
      if_cases (λ (x : Detector). x.found ≡ any f (lines_of seen))
        (d.found || bytes_eqb d.buffer [])
        (λ _. e ∙ sym (ap (λ s. any f (lines_of s)) (sym (append-nil seen)) ∙ k []))
        (λ t. absurd (ground arith))
  | inr e ↦
      let k = subst (λ b. ScansLines f seen (b, d.buffer)) e h in
      let all : any f (lines_of seen) ≡ f d.buffer =
        ap (λ s. any f (lines_of s)) (sym (append-nil seen))
        ∙ k.0 []
        ∙ ap (λ s. any f (lines_of s)) (append-nil d.buffer)
        ∙ ap (any f) k.1
        ∙ or_false (f d.buffer) in
      if_cases (λ (x : Detector). x.found ≡ any f (lines_of seen))
        (d.found || bytes_eqb d.buffer [])
        (λ t. e ∙ sym (all ∙ ap f (eq_of_== d.buffer [] (ground arith)) ∙ z)) (λ _. sym all)
]
  where
    or_false : (b : Bool) → (b || false) ≡ b
    or_false true = refl
    or_false false = refl

observe_line-empty : (decode : Bytes → Option (List Fields)) → observe_line decode [] ≡ false
unfolding observe_line trim_space trim_left has_prefix
observe_line-empty decode = refl

-- However a stream of up to a mebibyte is cut into chunks, the detector that has seen them all and is flushed
-- has found content exactly if some line of the stream has it.
pub observe_all_lem :
    (decode : Bytes → Option (List Fields)) (chunks : List Bytes)
    → length (concat_chunks chunks) ≤ max_line
    → (flush (observe_line decode) (observe_all (observe_line decode) chunks new_detector)).found
      ≡ any (observe_line decode) (lines_of (concat_chunks chunks))
observe_all_lem decode chunks l =
    let f = observe_line decode in
    flush-any f (concat_chunks chunks) (observe_all f chunks new_detector)
      (observe_line-empty decode)
      (observe_all-Knows f chunks [] new_detector l ((λ t. refl), refl, omega arith))
