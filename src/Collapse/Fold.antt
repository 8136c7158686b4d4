-- ===== src/Collapse/Fold.antt =====
-- What the accumulator holds after any events, cmd/server/agent_shape.go: the fields of the document
-- in terms of the fragments of the stream.
use opencode_rush_free.Base.{
  Bool, Bool-cases, Bytes, List, Option, [], ap, append-nil, append_assoc, arith, false,
  if◌then◌else◌, inl, inr, map, none, refl, some, sym, true, ℕ, ◌++◌, ◌∙◌, ◌∷◌, ◌≡◌,
}
use opencode_rush_free.Collapse.{
  ChatStreamDelta, ChatStreamChoice, StreamEvent, Accumulator, text_of, is_blank, delta_reasoning,
  delta_seen, mark_first_token, consume_delta, sets_finish, consume_choices, consume, is_zero,
  empty_accumulator, usage_of,
}

-- An event with the time at which it is consumed.
abbrev pub TimedEvent : Type 0
TimedEvent = ℕ × StreamEvent

unfoldable pub consume_all : List TimedEvent → Accumulator → Accumulator
consume_all [] acc = acc
consume_all ((t, e) ∷ rest) acc = consume_all rest (consume t e acc)

-- Every delta of the stream, in order, with the time at which it is consumed.
abbrev pub timed : ℕ → List ChatStreamChoice → List (ℕ × ChatStreamDelta)
timed t [] = []
timed t (c ∷ rest) = (t, c.delta) ∷ timed t rest

abbrev pub deltas : List TimedEvent → List (ℕ × ChatStreamDelta)
deltas [] = []
deltas ((t, e) ∷ rest) = timed t e.choices ++ deltas rest

abbrev pub concat_map {ℓ} : {A : Type ℓ} → (A → Bytes) → List A → Bytes
concat_map f [] = []
concat_map f (x ∷ xs) = f x ++ concat_map f xs

-- The first text that is not empty.
abbrev pub first_text : List Bytes → Bytes
first_text [] = []
first_text (s ∷ rest) = let later = first_text rest in if is_blank s then later else s

-- The time of the first delta with a content, a reasoning or a tool call.
abbrev pub first_seen : List (ℕ × ChatStreamDelta) → Option ℕ
first_seen [] = none
first_seen ((t, d) ∷ rest) = let later = first_seen rest in if delta_seen d then some t else later

-- The last finish reason that counts.
abbrev pub last_finish : Bytes → List ChatStreamChoice → Bytes
last_finish old [] = old
last_finish old (c ∷ rest) =
    last_finish (if sets_finish c.finish_reason then text_of c.finish_reason else old) rest

abbrev pub all_choices : List TimedEvent → List ChatStreamChoice
all_choices [] = []
all_choices ((t, e) ∷ rest) = e.choices ++ all_choices rest

concat_map-append {ℓ} :
    {A : Type ℓ} (f : A → Bytes) (xs ys : List A)
    → concat_map f (xs ++ ys) ≡ concat_map f xs ++ concat_map f ys
concat_map-append f [] ys = refl
concat_map-append f (x ∷ xs) ys =
    ap (λ s. f x ++ s) (concat_map-append f xs ys)
    ∙ sym (append_assoc (f x) (concat_map f xs) (concat_map f ys))

abbrev pub content_of : ℕ × ChatStreamDelta → Bytes
content_of (t, d) = text_of d.content

abbrev pub reasoning_of : ℕ × ChatStreamDelta → Bytes
reasoning_of (t, d) = delta_reasoning d

abbrev after_choice : ℕ → ChatStreamChoice → Accumulator → Accumulator
after_choice t c acc = consume_delta t c.delta (record acc {
  finish = if sets_finish c.finish_reason then text_of c.finish_reason else acc.finish;
})

abbrev pub or_first : Option ℕ → Option ℕ → Option ℕ
or_first none later = later
or_first (some t) later = some t

first_seen-append :
    (xs ys : List (ℕ × ChatStreamDelta))
    → first_seen (xs ++ ys) ≡ or_first (first_seen xs) (first_seen ys)
first_seen-append [] ys = refl
first_seen-append ((t, d) ∷ xs) ys = elim (Bool-cases (delta_seen d)) [
  | inl e ↦ rw e
  | inr e ↦ rw e (first_seen-append xs ys)
]

or_first_assoc : (a b c : Option ℕ) → or_first (or_first a b) c ≡ or_first a (or_first b c)
or_first_assoc none b c = refl
or_first_assoc (some t) b c = refl

marked :
    (t : ℕ) (seen : Bool) (old later : Option ℕ)
    → or_first (if seen then mark_first_token t old else old) later
      ≡ or_first old (if seen then some t else later)
marked t true none later = refl
marked t true (some s) later = refl
marked t false old later = refl

last_finish-append :
    (old : Bytes) (xs ys : List ChatStreamChoice)
    → last_finish old (xs ++ ys) ≡ last_finish (last_finish old xs) ys
last_finish-append old [] ys = refl
last_finish-append old (c ∷ xs) ys =
    last_finish-append (if sets_finish c.finish_reason then text_of c.finish_reason else old) xs ys

-- What a run over choices does to the fields that it extends.
record Folded (ds : List (ℕ × ChatStreamDelta)) (cs : List ChatStreamChoice)
    (acc after : Accumulator) : Type 0 where
  content_is : after.content ≡ acc.content ++ concat_map content_of ds
  reasoning_is : after.reasoning ≡ acc.reasoning ++ concat_map reasoning_of ds
  first_token_is : after.first_token ≡ or_first acc.first_token (first_seen ds)
  finish_is : after.finish ≡ last_finish acc.finish cs

or_first-none : (a : Option ℕ) → a ≡ or_first a none
or_first-none none = refl
or_first-none (some t) = refl

choices-Folded :
    (t : ℕ) (cs : List ChatStreamChoice) (acc : Accumulator)
    → Folded (timed t cs) cs acc (consume_choices t cs acc)
unfolding consume_choices consume_delta
choices-Folded t [] acc = record {
  content_is = sym (append-nil acc.content);
  reasoning_is = sym (append-nil acc.reasoning);
  first_token_is = or_first-none acc.first_token;
  finish_is = refl;
}
choices-Folded t (c ∷ cs) acc =
    let f = choices-Folded t cs (after_choice t c acc) in
    record {
      content_is = f.content_is ∙ append_assoc acc.content (text_of c.delta.content) _;
      reasoning_is = f.reasoning_is ∙ append_assoc acc.reasoning (delta_reasoning c.delta) _;
      first_token_is =
          f.first_token_is
          ∙ marked t (delta_seen c.delta) acc.first_token (first_seen (timed t cs));
      finish_is = f.finish_is;
    }

-- The fields that choices leave alone.
choices_keep :
    (t : ℕ) (cs : List ChatStreamChoice) (acc : Accumulator)
    → let after = consume_choices t cs acc in
      (after.model ≡ acc.model)
      × (after.id ≡ acc.id)
      × (after.created ≡ acc.created)
      × (after.usage ≡ acc.usage)
unfolding consume_choices consume_delta
choices_keep t [] acc = (refl, refl, refl, refl)
choices_keep t (c ∷ cs) acc = choices_keep t cs (after_choice t c acc)

-- The accumulator when `consume` comes to the choices of an event.
abbrev headed : StreamEvent → Accumulator → Accumulator
headed e acc = record acc {
  model = if is_blank acc.model then e.model else acc.model;
  created = if is_zero acc.created then e.created else acc.created;
  id = if is_blank acc.id then text_of e.id else acc.id;
  usage = usage_of e.usage acc.usage;
}

events-Folded :
    (es : List TimedEvent) (acc : Accumulator)
    → Folded (deltas es) (all_choices es) acc (consume_all es acc)
unfolding consume_all consume
events-Folded [] acc = record {
  content_is = sym (append-nil acc.content);
  reasoning_is = sym (append-nil acc.reasoning);
  first_token_is = or_first-none acc.first_token;
  finish_is = refl;
}
events-Folded ((t, e) ∷ es) acc =
    let f = events-Folded es (consume t e acc) in
    let ds = timed t e.choices in
    let g = choices-Folded t e.choices (headed e acc) in
    record {
      content_is =
          f.content_is
          ∙ ap (λ s. s ++ concat_map content_of (deltas es)) g.content_is
          ∙ append_assoc acc.content (concat_map content_of ds) (concat_map content_of (deltas es))
          ∙ ap (λ s. acc.content ++ s) (sym (concat_map-append content_of ds (deltas es)));
      reasoning_is =
          f.reasoning_is
          ∙ ap (λ s. s ++ concat_map reasoning_of (deltas es)) g.reasoning_is
          ∙ append_assoc acc.reasoning (concat_map reasoning_of ds)
              (concat_map reasoning_of (deltas es))
          ∙ ap (λ s. acc.reasoning ++ s) (sym (concat_map-append reasoning_of ds (deltas es)));
      first_token_is =
          f.first_token_is
          ∙ ap (λ o. or_first o (first_seen (deltas es))) g.first_token_is
          ∙ or_first_assoc acc.first_token (first_seen ds) (first_seen (deltas es))
          ∙ ap (or_first acc.first_token) (sym (first_seen-append ds (deltas es)));
      finish_is =
          f.finish_is
          ∙ ap (λ old. last_finish old (all_choices es)) g.finish_is
          ∙ sym (last_finish-append acc.finish e.choices (all_choices es));
    }

abbrev pub models : List TimedEvent → List Bytes
models = map (λ (te : TimedEvent). te.1.model)

abbrev pub ids : List TimedEvent → List Bytes
ids = map (λ (te : TimedEvent). text_of te.1.id)

first_text_step :
    (old s : Bytes) (rest : List Bytes)
    → first_text ((if is_blank old then s else old) ∷ rest) ≡ first_text (old ∷ s ∷ rest)
first_text_step old s rest = ground arith

heads :
    (es : List TimedEvent) (acc : Accumulator)
    → ((consume_all es acc).model ≡ first_text (acc.model ∷ models es))
      × ((consume_all es acc).id ≡ first_text (acc.id ∷ ids es))
unfolding consume_all consume
heads [] acc = (blank_self acc.model, blank_self acc.id)
  where
    blank_self : (s : Bytes) → s ≡ first_text (s ∷ [])
    blank_self [] = refl
    blank_self (c ∷ s) = refl
heads ((t, e) ∷ es) acc =
    let (m, i) = heads es (consume t e acc) in
    let k = choices_keep t e.choices (headed e acc) in
    (
      m ∙ ap (λ s. first_text (s ∷ models es)) k.0 ∙ first_text_step acc.model e.model (models es),
      i ∙ ap (λ s. first_text (s ∷ ids es)) k.1 ∙ first_text_step acc.id (text_of e.id) (ids es),
    )

-- After any events the content and the reasoning are all the fragments in order, the model and the id
-- are the first that are not empty, the finish reason is the last that counts, and the latency of the
-- first token is the time of the first delta that carries anything.
pub consume_all_lem :
    (es : List TimedEvent)
    → let acc = consume_all es empty_accumulator in
      (acc.content ≡ concat_map content_of (deltas es))
      × (acc.reasoning ≡ concat_map reasoning_of (deltas es))
      × (acc.model ≡ first_text (models es))
      × (acc.id ≡ first_text (ids es))
      × (acc.finish ≡ last_finish [] (all_choices es))
      × (acc.first_token ≡ first_seen (deltas es))
consume_all_lem es =
    let f = events-Folded es empty_accumulator in
    let (m, i) = heads es empty_accumulator in
    (f.content_is, f.reasoning_is, m, i, f.finish_is, f.first_token_is)
