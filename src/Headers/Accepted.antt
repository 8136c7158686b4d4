-- ===== src/Headers/Accepted.antt =====
-- What custom headers that are accepted look like, cmd/server/main.go.
use opencode_rush_free.Base.{
  All, Bool, Bool-cases, Bytes, List, Option, Option-cases, UniqueKeys, UniqueKeys-insert, [], any,
  ap, append-nil, append_assoc, arith, bytes_eq, false, if_cases, if◌then◌else◌, inl, inr, insert,
  length, lookup, ltb, map, map-append, nat_eq, none, not, refl, some, string_eq, subst, sym,
  to_lower, trim_space, true, ◌++◌, ◌==◌, ◌∙◌, ◌∷◌, ◌≡◌, ◌≤◌,
}
use opencode_rush_free.Headers.{
  HeaderResult, accepted, too_many, invalid_name, invalid_value, reserved, duplicate,
  valid_header_name, valid_header_value, protected_upstream_headers, add_header, add_headers,
  validate_custom_headers,
}

abbrev OnAccepted : (List (Bytes × Bytes) → Type 0) → HeaderResult → Type 0
OnAccepted P (accepted m) = P m
OnAccepted P _ = Unit

-- A header is the canonical form of a valid name that is not protected, with a valid value.
pub record HeaderInv (canonical : Bytes → Bytes) (e : Bytes × Bytes) : Type 0 where
  pub name : Bytes
  pub is_canonical : e.0 ≡ canonical name
  pub name_valid : valid_header_name name ≡ true
  pub not_protected : any (λ p. p == to_lower name) protected_upstream_headers ≡ false
  pub value_valid : valid_header_value e.1 ≡ true

-- What is stored of a header: its name in canonical form and its value, both without blanks around them.
abbrev pub stored_header : (Bytes → Bytes) → Bytes × Bytes → Bytes × Bytes
stored_header canonical e = (canonical (trim_space e.0), trim_space e.1)

-- The headers are what is stored of those given, in their order, they are distinct, and each of them is as
-- it should be.
pub record HeadersInv (canonical : Bytes → Bytes) (given m : List (Bytes × Bytes)) : Type 0 where
  pub kept : m ≡ map (stored_header canonical) given
  pub distinct : UniqueKeys m
  pub each_valid : All (HeaderInv canonical) m

insert_new :
    (k v : Bytes) (m : List (Bytes × Bytes)) → lookup k m ≡ none → insert k v m ≡ m ++ ((k, v) ∷ [])
unfolding lookup insert
insert_new k v [] h = refl
insert_new k v (e ∷ m) h = elim (Bool-cases (e.0 == k)) [
  | inl t ↦ absurd (taken (e.0 == k) e.1 _ t h)
  | inr f ↦
      let r = insert_new k v m (if_false (e.0 == k) e.1 _ f h) in
      if_cases (λ (xs : List (Bytes × Bytes)). xs ≡ e ∷ (m ++ ((k, v) ∷ []))) (e.0 == k)
        (λ t. absurd (ground arith)) (λ _. ap (λ xs. e ∷ xs) r)
]
  where
    taken :
        (b : Bool) (x : Bytes) (o : Option Bytes) → b ≡ true → (if b then some x else o) ≡ none → ⊥
    taken true x o t h = cc
    taken false x o t h = cc

    if_false :
        (b : Bool) (x : Bytes) (o : Option Bytes)
        → b ≡ false
        → (if b then some x else o) ≡ none
        → o ≡ none
    if_false true x o t h = cc
    if_false false x o t h = h

insert-All :
    (P : Bytes × Bytes → Type 0) (k v : Bytes) (m : List (Bytes × Bytes))
    → P (k, v)
    → All P m
    → All P (insert k v m)
unfolding insert
insert-All P k v [] p h = (p, tt)
insert-All P k v (e ∷ m) p h =
    if_cases (All P) (e.0 == k) (λ _. (p, h.1)) (λ _. (h.0, insert-All P k v m p h.1))

add_header-HeadersInv :
    (canonical : Bytes → Bytes) (raw_name raw_value : Bytes) (given m : List (Bytes × Bytes))
    → HeadersInv canonical given m
    → OnAccepted
        (HeadersInv canonical (given ++ ((raw_name, raw_value) ∷ [])))
        (add_header canonical raw_name raw_value m)
unfolding add_header
add_header-HeadersInv canonical raw_name raw_value given m h =
    let name = trim_space raw_name in
    let value = trim_space raw_value in
    let stored = stored_header canonical in
    let P = OnAccepted (HeadersInv canonical (given ++ ((raw_name, raw_value) ∷ []))) in
    if_cases P (not (valid_header_name name)) (λ _. tt)
      (λ a.
        if_cases P (not (valid_header_value value)) (λ _. tt)
          (λ b.
            if_cases P (any (λ p. p == to_lower name) protected_upstream_headers) (λ _. tt)
              (λ c. elim (Option-cases (lookup (canonical name) m)) [
                | inr (x, e) ↦ rw e tt
                | inl e ↦ rw e (record {
                  kept =
                      insert_new (canonical name) value m e
                      ∙ ap (λ xs. xs ++ ((canonical name, value) ∷ [])) h.kept
                      ∙ sym (map-append stored given ((raw_name, raw_value) ∷ []));
                  distinct = UniqueKeys-insert (canonical name) value m h.distinct;
                  each_valid =
                      insert-All (HeaderInv canonical) (canonical name) value m
                        (record {
                          name = name;
                          is_canonical = refl;
                          name_valid = ground arith;
                          not_protected = c;
                          value_valid = ground arith;
                        })
                        h.each_valid;
                })
              ])))

add_headers-HeadersInv :
    (canonical : Bytes → Bytes) (headers given m : List (Bytes × Bytes))
    → HeadersInv canonical given m
    → OnAccepted (HeadersInv canonical (given ++ headers)) (add_headers canonical headers m)
unfolding add_headers
add_headers-HeadersInv canonical [] given m h =
    subst (λ xs. HeadersInv canonical xs m) (sym (append-nil given)) h
add_headers-HeadersInv canonical ((name, value) ∷ rest) given m h =
    elim (add_header canonical name value m)
        as (λ r.
          OnAccepted (HeadersInv canonical (given ++ ((name, value) ∷ []))) r
          → OnAccepted (HeadersInv canonical (given ++ ((name, value) ∷ rest)))
              (elim r as (λ x. HeaderResult) [
                | accepted m ↦ add_headers canonical rest m
                | too_many ↦ too_many
                | invalid_name n ↦ invalid_name n
                | invalid_value n ↦ invalid_value n
                | reserved n ↦ reserved n
                | duplicate n ↦ duplicate n
              ])) [
                | accepted k ↦ λ i.
                    subst (λ x. OnAccepted (HeadersInv canonical x) (add_headers canonical rest k))
                      (append_assoc given ((name, value) ∷ []) rest)
                      (add_headers-HeadersInv canonical rest (given ++ ((name, value) ∷ [])) k i)
                | too_many ↦ λ _. tt
                | invalid_name n ↦ λ _. tt
                | invalid_value n ↦ λ _. tt
                | reserved n ↦ λ _. tt
                | duplicate n ↦ λ _. tt
              ]
      (add_header-HeadersInv canonical name value given m h)

-- Custom headers that are accepted are all kept in their order, each with its own value, without blanks around it,
-- under the canonical form of its own name; every name is valid and not one that the gateway manages itself, every value
-- is valid, no name is there twice, and there are at most 32 of them.
pub validate_custom_headers_lem :
    (canonical : Bytes → Bytes) (headers m : List (Bytes × Bytes))
    → validate_custom_headers canonical headers ≡ accepted m
    → HeadersInv canonical headers m × (length headers ≤ 32)
unfolding validate_custom_headers
validate_custom_headers_lem canonical headers m h =
    subst (OnAccepted (λ m. HeadersInv canonical headers m × (length headers ≤ 32))) h (
      if_cases (OnAccepted (λ m. HeadersInv canonical headers m × (length headers ≤ 32)))
        (ltb 32 (length headers)) (λ _. tt)
        (λ f. bounded (add_headers canonical headers []) (ground arith) (
          add_headers-HeadersInv canonical headers [] []
            (record { kept = refl; distinct = tt; each_valid = tt }))))
  where
    bounded :
        (r : HeaderResult)
        → length headers ≤ 32
        → OnAccepted (HeadersInv canonical headers) r
        → OnAccepted (λ m. HeadersInv canonical headers m × (length headers ≤ 32)) r
    bounded (accepted m) b i = (i, b)
    bounded too_many b i = tt
    bounded (invalid_name n) b i = tt
    bounded (invalid_value n) b i = tt
    bounded (reserved n) b i = tt
    bounded (duplicate n) b i = tt
