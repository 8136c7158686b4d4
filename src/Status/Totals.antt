-- ===== src/Status/Totals.antt =====
-- The numbers of the summary, cmd/server/status.go.
use opencode_rush_free.Base.{
  Bool, Bytes, List, Option, [], any, ap, arith, bytes_eq, bytes_eqb, false, filter, if_cases, leb,
  length, ltb, nat_eq, none, refl, some, string_eq, ℕ, ◌&&◌, ◌+◌, ◌-◌, ◌/◌, ◌==◌, ◌||◌, ◌∷◌, ◌≡◌,
}
use opencode_rush_free.Status.{
  UsageRow, ModelEntry, china_hour_start, window_start, window_hours, hour, bucket_of, bit,
  add_public_status_sample, sample_at, update_entry, add_in_bucket, add_created, add_row, add_rows,
  add_totals, summarise,
}

-- A row counts if its time lies in the window and its model is among the entries.
abbrev pub has_model : Bytes → List ModelEntry → Bool
has_model id es = any (λ e. e.model_id == id) es

abbrev pub in_window : ℕ → Option ℕ → Bool
in_window now none = false
in_window now (some created) =
    let start = china_hour_start created in
    leb (window_start now) start && ltb ((start - window_start now) / hour) window_hours

abbrev pub counts : ℕ → List ModelEntry → UsageRow → Bool
counts now es r = has_model r.model es && in_window now r.created

abbrev pub count_rows : ℕ → List ModelEntry → List UsageRow → ℕ
count_rows now es rs = length (filter (counts now es) rs)

abbrev total : List ModelEntry → ℕ
total es = (add_totals es).requests

update_entry-models :
    (now created i : ℕ) (r : UsageRow) (j : Bytes) (es : List ModelEntry)
    → has_model j (update_entry r.model (sample_at now created r i) es) ≡ has_model j es
unfolding update_entry
update_entry-models now created i r j [] = refl
update_entry-models now created i r j (e ∷ es) =
    if_cases (λ xs. has_model j xs ≡ has_model j (e ∷ es)) (e.model_id == r.model) (λ _. refl)
      (λ _. ap (λ b. bytes_eqb e.model_id j || b) (update_entry-models now created i r j es))

update_entry-total :
    (now created i : ℕ) (r : UsageRow) (es : List ModelEntry)
    → total (update_entry r.model (sample_at now created r i) es)
      ≡ total es + bit (has_model r.model es)
unfolding update_entry add_public_status_sample
update_entry-total now created i r [] = omega arith
update_entry-total now created i r (e ∷ es) =
    let h = update_entry-total now created i r es in
    if_cases (λ xs. total xs ≡ total (e ∷ es) + bit (has_model r.model (e ∷ es)))
      (e.model_id == r.model)
      (λ t.
        let b : bit (has_model r.model (e ∷ es)) ≡ 1 =
          ap (λ c. bit (c || has_model r.model es)) t in
        omega arith)
      (λ t.
        let b : bit (has_model r.model (e ∷ es)) ≡ bit (has_model r.model es) =
          ap (λ c. bit (c || has_model r.model es)) t in
        omega arith)

add_row-models :
    (now : ℕ) (r : UsageRow) (j : Bytes) (es : List ModelEntry)
    → has_model j (add_row now r es) ≡ has_model j es
unfolding add_row
add_row-models now r j es =
    elim r.created as (λ o. has_model j (add_created now r o es) ≡ has_model j es) [
      | none ↦ refl
      | some created ↦
          elim (bucket_of now created)
            as (λ o. has_model j (add_in_bucket now created r o es) ≡ has_model j es) [
              | none ↦ refl
              | some i ↦ update_entry-models now created i r j es
            ]
    ]

add_row-total :
    (now : ℕ) (r : UsageRow) (es : List ModelEntry)
    → total (add_row now r es) ≡ total es + bit (counts now es r)
unfolding add_row
add_row-total now r es =
    elim r.created
      as (λ o.
        total (add_created now r o es) ≡ total es + bit (has_model r.model es && in_window now o)) [
          | none ↦ ground arith
          | some created ↦
              let start = china_hour_start created in
              let i = (start - window_start now) / hour in
              let u = update_entry-total now created i r es in
              if_cases
                (λ o.
                  total (add_in_bucket now created r o es)
                  ≡ total es + bit (has_model r.model es && in_window now (some created)))
                (ltb start (window_start now) || leb window_hours i) (λ e. ground arith)
                (λ e. ground arith)
        ]

count_rows-same :
    (now : ℕ) (es fs : List ModelEntry) (rs : List UsageRow)
    → ((j : Bytes) → has_model j fs ≡ has_model j es)
    → count_rows now fs rs ≡ count_rows now es rs
count_rows-same now es fs [] h = refl
count_rows-same now es fs (r ∷ rs) h =
    let rest = count_rows-same now es fs rs h in let k = h r.model in ground arith

add_rows-total :
    (now : ℕ) (rs : List UsageRow) (es : List ModelEntry)
    → total (add_rows now rs es) ≡ total es + count_rows now es rs
unfolding add_rows
add_rows-total now [] es = omega arith
add_rows-total now (r ∷ rs) es =
    let h = add_rows-total now rs (add_row now r es) in
    let k = add_row-total now r es in
    let c = count_rows-same now es (add_row now r es) rs (λ j. add_row-models now r j es) in
    ground arith

-- The summary of a page whose entries start without requests counts exactly the rows whose time lies in the
-- window of 24 hours and whose model is on the page, each of them once.
pub summarise-add_rows :
    (now : ℕ) (rs : List UsageRow) (es : List ModelEntry)
    → (add_totals es).requests ≡ 0
    → (summarise (add_rows now rs es)).summary_requests ≡ count_rows now es rs
unfolding summarise
summarise-add_rows now rs es h = let t = add_rows-total now rs es in omega arith
