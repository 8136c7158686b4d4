-- ===== src/Status/Buckets.antt =====
-- The hours of a model add up, cmd/server/status.go.
use opencode_rush_free.Base.{
  All, Bool, Bytes, List, [], ap, arith, bytes_eq, if_cases, leb, length, ltb, nat_eq, none, refl,
  some, string_eq, suc, sym, zero, ℕ, ◌+◌, ◌-◌, ◌/◌, ◌==◌, ◌||◌, ◌∙◌, ◌∷◌, ◌≡◌, ◌≤◌,
}
use opencode_rush_free.Status.{
  StatusAggregate, no_requests, UsageRow, ModelEntry, china_hour_start, window_start, window_hours,
  hour, add_public_status_sample, update_at, sample_at, update_entry, add_in_bucket, add_created,
  add_row, add_rows, new_entry, bit, measured, first_measured,
}

-- The sum of two aggregates, field by field.
abbrev plus : StatusAggregate → StatusAggregate → StatusAggregate
plus a b = record {
  requests = a.requests + b.requests;
  success = a.success + b.success;
  external = a.external + b.external;
  latency_sum = a.latency_sum + b.latency_sum;
  latency_count = a.latency_count + b.latency_count;
  first_sum = a.first_sum + b.first_sum;
  first_count = a.first_count + b.first_count;
}

abbrev pub sum_buckets : List StatusAggregate → StatusAggregate
sum_buckets [] = no_requests
sum_buckets (a ∷ rest) = plus a (sum_buckets rest)

-- What a row adds.
abbrev sample_of : UsageRow → StatusAggregate
sample_of r = record {
  requests = 1;
  success = bit (r.status == "success");
  external = bit (r.origin == "external");
  latency_sum = measured r.latency;
  latency_count = bit (ltb 0 (measured r.latency));
  first_sum = first_measured r.first;
  first_count = bit (ltb 0 (first_measured r.first));
}

swap : (a c b : ℕ) → a + c + b ≡ a + b + c
swap a c b = omega arith

sample-plus :
    (r : UsageRow) (a b : StatusAggregate)
    → plus (add_public_status_sample r a) b ≡ add_public_status_sample r (plus a b)
unfolding add_public_status_sample
sample-plus r a b = λ i. record {
  requests = swap a.requests 1 b.requests i;
  success = swap a.success (sample_of r).success b.success i;
  external = swap a.external (sample_of r).external b.external i;
  latency_sum = swap a.latency_sum (sample_of r).latency_sum b.latency_sum i;
  latency_count = swap a.latency_count (sample_of r).latency_count b.latency_count i;
  first_sum = swap a.first_sum (sample_of r).first_sum b.first_sum i;
  first_count = swap a.first_count (sample_of r).first_count b.first_count i;
}

move : (a b c : ℕ) → a + (b + c) ≡ a + b + c
move a b c = omega arith

plus-sample :
    (r : UsageRow) (a b : StatusAggregate)
    → plus a (add_public_status_sample r b) ≡ add_public_status_sample r (plus a b)
unfolding add_public_status_sample
plus-sample r a b = λ i. record {
  requests = move a.requests b.requests 1 i;
  success = move a.success b.success (sample_of r).success i;
  external = move a.external b.external (sample_of r).external i;
  latency_sum = move a.latency_sum b.latency_sum (sample_of r).latency_sum i;
  latency_count = move a.latency_count b.latency_count (sample_of r).latency_count i;
  first_sum = move a.first_sum b.first_sum (sample_of r).first_sum i;
  first_count = move a.first_count b.first_count (sample_of r).first_count i;
}

update_at-sum :
    (i : ℕ) (r : UsageRow) (bs : List StatusAggregate)
    → suc i ≤ length bs
    → sum_buckets (update_at i (add_public_status_sample r) bs)
      ≡ add_public_status_sample r (sum_buckets bs)
unfolding update_at
update_at-sum i r [] h = absurd (omega arith)
update_at-sum zero r (a ∷ bs) h = sample-plus r a (sum_buckets bs)
update_at-sum (suc i) r (a ∷ bs) h =
    ap (plus a) (update_at-sum i r bs (omega arith)) ∙ plus-sample r a (sum_buckets bs)

update_at-length :
    (i : ℕ) (f : StatusAggregate → StatusAggregate) (bs : List StatusAggregate)
    → length (update_at i f bs) ≡ length bs
unfolding update_at
update_at-length i f [] = refl
update_at-length zero f (a ∷ bs) = refl
update_at-length (suc i) f (a ∷ bs) = ap suc (update_at-length i f bs)

-- A model has a bucket for every hour, and its own numbers are the sums of the buckets'.
pub record EntryInv (e : ModelEntry) : Type 0 where
  pub full : length e.buckets ≡ window_hours
  pub adds_up : e.aggregate ≡ sum_buckets e.buckets

sample_at-EntryInv :
    (now created i : ℕ) (r : UsageRow) (e : ModelEntry)
    → suc i ≤ window_hours
    → EntryInv e
    → EntryInv (sample_at now created r i e)
sample_at-EntryInv now created i r e h v = record {
  full = update_at-length i (add_public_status_sample r) e.buckets ∙ v.full;
  adds_up =
      ap (add_public_status_sample r) v.adds_up
      ∙ sym (update_at-sum i r e.buckets (let f = v.full in omega arith));
}

update_entry-EntryInv :
    (id : Bytes) (f : ModelEntry → ModelEntry) (es : List ModelEntry)
    → ((e : ModelEntry) → EntryInv e → EntryInv (f e))
    → All EntryInv es
    → All EntryInv (update_entry id f es)
unfolding update_entry
update_entry-EntryInv id f [] k h = tt
update_entry-EntryInv id f (e ∷ es) k h =
    if_cases (All EntryInv) (e.model_id == id) (λ _. (k e h.0, h.1))
      (λ _. (h.0, update_entry-EntryInv id f es k h.1))

add_row-EntryInv :
    (now : ℕ) (r : UsageRow) (es : List ModelEntry)
    → All EntryInv es
    → All EntryInv (add_row now r es)
unfolding add_row
add_row-EntryInv now r es h = elim r.created as (λ o. All EntryInv (add_created now r o es)) [
  | none ↦ h
  | some created ↦
      let start = china_hour_start created in
      let i = (start - window_start now) / hour in
      if_cases (λ o. All EntryInv (add_in_bucket now created r o es))
        (ltb start (window_start now) || leb window_hours i) (λ _. h)
        (λ e.
          update_entry-EntryInv r.model (sample_at now created r i) es
            (λ x v. sample_at-EntryInv now created i r x (ground arith) v) h)
]

-- Any rows keep it that every model has a bucket for each of the 24 hours, and that its numbers of requests,
-- successes, external errors and latencies are the sums of those of its hours.
pub add_rows-EntryInv :
    (now : ℕ) (rs : List UsageRow) (es : List ModelEntry)
    → All EntryInv es
    → All EntryInv (add_rows now rs es)
unfolding add_rows
add_rows-EntryInv now [] es h = h
add_rows-EntryInv now (r ∷ rs) es h =
    add_rows-EntryInv now rs (add_row now r es) (add_row-EntryInv now r es h)

-- The entry of a model starts so.
pub new_entry-EntryInv : (id name : Bytes) (enabled : Bool) → EntryInv (new_entry id name enabled)
unfolding new_entry
new_entry-EntryInv id name enabled = record { full = refl; adds_up = refl }
