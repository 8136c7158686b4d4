-- ===== src/Status.antt =====
-- The public status page, cmd/server/status.go: the free models, and what the requests of the last 24
-- hours say of each. Times are nanoseconds, counts do not overflow, and a success rate is compared with its
-- thresholds exactly. An answer of the database that fails is none of this file.
use opencode_rush_free.Base.{
  Bool, Bytes, List, Option, String, [], bytes_eq, bytes_eqb, if◌then◌else◌, leb, length, ltb,
  nat_eq, none, some, string_eq, suc, zero, ℕ, ◌*◌, ◌+◌, ◌-◌, ◌/◌, ◌==◌, ◌||◌, ◌∷◌,
}
use opencode_rush_free.Base.Int.{ℤ, pos, negsuc}
use opencode_rush_free.Limiter.{second}
use opencode_rush_free.Pool.{minute}
pub mod Buckets
pub mod Averages
pub mod Totals
mod Tests

abbrev pub hour : ℕ
hour = 60 * minute

abbrev pub window_hours : ℕ
window_hours = 24

pub record StatusAggregate : Type 0 where
  pub requests : ℕ
  pub success : ℕ
  pub external : ℕ
  pub latency_sum : ℕ
  pub latency_count : ℕ
  pub first_sum : ℕ
  pub first_count : ℕ

abbrev pub no_requests : StatusAggregate
no_requests = record {
  requests = 0;
  success = 0;
  external = 0;
  latency_sum = 0;
  latency_count = 0;
  first_sum = 0;
  first_count = 0;
}

-- A row of usage_requests as it is read; `created` is `none` if it is no time.
pub record UsageRow : Type 0 where
  pub model : Bytes
  pub created : Option ℕ
  pub status : String
  pub origin : String
  pub latency : ℤ
  pub first : Option ℤ

pub record ModelEntry : Type 0 where
  pub model_id : Bytes
  pub display_name : Bytes
  pub enabled : Bool
  pub aggregate : StatusAggregate
  pub buckets : List StatusAggregate
  pub recent : ℕ

-- The start of the hour in a zone of UTC+8.
unfoldable pub china_hour_start : ℕ → ℕ
china_hour_start t = (t + 8 * hour) / hour * hour - 8 * hour

abbrev pub window_start : ℕ → ℕ
window_start now = china_hour_start now - (window_hours - 1) * hour

abbrev pub bit : Bool → ℕ
bit b = if b then 1 else 0

-- A latency counts if it is positive.
abbrev pub measured : ℤ → ℕ
measured (pos n) = n
measured (negsuc n) = 0

abbrev pub first_measured : Option ℤ → ℕ
first_measured none = 0
first_measured (some t) = measured t

unfoldable pub add_public_status_sample : UsageRow → StatusAggregate → StatusAggregate
add_public_status_sample r a = record {
  requests = a.requests + 1;
  success = a.success + bit (r.status == "success");
  external = a.external + bit (r.origin == "external");
  latency_sum = a.latency_sum + measured r.latency;
  latency_count = a.latency_count + bit (ltb 0 (measured r.latency));
  first_sum = a.first_sum + first_measured r.first;
  first_count = a.first_count + bit (ltb 0 (first_measured r.first));
}

unfoldable pub update_at :
    ℕ → (StatusAggregate → StatusAggregate) → List StatusAggregate → List StatusAggregate
update_at i f [] = []
update_at zero f (a ∷ rest) = f a ∷ rest
update_at (suc i) f (a ∷ rest) = a ∷ update_at i f rest

-- The bucket of a time, if it lies in the window.
abbrev pub bucket_of : ℕ → ℕ → Option ℕ
bucket_of now created =
    let start = china_hour_start created in
    let i = (start - window_start now) / hour in
    if ltb start (window_start now) || leb window_hours i then none else some i

abbrev pub sample_at : ℕ → ℕ → UsageRow → ℕ → ModelEntry → ModelEntry
sample_at now created r i e = record e {
  aggregate = add_public_status_sample r e.aggregate;
  buckets = update_at i (add_public_status_sample r) e.buckets;
  recent = e.recent + bit (leb (now - 15 * minute) created);
}

unfoldable pub update_entry : Bytes → (ModelEntry → ModelEntry) → List ModelEntry → List ModelEntry
update_entry id f [] = []
update_entry id f (e ∷ es) =
    let rest = update_entry id f es in if e.model_id == id then f e ∷ es else e ∷ rest

abbrev pub add_in_bucket : ℕ → ℕ → UsageRow → Option ℕ → List ModelEntry → List ModelEntry
add_in_bucket now created r none es = es
add_in_bucket now created r (some i) es = update_entry r.model (sample_at now created r i) es

abbrev pub add_created : ℕ → UsageRow → Option ℕ → List ModelEntry → List ModelEntry
add_created now r none es = es
add_created now r (some created) es = add_in_bucket now created r (bucket_of now created) es

-- One row; a model that is not among the entries is passed over.
unfoldable pub add_row : ℕ → UsageRow → List ModelEntry → List ModelEntry
add_row now r es = add_created now r r.created es

unfoldable pub add_rows : ℕ → List UsageRow → List ModelEntry → List ModelEntry
add_rows now [] es = es
add_rows now (r ∷ rs) es = add_rows now rs (add_row now r es)

abbrev pub repeat : ℕ → StatusAggregate → List StatusAggregate
repeat zero a = []
repeat (suc n) a = a ∷ repeat n a

-- The entry of a row of models.
unfoldable pub new_entry : Bytes → Bytes → Bool → ModelEntry
new_entry id name enabled = record {
  model_id = id;
  display_name = if bytes_eqb name [] then id else name;
  enabled = enabled;
  aggregate = no_requests;
  buckets = repeat window_hours no_requests;
  recent = 0;
}

pub data Availability : Type 0 where
  no_request outage degraded available : Availability

-- The status, and the success rate as its two terms.
unfoldable pub public_availability : StatusAggregate → Availability × Option (ℕ × ℕ)
public_availability a =
    let counted = a.requests - a.external in
    if counted == 0 then (no_request, none) else (
      (if leb (95 * counted) (100 * a.success)
          then available
          else if leb (80 * counted) (100 * a.success)
          then degraded
          else outage),
      some (a.success, counted),
    )

unfoldable pub public_average : ℕ → ℕ → ℕ
public_average sum count = if count == 0 then 0 else (sum + count / 2) / count

pub record StatusSummary : Type 0 where
  pub models : ℕ
  pub summary_requests : ℕ
  pub recent_requests : ℕ
  pub availability : Availability × Option (ℕ × ℕ)

abbrev pub add_totals : List ModelEntry → StatusAggregate
add_totals [] = no_requests
add_totals (e ∷ es) =
    let rest = add_totals es in
    record rest {
      requests = e.aggregate.requests + rest.requests;
      success = e.aggregate.success + rest.success;
      external = e.aggregate.external + rest.external;
    }

abbrev pub total_recent : List ModelEntry → ℕ
total_recent [] = 0
total_recent (e ∷ es) = e.recent + total_recent es

unfoldable pub summarise : List ModelEntry → StatusSummary
summarise es = record {
  models = length es;
  summary_requests = (add_totals es).requests;
  recent_requests = total_recent es;
  availability = public_availability (add_totals es);
}
