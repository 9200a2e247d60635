-- ===== src/Sampler.antt =====
-- The sampler of the service info (internal/service_info_sampler.go): the fields that a sample fills in,
-- the retries at the start, and the snapshot that the samples leave. The provider of summaries and the
-- clock are arguments; a time counts in one unit from the start of the clock.
pub mod Retries
use irods_go_drs.Base.{
  ℕ, zero, suc, ◌+◌, Bool, true, false, Option, none, some, List, [], ◌∷◌, ltb, eqb, leb,
  if◌then◌else◌,
}
use irods_go_drs.Base.Exec.{Result, ok, err}
use irods_go_drs.Text.{Text, codes, ◌==◌}

-- What a value of the service info can be, as far as the sampler writes or reads it: a number, a
-- text, a section, or another value of the file.
mutual
  pub data Value : Type 0 where
    number : ℕ → Value
    text : Text → Value
    section : Fields → Value
    other : Text → Value

  pub data Fields : Type 0 where
    no_fields : Fields
    field : Text → Value → Fields → Fields

-- A map of Go: the lookup and the assignment.
abbrev pub get : Text → Fields → Option Value
get key no_fields = none
get key (field k v rest) = let others = get key rest in if key == k then some v else others

abbrev pub set : Text → Value → Fields → Fields
set key value no_fields = field key value no_fields
set key value (field k v rest) =
    let others = set key value rest in if key == k then field k value rest else field k v others

-- A value for a key that has none yet.
abbrev pub set_default : Text → Value → Fields → Fields
set_default key value fields = elim (get key fields) [
  | none ↦ set key value fields
  | some v ↦ fields
]

-- The section of a key, empty where the value is none.
abbrev pub section_of : Option Value → Fields
section_of (some (section fields)) = fields
section_of _ = no_fields

-- `DrsDataObjectSummary`
pub record Totals : Type 0 where
  pub data_object_count : ℕ
  pub total_size : ℕ

abbrev pub count_of : Option Totals → ℕ
count_of none = 0
count_of (some t) = t.data_object_count

abbrev pub total_size_of : Option Totals → ℕ
total_size_of none = 0
total_size_of (some t) = t.total_size

abbrev pub max_bulk : Text
max_bulk = codes "maxBulkRequestLength"

abbrev pub value_or : Value → Option Value → Value
value_or default none = default
value_or default (some v) = v

unfoldable pub apply_service_info_placeholders : Fields → Text → Option Totals → Fields
apply_service_info_placeholders info now summary =
    let defaults =
      set_default (codes "updatedAt") (text now) (set_default max_bulk (number 1000) info) in
    let drs =
      set_default max_bulk (value_or (number 1000) (get max_bulk defaults))
        (section_of (get (codes "drs") defaults)) in
    set (codes "drs")
      (section (
        set (codes "totalObjectSize") (number (total_size_of summary))
          (set (codes "objectCount") (number (count_of summary)) drs)))
      defaults

-- `ServiceInfoSampler`: the waits, and the snapshot with the time of its sample.
pub record Sampler (Snapshot : Type 0) : Type 0 where
  pub start_retry_wait : ℕ
  pub start_retry_max : ℕ
  pub snapshot : Option Snapshot

-- A duration that is not set has its default: `30 * time.Second` and `5 * time.Minute`, in seconds.
abbrev pub retry_wait : ℕ → ℕ
retry_wait wait = if eqb wait 0 then 30 else wait

abbrev pub retry_max : ℕ → ℕ
retry_max max = if eqb max 0 then 300 else max

-- `WithServiceInfoStartupRetry`: durations above zero are taken over.
unfoldable pub with_startup_retry :
    {Snapshot : Type 0} → ℕ → ℕ → Sampler Snapshot → Sampler Snapshot
with_startup_retry wait max sampler = record sampler {
  start_retry_wait = (if ltb 0 wait then wait else sampler.start_retry_wait);
  start_retry_max = (if ltb 0 max then max else sampler.start_retry_max);
}

-- The world that samples are taken in: what a sample begun at a time comes to and when, and whether
-- the context is done at a time.
pub record World (Failure Snapshot : Type 0) : Type 0 where
  pub sample_at : ℕ → Result Failure Snapshot
  pub sample_end : ℕ → ℕ
  pub is_done : ℕ → Bool

pub data Start (Failure : Type 0) : Type 0 where
  started cancelled : Start Failure
  -- The number of attempts and the last error.
  gave_up : ℕ → Failure → Start Failure

module _ {Failure Snapshot : Type 0} (W : World Failure Snapshot) where
  -- `sample`, from its result on: a failure leaves the snapshot.
  abbrev pub keep_sample : Result Failure Snapshot → Sampler Snapshot → Sampler Snapshot
  keep_sample (err e) sampler = sampler
  keep_sample (ok snapshot) sampler = record sampler { snapshot = some snapshot }

  unfoldable pub sample : ℕ → Sampler Snapshot → Sampler Snapshot
  sample t sampler = keep_sample (W.sample_at t) sampler

  -- A run of the loop: how it ended, and the sampler; `none` means that it ran out of fuel.
  abbrev pub Run : Type 0
  Run = Option (Start Failure × Sampler Snapshot)

  -- The tests behind a sample that ended at a time, and the wait.
  abbrev pub after_sample :
      (ℕ → Sampler Snapshot → Run)
      → ℕ
      → ℕ
      → ℕ
      → ℕ
      → Result Failure Snapshot
      → Sampler Snapshot
      → Run
  after_sample again deadline wait attempt now (ok snapshot) sampler =
      some (started, record sampler { snapshot = some snapshot })
  after_sample again deadline wait attempt now (err e) sampler =
      if W.is_done now
      then some (cancelled, sampler)
      else if ltb deadline (now + wait)
      then some (gave_up attempt e, sampler)
      else if W.is_done (now + wait)
      then some (cancelled, sampler)
      else again (now + wait) sampler

  -- The loop, with the number of the attempt.
  unfoldable pub retry : ℕ → ℕ → ℕ → ℕ → ℕ → Sampler Snapshot → Run
  retry zero deadline wait attempt now sampler = none
  retry (suc fuel) deadline wait attempt now sampler =
      after_sample (retry fuel deadline wait (suc attempt)) deadline wait attempt (W.sample_end now)
        (W.sample_at now) sampler

  unfoldable pub sample_with_startup_retry : ℕ → ℕ → Sampler Snapshot → Run
  sample_with_startup_retry fuel now sampler =
      if W.is_done now
      then some (cancelled, sampler)
      else retry fuel (now + retry_max sampler.start_retry_max)
          (retry_wait sampler.start_retry_wait) 1 now sampler
