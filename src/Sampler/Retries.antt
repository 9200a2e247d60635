-- ===== src/Sampler/Retries.antt =====
-- The retries at the start end, and there are not too many of them.
use irods_go_drs.Base.{ℕ, zero, suc, ◌≡◌, refl, ◌+◌, ◌*◌, ◌<◌, ◌≤◌, Bool-cases, arith}
use irods_go_drs.Base.{none, some, ltb, inl, inr}
use irods_go_drs.Base.Exec.{Result, ok, err}
use irods_go_drs.Sampler.{
  Sampler, World, Start, started, cancelled, gave_up, Run, after_sample, retry, retry_wait,
  retry_max, sample_with_startup_retry,
}

module _ {Failure Snapshot : Type 0} (W : World Failure Snapshot)
    (takes : (t : ℕ) → t ≤ W.sample_end t) where
  -- A start that ended: one that gave up made no more attempts than the waits fit into the time.
  abbrev pub IsBounded : ℕ → ℕ → Start Failure → Type 0
  IsBounded max wait started = Unit
  IsBounded max wait cancelled = Unit
  IsBounded max wait (gave_up attempts e) = attempts * wait ≤ max + wait

  abbrev pub EndsBounded : ℕ → ℕ → Run W → Type 0
  EndsBounded max wait none = ⊥
  EndsBounded max wait (some (start, sampler)) = IsBounded max wait start

  module _ (begin max wait : ℕ) (waits : 0 < wait) where
    after_sample-EndsBounded :
        (again : ℕ → Sampler Snapshot → Run W) (attempt now : ℕ) (r : Result Failure Snapshot)
        (sampler : Sampler Snapshot)
        → attempt * wait ≤ max + wait
        → (now + wait ≤ begin + max → EndsBounded max wait (again (now + wait) sampler))
        → EndsBounded max wait (after_sample W again (begin + max) wait attempt now r sampler)
    after_sample-EndsBounded again attempt now (ok snapshot) sampler a h = tt
    after_sample-EndsBounded again attempt now (err e) sampler a h =
        elim (Bool-cases (W.is_done now)) [
          | inl d ↦ rw d tt
          | inr d ↦ elim (Bool-cases (ltb (begin + max) (now + wait))) [
            | inl late ↦ rw (d, late) a
            | inr early ↦ elim (Bool-cases (W.is_done (now + wait))) [
              | inl c ↦ rw (d, early, c) tt
              | inr c ↦ rw (d, early, c) (h (ground arith))
            ]
          ]
        ]

    retry-EndsBounded :
        (fuel attempt now : ℕ) (sampler : Sampler Snapshot)
        → begin + attempt * wait ≤ now + wait
        → now ≤ begin + max
        → begin + max < now + fuel
        → EndsBounded max wait (retry W fuel (begin + max) wait attempt now sampler)
    unfolding retry
    retry-EndsBounded zero attempt now sampler a n f = absurd (omega arith)
    retry-EndsBounded (suc fuel) attempt now sampler a n f =
        after_sample-EndsBounded (retry W fuel (begin + max) wait (suc attempt)) attempt
          (W.sample_end now) (W.sample_at now) sampler (omega arith)
          (λ late.
            retry-EndsBounded fuel (suc attempt) (W.sample_end now + wait) sampler
              (ground (arith, takes now)) late (ground (arith, takes now)))

  ended :
      (max wait : ℕ) (r : Run W)
      → EndsBounded max wait r
      → (start : Start Failure) × (sampler : Sampler Snapshot) × (r ≡ some (start, sampler))
        × IsBounded max wait start
  ended max wait none h = absurd h
  ended max wait (some (start, sampler)) h = (start, sampler, refl, h)

  -- Where no sample ends before it began, the start of the sampler ends on any fuel above the seconds
  -- of its retries; if it gives up, its attempts but one, each with its wait, fit into those seconds.
  pub sample_with_startup_retry-IsBounded :
      (fuel now : ℕ) (sampler : Sampler Snapshot)
      → retry_max sampler.start_retry_max < fuel
      → (start : Start Failure) × (after : Sampler Snapshot) × (sample_with_startup_retry W fuel now
            sampler
          ≡ some (start, after))
        × IsBounded (retry_max sampler.start_retry_max) (retry_wait sampler.start_retry_wait) start
  unfolding sample_with_startup_retry
  sample_with_startup_retry-IsBounded fuel now sampler f =
      ended _ _ _ (elim (Bool-cases (W.is_done now)) [
        | inl d ↦ rw d tt
        | inr d ↦ rw d (
            retry-EndsBounded now (retry_max sampler.start_retry_max)
              (retry_wait sampler.start_retry_wait) (ground arith) fuel 1 now sampler (ground arith)
              (omega arith) (omega arith))
      ])
