-- ===== src/Tests/Sampler.antt =====
-- A start whose second attempt succeeds.
use irods_go_drs.Base.{ℕ, ◌≡◌, ◌+◌, refl, false, some, none, ltb, arith, if◌then◌else◌}
use irods_go_drs.Base.Exec.{ok, err}
use irods_go_drs.Text.{Text, codes}
use irods_go_drs.Sampler.{
  Sampler, World, Start, started, retry, retry_wait, retry_max, sample_with_startup_retry,
}
use irods_go_drs.Sampler.Retries.{IsBounded, sample_with_startup_retry-IsBounded}

abbrev sampler : Sampler ℕ
sampler = record { start_retry_wait = 30; start_retry_max = 60; snapshot = none }

-- Samples take two seconds, and succeed from the twentieth second on.
abbrev world : World Text ℕ
world = record {
  sample_at = λ t. if ltb t 20 then err (codes "down") else ok t;
  sample_end = λ t. t + 2;
  is_done = λ t. false;
}

start_example :
    sample_with_startup_retry world 61 0 sampler
    ≡ some (started, record sampler { snapshot = some 32 })
unfolding sample_with_startup_retry retry
start_example = refl

sample_with_startup_retry-IsBounded_example :
    (start : Start Text) × (after : Sampler ℕ) × (sample_with_startup_retry world 61 0 sampler
      ≡ some (start, after))
    × IsBounded world (λ t. omega arith) (retry_max 60) (retry_wait 30) start
sample_with_startup_retry-IsBounded_example =
    sample_with_startup_retry-IsBounded world (λ t. omega arith) 61 0 sampler (omega arith)
