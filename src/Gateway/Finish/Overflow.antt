-- ===== src/Gateway/Finish/Overflow.antt =====
-- Retry-After beyond the range of a duration.
use alzette.Shared.{ℕ, ◌*◌, ◌==◌, ◌≡◌, ◌≢◌, refl, true, false, some, arith, ne→eq_false}
use alzette.Shared.Int.{ℤ, pos, negsuc, is_neg, wrap64, at_most}
use alzette.Gateway.Outcome.{AttemptResult, atoi, second}
use alzette.Gateway.World.{StoreOps, ProviderError, Env, Config, World}
use alzette.Gateway.Attempt.{provider_failure}
use alzette.Gateway.Finish.{Backend, retry_delay, wait}

provider_failure-seconds :
    (env : Env) (e : ProviderError) (now seconds : ℕ)
    → atoi e.retry_after ≡ some (pos seconds)
    → (e.retry_after == "") ≡ false
    → ((provider_failure env e now).retry_after ≡ wrap64 (seconds * second))
      × ((provider_failure env e now).retry_after_set ≡ true)
unfolding provider_failure
provider_failure-seconds env e now seconds parsed filled =
    rw (filled, parsed, provider_failure) (refl, refl)

negative_at_most : (z : ℤ) (n : ℕ) → is_neg z ≡ true → at_most z n ≡ true
negative_at_most (pos m) n h = ground arith
negative_at_most (negsuc m) n h = refl

module _ {S : Type 0} (env : Env) (ops : StoreOps S) (config : Config) (backend : Backend) where
  no_pause :
      (t : AttemptResult) (n : ℕ) (w : World S)
      → t.retry_after_set ≡ true
      → is_neg t.retry_after ≡ true
      → wait env ops config backend (retry_delay env ops config backend t n) w ≡ (false, w)
  unfolding wait retry_delay
  no_pause t n w set negative =
      rw
        (
          set,
          negative_at_most t.retry_after config.max_retry_delay negative,
          negative_at_most t.retry_after 0 negative,
        )
        refl

  -- A failure whose Retry-After is a number of seconds that wraps around to a negative duration is
  -- followed by no pause at all.
  pub wait-overflow :
      (e : ProviderError) (now seconds n : ℕ) (w : World S)
      → atoi e.retry_after ≡ some (pos seconds)
      → e.retry_after ≢ ""
      → is_neg (wrap64 (seconds * second)) ≡ true
      → wait env ops config backend
          (retry_delay env ops config backend (provider_failure env e now) n)
          w
        ≡ (false, w)
  wait-overflow e now seconds n w parsed present negative =
      let (delay, set) =
        provider_failure-seconds env e now seconds parsed (ne→eq_false e.retry_after "" present) in
      no_pause (provider_failure env e now) n w set (rw delay negative)
