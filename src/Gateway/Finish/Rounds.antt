-- ===== src/Gateway/Finish/Rounds.antt =====
-- The loop over the attempts as a step relation: which round is the last one, and where a pause is
-- made. The streaming attempts follow it too, with a stream that is committed as one more end.
use alzette.Shared.{
  ℕ, zero, suc, ◌<◌, String, ◌≡◌, ◌⊎◌, inl, inr, refl, Bool, true, false, ◌||◌, not, ◌∷◌, eqb,
  length, arith, subst, Bool-cases,
}
use alzette.Shared.Int.{ℤ, at_most}
use alzette.Platform.{Route}
use alzette.Gateway.Outcome.{AttemptResult, failure}
use alzette.Gateway.World.{StoreOps, Env, Config, World}
use alzette.Gateway.Attempt.{perform_attempt}
use alzette.Gateway.Reply.{Opened}
use alzette.Gateway.Finish.{Backend, retry_delay, wait, attempt_loop}

module _ {S : Type 0} (env : Env) (ops : StoreOps S) (config : Config) (backend : Backend) where
  -- A wait: none for a delay up to zero, and else a pause in which the client may leave.
  pub data Pause (z : ℤ) (w : World S) : Bool → World S → Type 0 where
    skipped : at_most z 0 ≡ true → Pause z w false w
    made :
        (left : Bool)
        → at_most z 0 ≡ false
        → env.leaves (length w.pauses) ≡ left
        → Pause z w left (record w { pauses = z ∷ w.pauses })

  pub wait-Pause :
      (z : ℤ) (w : World S) → let y = wait env ops config backend z w in Pause z w y.0 y.1
  unfolding wait
  wait-Pause z w = elim (Bool-cases (at_most z 0)) [
    | inl y ↦ rw (y, wait) (skipped y)
    | inr n ↦ rw (n, wait) (made _ n refl)
  ]

  -- Attempts by their number, and whether an attempt has committed the client's stream.
  module _ (attempt : ℕ → World S → AttemptResult × World S) (committed : World S → Bool) where
    -- After the attempt the loop ends: it succeeded, committed the stream, may not be made again, or
    -- was the last one.
    abbrev pub IsFinal : ℕ → AttemptResult × World S → Type 0
    IsFinal k x =
        (x.0.success ≡ true) ⊎ ((committed x.1 ≡ true) ⊎ ((x.0.retryable ≡ false) ⊎ (k ≡ 0)))

    abbrev pub GoesOn : ℕ → AttemptResult × World S → Type 0
    GoesOn k x = (x.0.success ≡ false) × (committed x.1 ≡ false) × (x.0.retryable ≡ true) × (0 < k)

    -- At most the given number of rounds, from an attempt number on. A wait only follows an attempt
    -- after which the loop goes on. Then either the client leaves in it, or another round follows.
    pub data Rounds : ℕ → ℕ → World S → AttemptResult × World S → Type 0 where
      out : (n : ℕ) (t : AttemptResult) (w : World S) → Rounds zero n w (t, w)
      final : (k n : ℕ) (w : World S) → IsFinal k (attempt n w) → Rounds (suc k) n w (attempt n w)
      left :
          (k n : ℕ) (w v : World S)
          → GoesOn k (attempt n w)
          → Pause (retry_delay env ops config backend (attempt n w).0 n) (attempt n w).1 true v
          → Rounds (suc k) n w (failure "client_cancelled" 499 "request was cancelled", v)
      again :
          (k n : ℕ) (w v : World S) (y : AttemptResult × World S)
          → GoesOn k (attempt n w)
          → Pause (retry_delay env ops config backend (attempt n w).0 n) (attempt n w).1 false v
          → Rounds k (suc n) v y
          → Rounds (suc k) n w y

  pub attempt_loop-Rounds :
      (o : Opened) (route : Route) (secret body : String) (rounds n : ℕ) (t : AttemptResult)
      (w : World S)
      → Rounds
          (perform_attempt env ops config o.request_id route secret body)
          (λ v. false)
          rounds
          n
          w
          (attempt_loop env ops config backend o route secret body rounds n t w)
  unfolding attempt_loop
  attempt_loop-Rounds o route secret body zero n t w = out n t w
  attempt_loop-Rounds o route secret body (suc k) n t w =
      let x = perform_attempt env ops config o.request_id route secret body n w in
      let z = retry_delay env ops config backend x.0 n in
      let y = wait env ops config backend z x.1 in
      let pause = wait-Pause z x.1 in
      elim (Bool-cases (x.0.success || (not x.0.retryable || eqb k 0))) [
        | inl stop ↦ rw (stop, attempt_loop) (final k n w (ground (arith, stop)))
        | inr go ↦
            let on : GoesOn (perform_attempt env ops config o.request_id route secret body)
                (λ v. false) k x =
              ground (arith, go) in
            elim (Bool-cases y.0) [
              | inl gone ↦
                  rw (go, gone, attempt_loop)
                    (left k n w y.1 on (subst (λ b. Pause z x.1 b y.1) gone pause))
              | inr stay ↦
                  rw (go, stay, attempt_loop)
                    (again k n w y.1 _ on (subst (λ b. Pause z x.1 b y.1) stay pause)
                      (attempt_loop-Rounds o route secret body k (suc n) x.0 y.1))
            ]
      ]
