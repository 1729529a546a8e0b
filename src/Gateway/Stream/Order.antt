-- ===== src/Gateway/Stream/Order.antt =====
-- The loop over the streaming attempts: the calls of the provider, the pauses, and no further call
-- once something was written to the client.
use alzette.Shared.{
  ℕ, zero, suc, ◌<◌, String, ◌≡◌, ◌∙◌, inl, inr, refl, Bool, true, false, ◌||◌, not, Option, List,
  [], ◌∷◌, eqb, arith, subst, Bool-cases,
}
use alzette.Shared.Int.{ℤ}
use alzette.Platform.{Route}
use alzette.Gateway.Outcome.{AttemptResult}
use alzette.Gateway.World.{StoreOps, Written, Encoder, Env, Config, World}
use alzette.Gateway.Reply.{Opened}
use alzette.Gateway.Finish.{Backend, retry_delay, wait}
use alzette.Gateway.Finish.Attempts.{
  Adds, Adds-last, Adds-more, Adds-none, wait-Waited, retry_delay_capped,
}
use alzette.Gateway.Finish.Rounds.{Pause, wait-Pause, Rounds, out, final, left, again}
use alzette.Gateway.Stream.Sink.{is_committed}
use alzette.Gateway.Stream.Attempt.{perform_streaming_attempt}
use alzette.Gateway.Stream.Effects.{
  OfLast, perform_streaming_attempt-SendsOnce, perform_streaming_attempt-OfLast,
}
use alzette.Gateway.Stream.Serve.{stream_attempts}

module _ {S : Type 0} (env : Env) (ops : StoreOps S) (config : Config) (backend : Backend) where
  bounded_rounds :
      (o : Opened) (route : Route) (secret body : String) (e : Option Encoder) (rounds n : ℕ)
      (t : AttemptResult) (w : World S)
      → Adds env ops config backend o.request_id route rounds n w
          (stream_attempts env ops config backend o route secret body e rounds n t w).1
  unfolding stream_attempts
  bounded_rounds o route secret body e zero n t w =
      Adds-none env ops config backend o.request_id route zero n w
  bounded_rounds o route secret body e (suc k) n t w =
      let x =
        perform_streaming_attempt env ops config backend o.request_id route secret body n e w in
      let once =
        perform_streaming_attempt-SendsOnce env ops config backend o.request_id route secret body n
          e w in
      let z = retry_delay env ops config backend x.0 n in
      let y = wait env ops config backend z x.1 in
      let waited = wait-Waited env ops config backend z x.1 in
      let cap = retry_delay_capped env ops config backend x.0 n in
      elim (Bool-cases (x.0.success || (is_committed x.1 || (not x.0.retryable || eqb k 0)))) [
        | inl stop ↦
            rw (stop, stream_attempts)
              (Adds-last env ops config backend o.request_id route k n w x once)
        | inr go ↦
            let more : 0 < k = ground arith in
            elim (Bool-cases y.0) [
              | inl gone ↦
                  rw (go, gone, stream_attempts)
                    (Adds-more env ops config backend o.request_id route k n z w y.1 y.1 x once
                      waited cap more
                      (Adds-none env ops config backend o.request_id route k (suc n) y.1))
              | inr stay ↦
                  rw (go, stay, stream_attempts)
                    (Adds-more env ops config backend o.request_id route k n z w y.1 _ x once waited
                      cap more (bounded_rounds o route secret body e k (suc n) x.0 y.1))
            ]
      ]

  stream_attempts-Rounds :
      (o : Opened) (route : Route) (secret body : String) (e : Option Encoder) (rounds n : ℕ)
      (t : AttemptResult) (w : World S)
      → Rounds env ops config backend
          (λ m v.
            perform_streaming_attempt env ops config backend o.request_id route secret body m e v)
          (λ v. is_committed v)
          rounds
          n
          w
          (stream_attempts env ops config backend o route secret body e rounds n t w)
  unfolding stream_attempts
  stream_attempts-Rounds o route secret body e zero n t w = out n t w
  stream_attempts-Rounds o route secret body e (suc k) n t w =
      let x =
        perform_streaming_attempt env ops config backend o.request_id route secret body n e w in
      let z = retry_delay env ops config backend x.0 n in
      let y = wait env ops config backend z x.1 in
      let pause = wait-Pause env ops config backend z x.1 in
      elim (Bool-cases (x.0.success || (is_committed x.1 || (not x.0.retryable || eqb k 0)))) [
        | inl stop ↦ rw (stop, stream_attempts) (final k n w (ground (arith, stop)))
        | inr go ↦
            let on : (x.0.success ≡ false)
                × (is_committed x.1 ≡ false)
                × (x.0.retryable ≡ true)
                × (0 < k) =
              ground (arith, go) in
            elim (Bool-cases y.0) [
              | inl gone ↦
                  rw (go, gone, stream_attempts)
                    (left k n w y.1 on
                      (subst (λ b. Pause env ops config backend z x.1 b y.1) gone pause))
              | inr stay ↦
                  rw (go, stay, stream_attempts)
                    (again k n w y.1 _ on
                      (subst (λ b. Pause env ops config backend z x.1 b y.1) stay pause)
                      (stream_attempts-Rounds o route secret body e k (suc n) x.0 y.1))
            ]
      ]

  -- The loop over the streaming attempts calls the provider at most once a round, under rising
  -- attempt numbers from `n` on, for this request and this target alone, and no pause exceeds the
  -- configured maximum. A pause is only made after an attempt that failed, wrote nothing to the
  -- client, may be made again and has a round left after it; either the client leaves in that
  -- pause, and then the loop ends with the cancellation, or the next round follows. The loop ends
  -- with the result of the first attempt of any other kind,
  -- and a loop of no round leaves everything as it was.
  pub stream_attempts-Adds :
      (o : Opened) (route : Route) (secret body : String) (e : Option Encoder) (rounds n : ℕ)
      (t : AttemptResult) (w : World S)
      → let x = stream_attempts env ops config backend o route secret body e rounds n t w in
        Adds env ops config backend o.request_id route rounds n w x.1
        × Rounds env ops config backend
            (λ m v.
              perform_streaming_attempt env ops config backend o.request_id route secret body m e v)
            (λ v. is_committed v)
            rounds
            n
            w
            x
  stream_attempts-Adds o route secret body e rounds n t w = (
    bounded_rounds o route secret body e rounds n t w,
    stream_attempts-Rounds o route secret body e rounds n t w,
  )

  wait-written : (z : ℤ) (w : World S) → (wait env ops config backend z w).1.written ≡ w.written
  unfolding wait
  wait-written z w = ground arith

  nothing_written : (b c : Bool) (w : World S) → b || (is_committed w || c) ≡ false → w.written ≡ []
  nothing_written b c w h = split b w.written h
    where
      split :
          (b : Bool) (xs : List Written)
          → b || (elim xs as (λ _. Bool) [ [] ↦ false | x ∷ ys ↦ true ] || c) ≡ false
          → xs ≡ []
      split true xs h = absurd cc
      split false [] h = refl
      split false (x ∷ ys) h = absurd cc

  OfLast-none : (w : World S) → w.written ≡ [] → OfLast env ops config w
  OfLast-none w h = rw (h) tt

  -- If nothing was written to the client before the loop over the streaming attempts, then all that
  -- is written in it belongs to the call of the provider that was made last: once the client was sent
  -- something, the provider is not called again.
  pub stream_attempts-OfLast :
      (o : Opened) (route : Route) (secret body : String) (e : Option Encoder) (rounds n : ℕ)
      (t : AttemptResult) (w : World S)
      → w.written ≡ []
      → OfLast env ops config
          (stream_attempts env ops config backend o route secret body e rounds n t w).1
  unfolding stream_attempts
  stream_attempts-OfLast o route secret body e zero n t w h = OfLast-none w h
  stream_attempts-OfLast o route secret body e (suc k) n t w h =
      let x =
        perform_streaming_attempt env ops config backend o.request_id route secret body n e w in
      let last =
        perform_streaming_attempt-OfLast env ops config backend o.request_id route secret body n e w
          h in
      let z = retry_delay env ops config backend x.0 n in
      let y = wait env ops config backend z x.1 in
      elim (Bool-cases (x.0.success || (is_committed x.1 || (not x.0.retryable || eqb k 0)))) [
        | inl stop ↦ rw (stop, stream_attempts) last
        | inr go ↦
            let none : y.1.written ≡ [] =
              wait-written z x.1 ∙ nothing_written x.0.success _ x.1 go in
            elim (Bool-cases y.0) [
              | inl gone ↦ rw (go, gone, stream_attempts) (OfLast-none y.1 none)
              | inr stay ↦
                  rw (go, stay, stream_attempts)
                    (stream_attempts-OfLast o route secret body e k (suc n) x.0 y.1 none)
            ]
      ]
