-- ===== src/Gateway/Finish/Attempts.antt =====
-- The loop over the attempts: how often the provider is called, with which numbers, and how long
-- the handler pauses.
use mathlib.Core.List.{append_assoc}
use alzette.Shared.{
  ℕ, zero, suc, ◌+◌, ◌≤◌, ◌<◌, String, ◌≡◌, ◌⊎◌, inl, inr, refl, true, false, ◌||◌, List, [], ◌∷◌,
  ◌++◌, All, length, arith, Bool-cases, not, eqb,
}
use alzette.Shared.Int.{ℤ, pos, at_most}
use alzette.Platform.{Route}
use alzette.Gateway.Outcome.{AttemptResult}
use alzette.Gateway.World.{StoreOps, Upstream, Env, Config, World}
use alzette.Gateway.Attempt.{perform_attempt}
use alzette.Gateway.Attempt.Effects.{SendsOnce, perform_attempt-SendsOnce}
use alzette.Gateway.Reply.{Opened}
use alzette.Gateway.Finish.{Backend, retry_delay, wait, attempt_loop}
use alzette.Gateway.Finish.Rounds.{Rounds, attempt_loop-Rounds}

-- The calls, last one first, have falling numbers below `hi`.
abbrev pub Descends : ℕ → List Upstream → Type 0
Descends hi [] = Unit {0}
Descends hi (u ∷ us) = (u.attempt_number < hi) × Descends u.attempt_number us

-- A call is one of the request's, to the route's target, from number `n` on.
abbrev pub IsOwn : String → Route → ℕ → Upstream → Type 0
IsOwn id route n u = (u.request_id ≡ id) × (u.target_id ≡ route.target.id) × (n ≤ u.attempt_number)

All-append : {A : Type 0} (P : A → Type 0) (xs ys : List A) → All P xs → All P ys → All P (xs ++ ys)
All-append P [] ys h k = k
All-append P (x ∷ xs) ys h k = (h.0, All-append P xs ys h.1 k)

All-weaken :
    (id : String) (route : Route) (n : ℕ) (us : List Upstream)
    → All (IsOwn id route (suc n)) us
    → All (IsOwn id route n) us
All-weaken id route n [] h = tt
All-weaken id route n (u ∷ us) h = (ground arith, All-weaken id route n us h.1)

Descends-append :
    (id : String) (route : Route) (hi n : ℕ) (us : List Upstream) (u : Upstream)
    → u.attempt_number ≡ n
    → n < hi
    → All (IsOwn id route (suc n)) us
    → Descends hi us
    → Descends hi (us ++ u ∷ [])
Descends-append id route hi n [] u e lt own d = (omega arith, tt)
Descends-append id route hi n (x ∷ us) u e lt own d =
    (d.0, Descends-append id route x.attempt_number n us u e (omega arith) own.1 d.1)

length-append : {A : Type 0} (xs ys : List A) → length (xs ++ ys) ≡ length xs + length ys
length-append [] ys = omega arith
length-append (x ∷ xs) ys = omega (arith, length-append xs ys)

suc_right : (n k : ℕ) → n + suc k ≡ suc n + k
suc_right n k = omega arith

module _ {S : Type 0} (env : Env) (ops : StoreOps S) (config : Config) (backend : Backend) where
  -- What a loop of at most `rounds` attempts from number `n` on adds to the world.
  pub record Adds (id : String) (route : Route) (rounds n : ℕ) (w v : World S) : Type 0 where
    pub calls : List Upstream
    pub sent : v.sent ≡ calls ++ w.sent
    pub own : All (IsOwn id route n) calls
    pub falling : Descends (n + rounds) calls
    pub pauses : List ℤ
    pub paused : v.pauses ≡ pauses ++ w.pauses
    pub capped : All (λ z. at_most z config.max_retry_delay ≡ true) pauses
    pub between : (0 < rounds → length pauses < rounds) × (rounds ≡ 0 → pauses ≡ [])

  at_most_self : (n : ℕ) → at_most (pos n) n ≡ true
  at_most_self n = ground arith

  pub retry_delay_capped :
      (t : AttemptResult) (n : ℕ)
      → at_most (retry_delay env ops config backend t n) config.max_retry_delay ≡ true
  unfolding retry_delay
  retry_delay_capped t n = ground (arith, at_most_self config.max_retry_delay)

  abbrev pub Waited : ℤ → World S → World S → Type 0
  Waited z w v = (v.sent ≡ w.sent) × ((v.pauses ≡ w.pauses) ⊎ (v.pauses ≡ z ∷ w.pauses))

  pub wait-Waited : (z : ℤ) (w : World S) → Waited z w (wait env ops config backend z w).1
  unfolding wait
  wait-Waited z w = ground arith

  -- The attempt that ends the loop.
  pub Adds-last :
      (id : String) (route : Route) (k n : ℕ) (w : World S) (x : AttemptResult × World S)
      → SendsOnce env ops config id route n w x
      → Adds id route (suc k) n w x.1
  Adds-last id route k n w x (calm, inl e) = record {
    calls = [];
    sent = e;
    own = tt;
    falling = tt;
    pauses = [];
    paused = calm;
    capped = tt;
    between = (λ h. omega arith, λ h. refl);
  }
  Adds-last id route k n w x (calm, inr (u, e, i, m, t)) = record {
    calls = u ∷ [];
    sent = e;
    own = ((i, t, omega arith), tt);
    falling = (omega arith, tt);
    pauses = [];
    paused = calm;
    capped = tt;
    between = (λ h. omega arith, λ h. refl);
  }

  -- The first round, followed by a loop over the others.
  pub Adds-more :
      (id : String) (route : Route) (k n : ℕ) (z : ℤ) (w u v : World S)
      (x : AttemptResult × World S)
      → SendsOnce env ops config id route n w x
      → Waited z x.1 u
      → at_most z config.max_retry_delay ≡ true
      → 0 < k
      → Adds id route k (suc n) u v
      → Adds id route (suc k) n w v
  Adds-more id route k n z w u v x (calm, inl e) (quiet, inl p) cap pos_k a = record {
    calls = a.calls;
    sent = ground (arith, a.sent);
    own = All-weaken id route n a.calls a.own;
    falling = rw (suc_right n k) a.falling;
    pauses = a.pauses;
    paused = ground (arith, a.paused);
    capped = a.capped;
    between = ground (arith, a.between);
  }
  Adds-more id route k n z w u v x (calm, inl e) (quiet, inr p) cap pos_k a = record {
    calls = a.calls;
    sent = ground (arith, a.sent);
    own = All-weaken id route n a.calls a.own;
    falling = rw (suc_right n k) a.falling;
    pauses = a.pauses ++ z ∷ [];
    paused = ground (arith, a.paused, append_assoc a.pauses (z ∷ []) w.pauses);
    capped = All-append _ a.pauses (z ∷ []) a.capped (cap, tt);
    between = ground (arith, a.between, length-append a.pauses (z ∷ []));
  }
  Adds-more id route k n z w u v x (calm, inr (c, e, i, m, t)) (quiet, inl p) cap pos_k a = record {
    calls = a.calls ++ c ∷ [];
    sent = ground (arith, a.sent, append_assoc a.calls (c ∷ []) w.sent);
    own =
        All-append _ a.calls (c ∷ []) (All-weaken id route n a.calls a.own)
          ((i, t, omega arith), tt);
    falling =
        rw (suc_right n k) (Descends-append id route _ n a.calls c m (omega arith) a.own a.falling);
    pauses = a.pauses;
    paused = ground (arith, a.paused);
    capped = a.capped;
    between = ground (arith, a.between);
  }
  Adds-more id route k n z w u v x (calm, inr (c, e, i, m, t)) (quiet, inr p) cap pos_k a = record {
    calls = a.calls ++ c ∷ [];
    sent = ground (arith, a.sent, append_assoc a.calls (c ∷ []) w.sent);
    own =
        All-append _ a.calls (c ∷ []) (All-weaken id route n a.calls a.own)
          ((i, t, omega arith), tt);
    falling =
        rw (suc_right n k) (Descends-append id route _ n a.calls c m (omega arith) a.own a.falling);
    pauses = a.pauses ++ z ∷ [];
    paused = ground (arith, a.paused, append_assoc a.pauses (z ∷ []) w.pauses);
    capped = All-append _ a.pauses (z ∷ []) a.capped (cap, tt);
    between = ground (arith, a.between, length-append a.pauses (z ∷ []));
  }

  pub Adds-none : (id : String) (route : Route) (k n : ℕ) (w : World S) → Adds id route k n w w
  Adds-none id route k n w = record {
    calls = [];
    sent = refl;
    own = tt;
    falling = tt;
    pauses = [];
    paused = refl;
    capped = tt;
    between = (λ h. h, λ h. refl);
  }

  bounded_rounds :
      (o : Opened) (route : Route) (secret body : String) (rounds n : ℕ) (t : AttemptResult)
      (w : World S)
      → Adds o.request_id route rounds n w
          (attempt_loop env ops config backend o route secret body rounds n t w).1
  unfolding attempt_loop
  bounded_rounds o route secret body zero n t w = Adds-none o.request_id route zero n w
  bounded_rounds o route secret body (suc k) n t w =
      let x = perform_attempt env ops config o.request_id route secret body n w in
      let once = perform_attempt-SendsOnce env ops config o.request_id route secret body n w in
      let z = retry_delay env ops config backend x.0 n in
      let y = wait env ops config backend z x.1 in
      let waited = wait-Waited z x.1 in
      let cap = retry_delay_capped x.0 n in
      elim (Bool-cases (x.0.success || (not x.0.retryable || eqb k 0))) [
        | inl stop ↦ rw (stop, attempt_loop) (Adds-last o.request_id route k n w x once)
        | inr go ↦
            let more : 0 < k = ground arith in
            elim (Bool-cases y.0) [
              | inl left ↦
                  rw (go, left, attempt_loop)
                    (Adds-more o.request_id route k n z w y.1 y.1 x once waited cap more
                      (Adds-none o.request_id route k (suc n) y.1))
              | inr stay ↦
                  rw (go, stay, attempt_loop)
                    (Adds-more o.request_id route k n z w y.1 _ x once waited cap more
                      (bounded_rounds o route secret body k (suc n) x.0 y.1))
            ]
      ]

  -- The loop calls the provider at most once a round, under rising attempt numbers from `n` on,
  -- for this request and this target alone, and no pause exceeds the configured maximum. A pause is
  -- only made after an attempt that failed, may be made again and has a round left after it; either
  -- the client leaves in that pause, and then the loop ends with the cancellation, or the next round
  -- follows. The loop ends with the result of the first attempt of any other kind,
  -- and a loop of no round leaves everything as it was.
  pub attempt_loop-Adds :
      (o : Opened) (route : Route) (secret body : String) (rounds n : ℕ) (t : AttemptResult)
      (w : World S)
      → let x = attempt_loop env ops config backend o route secret body rounds n t w in
        Adds o.request_id route rounds n w x.1
        × Rounds env ops config backend
            (perform_attempt env ops config o.request_id route secret body)
            (λ v. false)
            rounds
            n
            w
            x
  attempt_loop-Adds o route secret body rounds n t w = (
    bounded_rounds o route secret body rounds n t w,
    attempt_loop-Rounds env ops config backend o route secret body rounds n t w,
  )
