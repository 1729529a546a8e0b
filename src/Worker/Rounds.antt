-- ===== src/Worker/Rounds.antt =====
-- What a round of the worker records: one observation of each target, in the order of the list.
use mathlib.Core.List.{append_assoc}
use alzette.Shared.{
  append_nil, ℕ, suc, ◌+◌, ◌-◌, ◌≤◌, ◌<◌, String, ◌==◌, ◌≡◌, ◌∙◌, ◌⊎◌, inl, inr, refl, sym, Bool,
  true, false, ◌||◌, not, Option, none, some, List, [], ◌∷◌, ◌++◌, arith, len, leb, ltb, Bool-cases,
  Option-cases, if_cases, if◌then◌else◌,
}
use alzette.Platform.{Time, Duration, ok, err_ne_ok, Result-cases}
use alzette.Platform.Portal.{ProbeTarget, ProbeObservation}
use alzette.Worker.{
  maximum_probe_body, truncate_hour, Worker, World, ProbeReply, no_response, response, Compatible,
  verdict_of_body, verdict, observe_reply, compatible_endpoint, observe, first_observation, probe,
  probe_all, run_once,
}

-- The status, the class and the HTTP status of an observation that was made with a credential.
pub data IsVerdict : String → String → ℕ → Type 0 where
  operational : {n : ℕ} → 200 ≤ n → n < 300 → IsVerdict "operational" "" n
  rejected : {n : ℕ} → (n < 200) ⊎ (300 ≤ n) → IsVerdict "degraded" "probe_rejected" n
  failing : {n : ℕ} → 500 ≤ n → IsVerdict "unavailable" "probe_unavailable" n
  invalid_response : {n : ℕ} → IsVerdict "degraded" "invalid_probe_response" n
  timed_out : IsVerdict "unavailable" "probe_timeout" 0
  unreached : IsVerdict "unavailable" "probe_transport" 0

abbrev HasVerdict : ProbeObservation → Type 0
HasVerdict o =
    ((o.credential_available ≡ false)
      × (o.status ≡ "unknown")
      × (o.error_class ≡ "credential_unavailable"))
    ⊎ ((o.credential_available ≡ true) × IsVerdict o.status o.error_class o.http_status)

-- An observation of the target at this time, fresh for the target's interval.
pub record IsObserved (now : Time) (t : ProbeTarget) (o : ProbeObservation) : Type 0 where
  pub target : o.target_id ≡ t.id
  pub observed : o.observed_at ≡ now
  pub fresh : o.fresh_until ≡ now + t.probe_interval
  pub verdict : HasVerdict o

-- One observation of each target, in their order.
abbrev pub Observes : Time → List ProbeTarget → List ProbeObservation → Type 0
Observes now [] [] = Unit
Observes now (t ∷ ts) (o ∷ os) = IsObserved now t o × Observes now ts os
Observes now _ _ = ⊥

abbrev Sorted : ℕ → String × String → Type 0
Sorted n x = IsVerdict x.0 x.1 n

verdict_of_body-IsVerdict :
    (t : ProbeTarget) (c : Option Compatible) (n : ℕ)
    → 200 ≤ n
    → n < 300
    → Sorted n (verdict_of_body t c)
unfolding verdict_of_body
verdict_of_body-IsVerdict t none n a b = invalid_response
verdict_of_body-IsVerdict t (some c) n a b =
    if_cases (Sorted n) _ _ _ invalid_response (operational a b)

verdict-IsVerdict :
    (decode : String → Option Compatible) (t : ProbeTarget) (n : ℕ) (b : Option String)
    → Sorted n (verdict decode t n b)
unfolding verdict
verdict-IsVerdict decode t n none = invalid_response
verdict-IsVerdict decode t n (some body) = elim (Bool-cases (ltb maximum_probe_body (len body))) [
  | inl y ↦ rw (y, verdict) invalid_response
  | inr k ↦ elim (Bool-cases (ltb n 200 || leb 300 n)) [
    | inr m ↦
        rw (k, m, verdict)
          (verdict_of_body-IsVerdict t (decode body) n (ground (arith, m)) (ground (arith, m)))
    | inl y ↦ elim (Bool-cases (leb 500 n)) [
      | inl z ↦ rw (k, y, z, verdict) (failing (ground (arith, z)))
      | inr z ↦ rw (k, y, z, verdict) (rejected (ground (arith, y)))
    ]
  ]
]

if_false {ℓ} : {A : Type ℓ} (b : Bool) (x y : A) → b ≡ false → (if b then x else y) ≡ y
if_false b x y h = rw (h) refl

module _ {S : Type 0} (worker : Worker S) where
  abbrev Fits : Time → ProbeTarget → ProbeObservation × World S → Type 0
  Fits now t x = IsObserved now t x.0

  observe-IsObserved :
      (t : ProbeTarget) (id : String) (now : Time) (w : World S)
      → let x = observe worker t (first_observation worker id t now) w in
        IsObserved now t x.0 × (x.1.observed ≡ w.observed)
  unfolding observe observe_reply
  observe-IsObserved t id now w =
      let P : ProbeObservation × World S → Type 0 =
        λ x. IsObserved now t x.0 × (x.1.observed ≡ w.observed) in
      if_cases P (not (worker.allowed_secret_refs t.secret_ref)) _ _ (no_credential, refl)
        (elim (Option-cases (worker.secret_lookup t.secret_ref)) [
          | inl n ↦ rw (n) (no_credential, refl)
          | inr (secret, y) ↦ rw (y) (
              if_cases P (secret == "") _ _ (no_credential, refl)
                (elim (Option-cases (compatible_endpoint worker t.base_url)) [
                  | inl n ↦ rw (n) (seen (inr (refl, invalid_response)), refl)
                  | inr (url, z) ↦ rw (z) (replied _ _, refl)
                ]))
        ])
    where
      first : ProbeObservation
      first = first_observation worker id t now

      no_credential : IsObserved now t (record first { error_class = "credential_unavailable" })
      no_credential = record {
        target = refl;
        observed = refl;
        fresh = refl;
        verdict = inl (refl, refl, refl);
      }

      seen :
          {status class : String} {credential : Bool} {n : ℕ} {latency : Duration}
          → let o : ProbeObservation = record first {
            status = status;
            error_class = class;
            credential_available = credential;
            http_status = n;
            latency = latency;
          } in
            HasVerdict o → IsObserved now t o
      seen v = record { target = refl; observed = refl; fresh = refl; verdict = v }

      replied :
          (r : ProbeReply) (latency : Duration)
          → IsObserved now t (observe_reply worker t r latency first)
      replied (no_response true) latency = seen (inr (refl, timed_out))
      replied (no_response false) latency = seen (inr (refl, unreached))
      replied (response n body) latency =
          seen (inr (refl, verdict-IsVerdict worker.decode t n body))

  probe-IsObserved :
      (t : ProbeTarget) (now : Time) (w : World S)
      → (probe worker t now w).0 ≡ ok tt
      → (o : ProbeObservation) × IsObserved now t o
        × ((probe worker t now w).1.observed ≡ w.observed ++ o ∷ [])
  unfolding probe
  probe-IsObserved t now w h = elim (Option-cases (worker.new_id w.draws)) [
    | inl n ↦ absurd (err_ne_ok tt _ (rw (n, probe) at h))
    | inr (id, y) ↦
        let (seen, same) = observe-IsObserved t id now (record w { draws = suc w.draws }) in
        (_, seen, rw (y, probe, same) refl)
  ]

  probe_all-Observes :
      (ts : List ProbeTarget) (now : Time) (w : World S)
      → (probe_all worker ts now w).0 ≡ ok tt
      → (os : List ProbeObservation) × Observes now ts os
        × ((probe_all worker ts now w).1.observed ≡ w.observed ++ os)
  unfolding probe_all
  probe_all-Observes [] now w h = ([], tt, sym (append_nil w.observed))
  probe_all-Observes (t ∷ ts) now w h =
      let x = probe worker t now w in
      elim (Result-cases x.0) [
        | inr (e, r) ↦ absurd (err_ne_ok tt _ (rw (r, probe_all) at h))
        | inl (u, r) ↦
            let (o, seen, grown) = probe-IsObserved t now w r in
            let (os, all, more) = probe_all-Observes ts now x.1 (rw (r, probe_all) at h) in
            (
              o ∷ os,
              (seen, all),
              rw (r, probe_all) (more ∙ rw (grown) (append_assoc w.observed (o ∷ []) os)),
            )
      ]

  -- A round that succeeds with probes enabled records one observation of each target that the store
  -- lists, in the order of the list, at the round's time and fresh for the target's interval. Its status
  -- is "operational" only for a response from 200 to 299, "unknown" only without a credential, and else
  -- goes with one of the classes of its status.
  pub run_once-Observes :
      (w : World S) (targets : List ProbeTarget)
      → let now = worker.clock w.ticks in
        let from = truncate_hour (now - worker.rollup_lookback) in
        let refreshed = (worker.store.refresh_usage_rollups from now now w.store).1 in
        (worker.store.list_probe_targets now refreshed).0 ≡ ok targets
        → worker.probes_enabled ≡ true
        → (run_once worker w).0 ≡ ok tt
        → (os : List ProbeObservation) × Observes (worker.clock w.ticks) targets os
          × ((run_once worker w).1.observed ≡ w.observed ++ os)
  unfolding run_once
  run_once-Observes w targets listed enabled h =
      let now = worker.clock w.ticks in
      let from = truncate_hour (now - worker.rollup_lookback) in
      let x = worker.store.refresh_usage_rollups from now now w.store in
      let y = worker.store.list_probe_targets now x.1 in
      let v : World S = record w { store = y.1; ticks = suc w.ticks } in
      let on : not worker.probes_enabled ≡ false = rw (enabled) refl in
      elim (Result-cases x.0) [
        | inr (e, r) ↦ absurd (err_ne_ok tt _ (rw (r, run_once) at h))
        | inl (n, r) ↦
            let same : run_once worker w ≡ probe_all worker targets now v =
              rw (r, run_once) (if_false _ _ _ on ∙ rw (listed) refl) in
            rw (same) (probe_all-Observes targets now v (rw (same) at h))
      ]
