-- ===== src/Worker.antt =====
-- internal/worker/worker.go: a round of the worker. The store, the secrets, url.Parse and String, the
-- HTTP client, the stopwatch and the decoding of JSON are parameters; the n-th call's reply and latency
-- are functions of n. Run, the ticker around the rounds, is left out. http.NewRequest is taken to accept
-- an address that url.Parse has returned.
pub mod Rounds
use Prim.Native.String
use alzette.Shared.{
  ℕ, zero, suc, ◌+◌, ◌-◌, ◌*◌, ◌%◌, String, len, ◌==◌, Bool, true, false, ◌&&◌, ◌||◌, not, Option,
  none, some, List, [], ◌∷◌, ◌++◌, length, ltb, leb, eqb, if◌then◌else◌,
}
use alzette.Shared.Int.{ℤ, pos, negsuc, at_most}
use alzette.Shared.Space.{trim_space, trim_right}
use alzette.Platform.{Time, Duration, Result, ok, err, Error, other}
use alzette.Platform.Portal.{ProbeTarget, ProbeObservation}
use alzette.Provisioning.Spec.{is_char}

-- RollupStore
pub record RollupStore (S : Type 0) : Type 0 where
  pub refresh_usage_rollups : Time → Time → Time → S → Result ℤ × S
  pub list_probe_targets : Time → S → Result (List ProbeTarget) × S
  pub record_probe_observation : ProbeObservation → S → Result (Unit {0}) × S

-- What compatibleEndpoint reads of a parsed URL.
pub record BaseUrl : Type 0 where
  pub scheme : String
  pub host : String
  pub has_user : Bool
  pub raw_query : String
  pub fragment : String
  pub path : String

-- The request of a probe, with its prompt and one token at most.
pub record ProbeRequest : Type 0 where
  pub endpoint : String
  pub secret : String
  pub model : String
  pub timeout : Duration

-- No response (whether the deadline had passed), or a status and the first bytes of the body, at most
-- one more than the limit; `none` is an error of reading.
pub data ProbeReply : Type 0 where
  no_response : Bool → ProbeReply
  response : ℕ → Option String → ProbeReply

-- The decoded body: the role of each choice's message.
pub record Compatible : Type 0 where
  pub id : String
  pub model : String
  pub roles : List String

pub record Worker (S : Type 0) : Type 0 where
  pub store : RollupStore S
  pub clock : ℕ → Time
  pub new_id : ℕ → Option String
  pub rollup_interval : Duration
  pub rollup_lookback : Duration
  pub probes_enabled : Bool
  pub allow_insecure_targets : Bool
  pub allowed_secret_refs : String → Bool
  pub secret_lookup : String → Option String
  pub parse_url : String → Option BaseUrl
  pub url_text : BaseUrl → String
  pub send : ℕ → ProbeRequest → ProbeReply
  pub latency : ℕ → Duration
  pub decode : String → Option Compatible

-- The store, how often the clock was read, an identifier drawn and a target called, and the recorded
-- observations, the first one first.
pub record World (S : Type 0) : Type 0 where
  pub store : S
  pub ticks : ℕ
  pub draws : ℕ
  pub sends : ℕ
  pub observed : List ProbeObservation

abbrev pub second : ℕ
second = 1000000000

abbrev pub hour : ℕ
hour = 3600 * second

abbrev pub maximum_probe_body : ℕ
maximum_probe_body = 65536

-- The intervals of New after its defaults.
unfoldable pub valid_intervals : Duration → Duration → Bool
valid_intervals interval lookback =
    let i = if eqb interval 0 then 60 * second else interval in
    let l = if eqb lookback 0 then 48 * hour else lookback in
    not (ltb i (10 * second) || (ltb l hour || ltb (31 * 24 * hour) l))

-- time.Time.Truncate(time.Hour): times count from the zero time.
abbrev pub truncate_hour : Time → Time
truncate_hour t = t - t % hour

unfoldable pub probe_timeout : ℤ → Duration
probe_timeout (negsuc n) = 15 * second
probe_timeout (pos n) = if eqb n 0 || ltb (15 * second) n then 15 * second else n

-- The status and the class of a reply's observation.
unfoldable pub verdict_of_body : ProbeTarget → Option Compatible → String × String
unfolding trim_space
verdict_of_body target none = ("degraded", "invalid_probe_response")
verdict_of_body target (some c) =
    let is_assistant : Bool = elim c.roles [ [] ↦ false | role ∷ roles ↦ role == "assistant" ] in
    if c.id == ""
      || (not (trim_space c.model == trim_space target.provider_model) || not is_assistant)
    then ("degraded", "invalid_probe_response")
    else ("operational", "")

unfoldable pub verdict :
    (String → Option Compatible) → ProbeTarget → ℕ → Option String → String × String
unfolding verdict_of_body
verdict decode target status none = ("degraded", "invalid_probe_response")
verdict decode target status (some body) =
    if ltb maximum_probe_body (len body)
    then ("degraded", "invalid_probe_response")
    else if ltb status 200 || leb 300 status
    then (if leb 500 status
        then ("unavailable", "probe_unavailable")
        else ("degraded", "probe_rejected"))
    else verdict_of_body target (decode body)

module _ {S : Type 0} (worker : Worker S) where
  unfoldable pub compatible_endpoint : String → Option String
  unfolding trim_right
  compatible_endpoint base = elim (worker.parse_url base) [
    | none ↦ none
    | some u ↦
        if u.host == "" || (u.has_user || (not (u.raw_query == "") || not (u.fragment == "")))
        then none
        else if not (u.scheme == "https")
            && not (worker.allow_insecure_targets && u.scheme == "http")
        then none
        else some (
            worker.url_text (record u {
              path = String.◌++◌ (trim_right (λ c. is_char b'/' c) u.path) "/chat/completions";
            }))
  ]

  -- The observation after the call of the target.
  unfoldable pub observe_reply :
      ProbeTarget → ProbeReply → Duration → ProbeObservation → ProbeObservation
  unfolding verdict
  observe_reply target (no_response is_late) latency o = record o {
    latency = latency;
    credential_available = true;
    status = "unavailable";
    error_class = if is_late then "probe_timeout" else "probe_transport";
  }
  observe_reply target (response status body) latency o =
      let (s, class) = verdict worker.decode target status body in
      record o {
        latency = latency;
        credential_available = true;
        http_status = status;
        status = s;
        error_class = class;
      }

  -- What probe observes of a target, from the observation that it begins with.
  unfoldable pub observe : ProbeTarget → ProbeObservation → World S → ProbeObservation × World S
  unfolding compatible_endpoint probe_timeout observe_reply
  observe target o w =
      let unavailable = record o { error_class = "credential_unavailable" } in
      if not (worker.allowed_secret_refs target.secret_ref)
      then (unavailable, w)
      else elim (worker.secret_lookup target.secret_ref) [
        | none ↦ (unavailable, w)
        | some secret ↦
            if secret == "" then (unavailable, w) else elim (compatible_endpoint target.base_url) [
              | none ↦ (
                record o {
                  status = "degraded";
                  credential_available = true;
                  error_class = "invalid_probe_response";
                },
                w,
              )
              | some endpoint ↦
                  let request : ProbeRequest = record {
                    endpoint = endpoint;
                    secret = secret;
                    model = target.provider_model;
                    timeout = probe_timeout target.timeout;
                  } in
                  (
                    observe_reply target (worker.send w.sends request) (worker.latency w.sends) o,
                    record w { sends = suc w.sends },
                  )
            ]
      ]

  abbrev pub first_observation : String → ProbeTarget → Time → ProbeObservation
  first_observation id target at = record {
    id = id;
    target_id = target.id;
    observed_at = at;
    fresh_until = at + target.probe_interval;
    status = "unknown";
    credential_available = false;
    http_status = 0;
    error_class = "";
    latency = 0;
  }

  abbrev pub record_observation : ProbeObservation → World S → Result (Unit {0}) × World S
  record_observation o w =
      let (r, s) = worker.store.record_probe_observation o w.store in
      (r, record w { store = s; observed = w.observed ++ o ∷ [] })

  unfoldable pub probe : ProbeTarget → Time → World S → Result (Unit {0}) × World S
  unfolding observe
  probe target at w = elim (worker.new_id w.draws) [
    | none ↦ (err other, record w { draws = suc w.draws })
    | some id ↦
        let (o, w1) =
          observe target (first_observation id target at) (record w { draws = suc w.draws }) in
        record_observation o w1
  ]

  -- The loop over the targets.
  unfoldable pub probe_all : List ProbeTarget → Time → World S → Result (Unit {0}) × World S
  unfolding probe
  probe_all [] at w = (ok tt, w)
  probe_all (target ∷ targets) at w =
      let (r, w1) = probe target at w in
      let rest = probe_all targets at w1 in elim r [ err e ↦ (err e, w1) | ok u ↦ rest ]

  unfoldable pub run_once : World S → Result (Unit {0}) × World S
  unfolding probe_all
  run_once w =
      let now = worker.clock w.ticks in
      let from = truncate_hour (now - worker.rollup_lookback) in
      let (r, s) = worker.store.refresh_usage_rollups from now now w.store in
      let w1 : World S = record w { store = s; ticks = suc w.ticks } in
      elim r [
        | err e ↦ (err e, w1)
        | ok n ↦
            if not worker.probes_enabled
            then (ok tt, w1)
            else (let (listed, t) = worker.store.list_probe_targets now s in
                let w2 : World S = record w1 { store = t } in
                elim listed [ err e ↦ (err e, w2) | ok targets ↦ probe_all targets now w2 ])
      ]
