-- ===== src/Provisioning/Accepted.antt =====
-- What Validate lets through.
use alzette.Shared.{
  ℕ, ◌≤◌, String, eq_iff, ◌≡◌, ◌≢◌, ◌⊎◌, inl, inr, Bool, true, Option, some, List, eqb, arith,
  Option-cases, Bool-cases, subst, sym,
}
use alzette.Shared.Int.{ℤ, pos, negsuc}
use alzette.Platform.{Result, ok, Error, invalid}
use alzette.Provisioning.{
  trimmed, valid_names, valid_capacity, target_url, valid_limits, probe_interval_of, validate_rest,
  validate_spec,
}
use alzette.Provisioning.Spec.{ProvisionSpec, Url, is_slug, is_evidence}
use alzette.Provisioning.Plan.{validate_service_plan}
use alzette.Provisioning.Scopes.{validate_scopes}

pub record IsAccepted (v : ProvisionSpec) : Type 0 where
  pub organisation : is_slug v.organisation_slug ≡ true
  pub project : is_slug v.project_slug ≡ true
  pub environment : is_slug v.environment_slug ≡ true
  pub mode : (v.capacity_mode ≡ "shared") ⊎ (v.capacity_mode ≡ "dedicated")
  pub pilot : v.execution_class ≡ "external_pilot" → v.capacity_mode ≡ "shared"
  pub evidence : v.capacity_mode ≡ "dedicated" → is_evidence v.capacity_evidence_ref ≡ true
  pub no_evidence : v.capacity_mode ≢ "dedicated" → v.capacity_evidence_ref ≡ ""
  pub patient : 100000000 ≤ v.target_timeout
  pub impatient : v.target_timeout ≤ 60000000000
  pub tried : 1 ≤ v.max_attempts
  pub bounded : v.max_attempts ≤ 4
  pub probed : (n : ℕ) × (v.probe_interval ≡ pos n) × (30000000000 ≤ n) × (n ≤ 86400000000000)

probe_interval_of-bounds :
    (z interval : ℤ)
    → probe_interval_of z ≡ some interval
    → (n : ℕ) × (interval ≡ pos n) × (30000000000 ≤ n) × (n ≤ 86400000000000)
unfolding probe_interval_of
probe_interval_of-bounds (negsuc n) interval h = ground arith
probe_interval_of-bounds (pos n) interval h = elim (Bool-cases (eqb n 0)) [
  | inl y ↦ (300000000000, ground (arith, y), ground arith, ground arith)
  | inr y ↦ (n, ground (arith, y), ground (arith, y), ground (arith, y))
]

-- What the last checks add to a specification, and that they passed.
record Passed (parse_url : String → Option Url) (insecure : Bool) (spec v : ProvisionSpec)
    : Type 0 where
  url : String
  interval : ℤ
  scopes : List String
  probed : probe_interval_of spec.probe_interval ≡ some interval
  limits : valid_limits spec ≡ true
  result : v ≡ record spec { target_base_url = url; probe_interval = interval; scopes = scopes }

ok_injective : {A : Type 0} (x y : A) → Result.ok x ≡ ok y → x ≡ y
ok_injective x y h = cc

err_ok : {A : Type 0} (e : Error) (x : A) → Result.err e ≡ ok x → ⊥
err_ok e x h = cc

validate_rest-Passed :
    (parse_url : String → Option Url) (insecure : Bool) (spec v : ProvisionSpec)
    → validate_rest parse_url insecure spec ≡ ok v
    → Passed parse_url insecure spec v
unfolding validate_rest
validate_rest-Passed parse_url insecure spec v =
    elim (Option-cases (target_url parse_url insecure spec.target_base_url)) [
      | inl n ↦ rw (n, validate_rest) (λ h. absurd (err_ok invalid v h))
      | inr (url, y) ↦ elim (Bool-cases (valid_limits spec)) [
        | inr n ↦ rw (y, n, validate_rest) (λ h. absurd (err_ok invalid v h))
        | inl limits ↦ elim (Option-cases (probe_interval_of spec.probe_interval)) [
          | inl n ↦ rw (y, limits, n, validate_rest) (λ h. absurd (err_ok invalid v h))
          | inr (interval, z) ↦ elim (Bool-cases (validate_service_plan spec)) [
            | inr n ↦ rw (y, limits, z, n, validate_rest) (λ h. absurd (err_ok invalid v h))
            | inl plan ↦ elim (Option-cases (validate_scopes spec.scopes)) [
              | inl n ↦ rw (y, limits, z, plan, n, validate_rest) (λ h. absurd (err_ok invalid v h))
              | inr (scopes, w) ↦
                  rw (y, limits, z, plan, w, validate_rest)
                    (λ h. record {
                      url = url;
                      interval = interval;
                      scopes = scopes;
                      probed = z;
                      limits = limits;
                      result = sym (ok_injective _ v h);
                    })
            ]
          ]
        ]
      ]
    ]

valid_names-slugs :
    (v : ProvisionSpec)
    → valid_names v ≡ true
    → (is_slug v.organisation_slug ≡ true)
      × (is_slug v.project_slug ≡ true)
      × (is_slug v.environment_slug ≡ true)
unfolding valid_names
valid_names-slugs v h = ground arith

abbrev IsCapacity : ProvisionSpec → Type 0
IsCapacity v =
    ((v.capacity_mode ≡ "shared") ⊎ (v.capacity_mode ≡ "dedicated"))
    × (v.execution_class ≡ "external_pilot" → v.capacity_mode ≡ "shared")
    × (v.capacity_mode ≡ "dedicated" → is_evidence v.capacity_evidence_ref ≡ true)
    × (v.capacity_mode ≢ "dedicated" → v.capacity_evidence_ref ≡ "")

valid_capacity-IsCapacity : (v : ProvisionSpec) → valid_capacity v ≡ true → IsCapacity v
unfolding valid_capacity
valid_capacity-IsCapacity v h = ground (
  arith,
  eq_iff v.capacity_mode "shared",
  eq_iff v.capacity_mode "dedicated",
  eq_iff v.execution_class "external_pilot",
  eq_iff v.capacity_evidence_ref "",
)

valid_limits-bounds :
    (v : ProvisionSpec)
    → valid_limits v ≡ true
    → (100000000 ≤ v.target_timeout)
      × (v.target_timeout ≤ 60000000000)
      × (1 ≤ v.max_attempts)
      × (v.max_attempts ≤ 4)
unfolding valid_limits
valid_limits-bounds v h = ground arith

valid-IsAccepted :
    (spec : ProvisionSpec) (url : String) (interval : ℤ) (scopes : List String)
    → valid_names spec ≡ true
    → valid_capacity spec ≡ true
    → valid_limits spec ≡ true
    → probe_interval_of spec.probe_interval ≡ some interval
    → IsAccepted (record spec { target_base_url = url; probe_interval = interval; scopes = scopes })
valid-IsAccepted spec url interval scopes names capacity limits probe =
    let (organisation, project, environment) = valid_names-slugs spec names in
    let (mode, pilot, evidence, no_evidence) = valid_capacity-IsCapacity spec capacity in
    let (patient, impatient, tried, bounded) = valid_limits-bounds spec limits in
    record {
      organisation = organisation;
      project = project;
      environment = environment;
      mode = mode;
      pilot = pilot;
      evidence = evidence;
      no_evidence = no_evidence;
      patient = patient;
      impatient = impatient;
      tried = tried;
      bounded = bounded;
      probed = probe_interval_of-bounds spec.probe_interval interval probe;
    }

-- An accepted specification names its tenant by slugs; its capacity is shared or dedicated, shared
-- for an external pilot, with an evidence reference just if it is dedicated; a call may take from
-- 100 ms to a minute, one to four attempts are made, and a probe comes every 30 s to 24 h.
pub validate_spec-IsAccepted :
    (parse_url : String → Option Url) (insecure : Bool) (spec v : ProvisionSpec)
    → validate_spec parse_url insecure spec ≡ ok v
    → IsAccepted v
unfolding validate_spec
validate_spec-IsAccepted parse_url insecure spec v h =
    elim (Bool-cases (valid_names (trimmed spec))) [
      | inr n ↦ ground (arith, n)
      | inl names ↦ elim (Bool-cases (valid_capacity (trimmed spec))) [
        | inr n ↦ ground (arith, names, n)
        | inl capacity ↦
            let passed =
              validate_rest-Passed parse_url insecure (trimmed spec) v
                (ground (arith, names, capacity)) in
            subst IsAccepted (sym passed.result) (
              valid-IsAccepted (trimmed spec) passed.url passed.interval passed.scopes names
                capacity passed.limits passed.probed)
      ]
    ]
