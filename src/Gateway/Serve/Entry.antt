-- ===== src/Gateway/Serve/Entry.antt =====
-- The whole handler: a request is refused with the store as it was, or it is in the ledger and
-- the answer agrees with its entry, or a stream is the answer.
use alzette.Shared.{
  String, ◌==◌, ◌≡◌, ◌⊎◌, inl, inr, refl, false, some, Bool-cases, if_cases, Option-cases,
}
use alzette.Platform.{
  Result-cases, Principal, Route, RequestStart, has_scope, scope_inference_write, unauthenticated,
}
use alzette.Gateway.World.{StoreOps, Env, Config, World, draw_id}
use alzette.Gateway.Reply.{
  Protocol, protocol_for_path, Response, write_error, Parsed, RequestError, Opened, Ending,
}
use alzette.Gateway.Auth.{authenticate_protocol}
use alzette.Gateway.Finish.{Backend, conclude_target}
use alzette.Gateway.Finish.Agreement.{
  LedgerLaws, Agrees, conclude-Agrees, conclude_target-Agrees, serve_attempts-Agrees,
}
use alzette.Gateway.Stream.Agreement.{Streamed, serve_streaming-answer}
use alzette.Gateway.Serve.{
  HttpRequest, Outside, at_store, serve_prepared, serve_routed, serve_opened, serve_decoded,
  serve_identified, serve_http,
}

module _ {S : Type 0} (env : Env) (ops : StoreOps S) (config : Config) (backend : Backend)
    (outside : Outside S) (laws : LedgerLaws ops) where
  -- The answer agrees with the ledger, or a stream is the answer.
  abbrev pub Answers : String → Response × World S → Type 0
  Answers id x = Agrees env ops config backend laws id x ⊎ Streamed env ops config backend x

  serve_prepared-Answers :
      (o : Opened) (route : Route) (secret : String) (w : World S)
      → Answers o.request_id (serve_prepared env ops config backend outside o route secret w)
  unfolding serve_prepared write_error
  serve_prepared-Answers o route secret w =
      elim (Option-cases (o.parsed.encode route.target.provider_model)) [
        | inl n ↦
            rw (n, serve_prepared)
              (inl (conclude-Agrees env ops config backend laws o _ _ w refl (inr refl)))
        | inr (body, y) ↦
            rw (y, serve_prepared)
              (if_cases (Answers o.request_id) o.parsed.streaming _ _
                (serve_streaming-answer env ops config backend laws o route secret body w)
                (inl (serve_attempts-Agrees env ops config backend laws o route secret body w)))
      ]

  serve_routed-Answers :
      (o : Opened) (route : Route) (w : World S)
      → Answers o.request_id (serve_routed env ops config backend outside o route w)
  unfolding serve_routed write_error
  serve_routed-Answers o route w =
      elim (Option-cases
        (backend.target_endpoint route.target.base_url config.allow_insecure_targets)) [
          | inl n ↦ rw (n, serve_routed) (refused _ _ "degraded" refl refl)
          | inr (endpoint, y) ↦
              elim (Option-cases (backend.secret_lookup route.target.secret_ref)) [
                | inl n ↦ rw (y, n, serve_routed) (refused _ _ "degraded" refl refl)
                | inr (secret, z) ↦ elim (Bool-cases (secret == "")) [
                  | inl k ↦ rw (y, z, k, serve_routed) (refused _ _ "degraded" refl refl)
                  | inr k ↦ rw (y, z, k, serve_routed) (serve_prepared-Answers o route secret w)
                ]
              ]
        ]
    where
      refused :
          (e : Ending) (r : Response) (health : String)
          → e.http_status ≡ r.status
          → r.body ≡ ""
          → Answers o.request_id (conclude_target env ops config backend o e r route health false w)
      refused e r health h b =
          inl (
            conclude_target-Agrees env ops config backend laws o e r route health false w h (inr b))

  pub serve_opened-Answers :
      (o : Opened) (w : World S)
      → Answers o.request_id (serve_opened env ops config backend outside o w)
  unfolding serve_opened write_error
  serve_opened-Answers o w = elim (Bool-cases (has_scope o.principal scope_inference_write)) [
    | inr n ↦
        rw (n, serve_opened)
          (inl (conclude-Agrees env ops config backend laws o _ _ w refl (inr refl)))
    | inl y ↦ elim (Result-cases (ops.resolve_route o.principal o.parsed.model w.store)) [
      | inr (e, r) ↦
          rw (y, r, serve_opened)
            (inl (conclude-Agrees env ops config backend laws o _ _ w refl (inr refl)))
      | inl (route, r) ↦
          elim (Result-cases (ops.set_inference_request_route o.request_id route.id w.store).0) [
            | inr (e, b) ↦
                rw (y, r, b, serve_opened)
                  (inl (conclude-Agrees env ops config backend laws o _ _ _ refl (inr refl)))
            | inl (u, b) ↦ rw (y, r, b, serve_opened) (serve_routed-Answers o route _)
          ]
    ]
  ]

  serve_decoded-Answers :
      (p : Protocol) (id : String) (who : Principal) (parsed : Parsed) (w : World S)
      → Answers id (serve_decoded env ops config backend outside p id who parsed w)
  unfolding serve_decoded write_error
  serve_decoded-Answers p id who parsed w =
      let start : RequestStart = record {
        id = id;
        principal = who;
        model_alias = parsed.model;
        started_at = env.now w.ticks;
      } in
      let o : Opened = record {
        protocol = p;
        request_id = id;
        started_at = env.now w.ticks;
        principal = who;
        parsed = parsed;
      } in
      elim (Result-cases (ops.create_inference_request start w.store).0) [
        | inr (e, r) ↦ rw (r, serve_decoded) (inl (inl (refl, refl, refl)))
        | inl (u, r) ↦ rw (r, serve_decoded) (serve_opened-Answers o _)
      ]

  serve_identified-Answered :
      (r : HttpRequest) (p : Protocol) (id : String) (w : World S)
      → let x = serve_identified env ops config backend outside r p id w in
        ((x.1.store ≡ w.store) × (x.0.body ≡ "")) ⊎ Answers id x
  unfolding serve_identified write_error
  serve_identified-Answered r p id w = elim (Bool-cases (r.method == "POST")) [
    | inr n ↦ rw (n, serve_identified) (inl (refl, refl))
    | inl y ↦ elim (Bool-cases (r.raw_query == "")) [
      | inr n ↦ rw (y, n, serve_identified) (inl (refl, refl))
      | inl z ↦
          elim (Result-cases (
            authenticate_protocol outside.sha256 (λ d. ops.authenticate d w.store)
              (at_store outside.authenticate_human w.store) r.headers p)) [
                | inr (unauthenticated, a) ↦ rw (y, z, a, serve_identified) (inl (refl, refl))
                | inr (e, a) ↦ rw (y, z, a, serve_identified) (inl (refl, refl))
                | inl (who, a) ↦ rw (y, z, a, serve_identified) (decoded who (r.decoded p))
              ]
    ]
  ]
    where
      decoded :
          (who : Principal) (d : RequestError ⊎ Parsed)
          → let x = elim d as (λ _. Response × World S) [
            | inl e ↦ (write_error p e.status e.code "invalid_request_error" e.message id, w)
            | inr parsed ↦ serve_decoded env ops config backend outside p id who parsed w
          ] in
            ((x.1.store ≡ w.store) × (x.0.body ≡ "")) ⊎ Answers id x
      decoded who (inl e) = inl (refl, refl)
      decoded who (inr parsed) = inr (serve_decoded-Answers p id who parsed w)

  -- For a store that keeps the outcome of a completed request: a request is refused with the store
  -- as it was and no completion, or it is answered for the identifier `id` that was drawn for it.
  -- Then the client was sent a part of a stream at least; or is told by 503 that the ledger failed; or
  -- the ledger holds under `id` a completed request with the HTTP status of the answer, as "succeeded"
  -- if the answer carries a completion.
  pub serve_http_answer :
      (r : HttpRequest) (w : World S)
      → let x = serve_http env ops config backend outside r w in
        ((x.1.store ≡ w.store) × (x.0.body ≡ ""))
        ⊎ ((id : String) × (env.new_id w.draws "req" ≡ some id) × Answers id x)
  unfolding serve_http write_error
  serve_http_answer r w = elim (Option-cases (protocol_for_path r.path)) [
    | inl n ↦ rw (n, serve_http) (inl (refl, refl))
    | inr (p, y) ↦ elim (Option-cases (env.new_id w.draws "req")) [
      | inl n ↦ rw (y, n, serve_http) (inl (refl, refl))
      | inr (id, z) ↦
          rw (y, z, serve_http)
            (elim (serve_identified-Answered r p id (draw_id env "req" w).1) [
              | inl refused ↦ inl refused
              | inr answer ↦ inr (id, refl, answer)
            ])
    ]
  ]
