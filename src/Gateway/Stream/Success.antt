-- ===== src/Gateway/Stream/Success.antt =====
-- A streaming attempt that succeeds: what its result says was read from the frames of the stream.
use alzette.Shared.{
  ℕ, zero, suc, ◌+◌, String, len, ◌==◌, ◌≡◌, ◌≢◌, ◌⊎◌, eq_iff, inl, inr, refl, Bool, true, ◌||◌,
  not, Option, List, [], ◌∷◌, ltb, arith, if_cases, Bool-cases, Option-cases,
}
use Prim.Native.String
use alzette.Platform.{Time, Result-cases, AttemptFinish}
use alzette.Gateway.Outcome.{AttemptResult, elapsed}
use alzette.Gateway.Chunk.{Chunk, StreamState, consume}
use alzette.Gateway.World.{StoreOps, Env, Config, World}
use alzette.Gateway.Attempt.{Closing, close_attempt}
use alzette.Gateway.Stream.Frame.{
  SseFrame, FrameEnd, complete, ended, unsupported, join, read_frame,
}
use alzette.Gateway.Stream.Sink.{
  Reading, Progress, close_stream, fail_stream, cancel_stream, write, encode_chunk, encode_end,
}
use alzette.Gateway.Stream.Rounds.{
  read_failed, Round, succeed, stream_done, stream_chunk, stream_complete, stream_frame,
  stream_loop,
}

-- The frame is the event that ends the stream.
abbrev pub IsDone : SseFrame → Type 0
IsDone f = (f.end ≡ complete) × (join f.parts ≡ "[DONE]")

-- A frame without data changes nothing.
abbrev pub IsSkipped : SseFrame → StreamState → StreamState → Type 0
IsSkipped f s t = (f.end ≡ complete) × (f.parts ≡ []) × (t ≡ s)

-- The data of a frame is a chunk that is accepted, and makes the next state.
abbrev pub IsConsumed : (String → Option Chunk) → SseFrame → StreamState → StreamState → Type 0
IsConsumed decode f s t =
    (f.end ≡ complete)
    × (f.parts ≢ [])
    × (join f.parts ≢ "[DONE]")
    × ((consume decode (join f.parts) s).0 ≡ true)
    × (t ≡ (consume decode (join f.parts) s).1)

-- The stream's lines are read frame by frame up to the event that ends it: each frame before it is
-- complete, and has no data or a chunk that is accepted. From the first state they lead to the last.
pub data Reads (decode : String → Option Chunk) (tail : String)
    : List String → StreamState → StreamState → Type 0 where
  done :
      (lines : List String) (s : StreamState)
      → IsDone (read_frame lines tail)
      → Reads decode tail lines s s
  skipped :
      (lines : List String) (s t u : StreamState)
      → IsSkipped (read_frame lines tail) s t
      → Reads decode tail (read_frame lines tail).rest t u
      → Reads decode tail lines s u
  consumed :
      (lines : List String) (s t u : StreamState)
      → IsConsumed decode (read_frame lines tail) s t
      → Reads decode tail (read_frame lines tail).rest t u
      → Reads decode tail lines s u

-- In the state a choice and a reason for the end were seen, and the result says what the state has.
pub record Ends (state : StreamState) (r : AttemptResult) : Type 0 where
  pub choice : state.saw_choice ≡ true
  pub finish : state.saw_finish ≡ true
  pub model : r.model ≡ state.model
  pub provider_id : r.provider_id ≡ state.provider_id
  pub usage : r.usage ≡ state.usage
  pub finality : r.finality ≡ state.finality

abbrev pub IsRead :
    (String → Option Chunk) → String → List String → StreamState → AttemptResult → Type 0
IsRead decode tail lines s r =
    (state : StreamState) × Reads decode tail lines s state × Ends state r

-- What holds of the result of an attempt that succeeds.
module _ {S : Type 0} (env : Env) (ops : StoreOps S) (config : Config) (c : Reading)
    (Q : AttemptResult → Type 0) where
  abbrev Honest : AttemptResult × World S → Type 0
  Honest x = x.0.success ≡ true → Q x.0

  close_attempt-Honest :
      (id : String) (t : Time) (k : Closing) (r : AttemptResult) (w : World S)
      → (r.success ≡ true → Q r)
      → Honest (close_attempt env ops config id t k r w)
  unfolding close_attempt
  close_attempt-Honest id t k r w h =
      let f : AttemptFinish = record {
        id = id;
        completed_at = env.now w.ticks;
        status = k.status;
        provider_http_status = k.http_status;
        error_class = k.class;
        duration = elapsed t (env.now (suc w.ticks));
        provider_request_id = k.provider_id;
        usage = k.usage;
        usage_finality = k.finality;
      } in
      elim (Result-cases (ops.complete_provider_attempt f w.store).0) [
        | inl (u, e) ↦ rw (e, close_attempt) h
        | inr (u, e) ↦ rw (e, close_attempt) (λ p. absurd cc)
      ]

  fail_stream-Honest :
      (provider_id : String) (n : ℕ) (b : Bool) (class : String) (k : ℕ) (m : String) (w : World S)
      → Honest (fail_stream env ops config c.id c.started provider_id n b class k m w)
  unfolding fail_stream close_stream
  fail_stream-Honest provider_id n b class k m w =
      close_attempt-Honest c.id c.started _ _ w (λ e. absurd cc)

  cancel_stream-Honest :
      (provider_id : String) (n : ℕ) (w : World S)
      → Honest (cancel_stream env ops config c.id c.started provider_id n w)
  unfolding cancel_stream close_stream
  cancel_stream-Honest provider_id n w = close_attempt-Honest c.id c.started _ _ w (λ e. absurd cc)

  read_failed-Honest :
      (t : StreamState) (end : FrameEnd) (w : World S)
      → Honest (read_failed env ops config c t end w)
  unfolding read_failed
  read_failed-Honest t end w = if_cases Honest c.cancelled _ _ (cancel_stream-Honest _ _ w) (
      if_cases Honest c.timed_out _ _ (fail_stream-Honest _ _ _ _ _ _ w) (
        if_cases Honest _ _ _ (fail_stream-Honest _ _ _ _ _ _ w)
          (fail_stream-Honest _ _ _ _ _ _ w)))

module _ {S : Type 0} (env : Env) (ops : StoreOps S) (config : Config) (c : Reading) where
  stream_done-Honest :
      (f : SseFrame) (p : Progress) (w : World S)
      → Honest env ops config c (Ends p.state) (stream_done env ops config c f p w)
  unfolding stream_done succeed close_stream
  stream_done-Honest f p w =
      let Q = Ends p.state in
      let bad = not p.state.saw_choice || not p.state.saw_finish in
      let x = encode_end c.encoder f p.state w in
      elim (Bool-cases bad) [
        | inl y ↦ rw (y, stream_done) (fail_stream-Honest env ops config c Q _ _ _ _ _ _ w)
        | inr good ↦ elim (Option-cases x.0) [
          | inl n ↦
              rw (good, n, stream_done) (fail_stream-Honest env ops config c Q _ _ _ _ _ _ x.1)
          | inr (t, y) ↦
              let v = write env (String.◌++◌ p.pending t) x.1 in
              rw (good, y, stream_done)
                (if_cases (Honest env ops config c Q) v.0 _ _
                  (close_attempt-Honest env ops config c Q c.id c.started _ _ v.1 (λ e. record {
                    choice = ground (arith, good);
                    finish = ground (arith, good);
                    model = refl;
                    provider_id = refl;
                    usage = refl;
                    finality = refl;
                  }))
                  (cancel_stream-Honest env ops config c Q _ _ v.1))
        ]
      ]

  -- A success ends at the event for the end; and the loop goes on after a frame that is skipped or
  -- consumed.
  abbrev Leads : SseFrame → StreamState → Round env ops config c → Type 0
  Leads f s (inl x) = Honest env ops config c (λ r. IsDone f × Ends s r) x
  Leads f s (inr x) = IsSkipped f s x.0.state ⊎ IsConsumed env.decode_chunk f s x.0.state

  failed :
      (f : SseFrame) (s : StreamState) (provider_id : String) (n : ℕ) (b : Bool) (class : String)
      (k : ℕ) (m : String) (w : World S)
      → Leads f s (inl (fail_stream env ops config c.id c.started provider_id n b class k m w))
  failed f s = fail_stream-Honest env ops config c (λ r. IsDone f × Ends s r)

  stream_chunk-Leads :
      (f : SseFrame) (p : Progress) (w : World S)
      → f.end ≡ complete
      → f.parts ≢ []
      → join f.parts ≢ "[DONE]"
      → Leads f p.state (stream_chunk env ops config c f p w)
  unfolding stream_chunk
  stream_chunk-Leads f p w end some_data more =
      let y = consume env.decode_chunk (join f.parts) p.state in
      let x = encode_chunk c.encoder f w in
      elim (Bool-cases y.0) [
        | inr n ↦ rw (n, stream_chunk) (failed f p.state _ _ _ _ _ _ w)
        | inl fine ↦ elim (Option-cases x.0) [
          | inl n ↦ rw (fine, n, stream_chunk) (failed f p.state _ _ _ _ _ _ x.1)
          | inr (t, e) ↦
              rw (fine, e, stream_chunk)
                (if_cases (Leads f p.state) (write env (String.◌++◌ p.pending t) x.1).0 _ _
                  (inr (end, some_data, more, fine, refl))
                  (cancel_stream-Honest env ops config c (λ r. IsDone f × Ends p.state r) _ _ _))
        ]
      ]

  stream_complete-Leads :
      (f : SseFrame) (p : Progress) (parts : List String) (w : World S)
      → f.end ≡ complete
      → f.parts ≡ parts
      → Leads f p.state (stream_complete env ops config c f p w)
  unfolding stream_complete
  stream_complete-Leads f p [] w end e = rw (e) (inl (end, refl, refl))
  stream_complete-Leads f p (x ∷ xs) w end e =
      let g : SseFrame = record f { parts = x ∷ xs } in
      elim (Bool-cases (join (x ∷ xs) == "[DONE]")) [
        | inl y ↦ rw (e, y) (λ h. ((end, (eq_iff _ _).0 y), stream_done-Honest g p w h))
        | inr n ↦
            rw (e, n)
              (stream_chunk-Leads g p w end (λ k. cc)
                (λ k. ground (arith, n, k, eq_iff (join (x ∷ xs)) "[DONE]")))
      ]

  stream_frame-Leads :
      (f : SseFrame) (p : Progress) (w : World S)
      → Leads f p.state (stream_frame env ops config c f p w)
  unfolding stream_frame
  stream_frame-Leads f p0 w =
      let p : Progress = record p0 { total = p0.total + len f.raw } in
      if_cases (Leads f p.state) (ltb config.max_response_bytes p.total) _ _
        (failed f p.state _ _ _ _ _ _ w) (split f.end refl)
    where
      split :
          (end : FrameEnd)
          → f.end ≡ end
          → let p : Progress = record p0 { total = p0.total + len f.raw } in
            Leads f p.state (elim end as (λ _. Round env ops config c) [
              | complete ↦ stream_complete env ops config c f p w
              | ended ↦ inl (read_failed env ops config c p.state ended w)
              | unsupported ↦ inl (read_failed env ops config c p.state unsupported w)
            ])
      split complete e =
          stream_complete-Leads f (record p0 { total = p0.total + len f.raw }) f.parts w e refl
      split ended e =
          read_failed-Honest env ops config c (λ r. IsDone f × Ends p0.state r) p0.state ended w
      split unsupported e =
          read_failed-Honest env ops config c (λ r. IsDone f × Ends p0.state r) p0.state unsupported
            w

  stream_loop-Honest :
      (fuel : ℕ) (lines : List String) (p : Progress) (w : World S)
      → Honest env ops config c
          (IsRead env.decode_chunk c.body.tail lines p.state)
          (stream_loop env ops config c fuel lines p w)
  unfolding stream_loop read_frame
  stream_loop-Honest zero lines p w = λ e. absurd cc
  stream_loop-Honest (suc fuel) lines p w =
      let f = read_frame lines c.body.tail in
      following (stream_frame env ops config c f p w) (stream_frame-Leads f p w)
        (λ q v. stream_loop-Honest fuel f.rest q v)
    where
      following :
          (r : Round env ops config c)
          → Leads (read_frame lines c.body.tail) p.state r
          → let f = read_frame lines c.body.tail in
            ((q : Progress) (v : World S)
              → Honest env ops config c
                  (IsRead env.decode_chunk c.body.tail f.rest q.state)
                  (stream_loop env ops config c fuel f.rest q v))
            → Honest env ops config c
                (IsRead env.decode_chunk c.body.tail lines p.state)
                (elim r as (λ _. AttemptResult × World S) [
                  | inl x ↦ x
                  | inr (q, v) ↦ stream_loop env ops config c fuel f.rest q v
                ])
      following (inl x) last go_on h =
          let (end, told) = last h in (p.state, done lines p.state end, told)
      following (inr (q, v)) (inl skip) go_on h =
          let (state, read, told) = go_on q v h in
          (state, skipped lines p.state q.state state skip read, told)
      following (inr (q, v)) (inr chunk) go_on h =
          let (state, read, told) = go_on q v h in
          (state, consumed lines p.state q.state state chunk read, told)

-- A streaming attempt only succeeds if the lines of its stream are read, frame by frame, up to the
-- event that ends it, and each frame before that is complete and has either no data or a chunk that
-- is accepted. In the state that the accepted chunks lead to, one after the other, a choice and a
-- reason for the end were seen, and the model, the provider's identifier and the usage of the result
-- are those of that state.
pub stream_loop-IsRead :
    {S : Type 0} (env : Env) (ops : StoreOps S) (config : Config) (c : Reading) (fuel : ℕ)
    (lines : List String) (p : Progress) (w : World S)
    → (stream_loop env ops config c fuel lines p w).0.success ≡ true
    → IsRead env.decode_chunk c.body.tail lines p.state
        (stream_loop env ops config c fuel lines p w).0
stream_loop-IsRead env ops config c fuel lines p w h =
    stream_loop-Honest env ops config c fuel lines p w h
