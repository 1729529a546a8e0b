-- ===== src/Gateway/Stream/Endings.antt =====
-- Each round of the loop over the frames goes on or ends with the call that closes the attempt's
-- entry in the ledger, and the loop ends.
use alzette.Shared.{
  ℕ, zero, suc, ◌+◌, ◌<◌, String, len, ◌==◌, ◌≡◌, inl, inr, refl, ◌||◌, not, List, [], ◌∷◌, ◌++◌,
  length, ltb, arith, if_cases, Option-cases,
}
use Prim.Native.String
use alzette.Shared.Space.{starts_with}
use alzette.Gateway.Outcome.{AttemptResult}
use alzette.Gateway.Chunk.{StreamState, consume}
use alzette.Gateway.World.{StoreOps, Env, Config, World}
use alzette.Gateway.Stream.Frame.{
  SseFrame, FrameEnd, complete, ended, unsupported, join, read_lines, read_frame, trim_return,
  data_part, add_line,
}
use alzette.Gateway.Stream.Sink.{Reading, Progress, write, encode_chunk, encode_end}
use alzette.Gateway.Stream.Rounds.{
  read_failed, Round, succeed, stream_done, stream_chunk, stream_complete, stream_frame,
  stream_loop,
}
use alzette.Gateway.Stream.Closes.{
  Moves, write-Moves, encode_chunk-Moves, encode_end-Moves, Closes, close_stream-Closes,
  fail_stream-Closes, cancel_stream-Closes,
}

-- A frame that is complete took a line at least.
abbrev Shorter : ℕ → SseFrame → Type 0
Shorter n f = f.end ≡ complete → length f.rest < n

read_lines-Shorter :
    (raw : String) (parts lines : List String) (tail : String)
    → Shorter (length lines) (read_lines raw parts lines tail)
unfolding read_lines
read_lines-Shorter raw parts [] tail = λ e. absurd cc
read_lines-Shorter raw parts (line ∷ lines) tail =
    let value = trim_return line in
    let P : SseFrame → Type 0 = Shorter (suc (length lines)) in
    if_cases P (value == "") _ _ (λ e. omega arith)
      (if_cases P (starts_with ":" value) _ _
        (λ e. omega (arith, read_lines-Shorter (add_line raw line) parts lines tail e))
        (if_cases P (starts_with "data:" value) _ _
          (λ e. omega (
            arith,
            read_lines-Shorter (add_line raw line) (parts ++ data_part value ∷ []) lines tail e,
          ))
          (λ e. absurd cc)))

module _ {S : Type 0} (env : Env) (ops : StoreOps S) (config : Config) (c : Reading) where
  -- What a round makes of a frame.
  abbrev Goes : World S → FrameEnd → Round env ops config c → Type 0
  Goes w end (inl r) = Closes env ops config c.id c.started w r
  Goes w end (inr x) = (end ≡ complete) × Moves w x.1

  read_failed-Closes :
      (s : StreamState) (end : FrameEnd) (w v : World S)
      → Moves w v
      → Closes env ops config c.id c.started w (read_failed env ops config c s end v)
  unfolding read_failed
  read_failed-Closes s end w v m =
      let P = Closes env ops config c.id c.started w in
      if_cases P c.cancelled _ _ (cancel_stream-Closes env ops config c.id c.started _ _ w v m) (
        if_cases P c.timed_out _ _
          (fail_stream-Closes env ops config c.id c.started _ _ _ _ _ _ w v m)
          (if_cases P _ _ _ (fail_stream-Closes env ops config c.id c.started _ _ _ _ _ _ w v m)
            (fail_stream-Closes env ops config c.id c.started _ _ _ _ _ _ w v m)))

  stream_done-Closes :
      (f : SseFrame) (p : Progress) (w v : World S)
      → Moves w v
      → Closes env ops config c.id c.started w (stream_done env ops config c f p v)
  unfolding stream_done succeed
  stream_done-Closes f p w v m =
      let P = Closes env ops config c.id c.started w in
      let x = encode_end c.encoder f p.state v in
      let moved = encode_end-Moves c.encoder f p.state w v m in
      if_cases P (not p.state.saw_choice || not p.state.saw_finish) _ _
        (fail_stream-Closes env ops config c.id c.started _ _ _ _ _ _ w v m)
        (elim (Option-cases x.0) [
          | inl n ↦
              rw (n) (fail_stream-Closes env ops config c.id c.started _ _ _ _ _ _ w x.1 moved)
          | inr (t, y) ↦
              let text = String.◌++◌ p.pending t in
              let written = write-Moves env text w x.1 moved in
              rw (y) (
                if_cases P (write env text x.1).0 _ _
                  (close_stream-Closes env ops config c.id c.started _ _ _ _ _ w _ written)
                  (cancel_stream-Closes env ops config c.id c.started _ _ w _ written))
        ])

  stream_chunk-Goes :
      (f : SseFrame) (p : Progress) (w v : World S)
      → Moves w v
      → Goes w complete (stream_chunk env ops config c f p v)
  unfolding stream_chunk
  stream_chunk-Goes f p w v m =
      let P = Goes w complete in
      let y = consume env.decode_chunk (join f.parts) p.state in
      let x = encode_chunk c.encoder f v in
      let moved = encode_chunk-Moves c.encoder f w v m in
      if_cases P (not y.0) _ _ (fail_stream-Closes env ops config c.id c.started _ _ _ _ _ _ w v m)
        (elim (Option-cases x.0) [
          | inl n ↦
              rw (n) (fail_stream-Closes env ops config c.id c.started _ _ _ _ _ _ w x.1 moved)
          | inr (t, y) ↦
              let text = String.◌++◌ p.pending t in
              let written = write-Moves env text w x.1 moved in
              rw (y) (
                if_cases P (write env text x.1).0 _ _ (refl, written)
                  (cancel_stream-Closes env ops config c.id c.started _ _ w _ written))
        ])

  stream_complete-Goes :
      (f : SseFrame) (p : Progress) (parts : List String) (w v : World S)
      → f.parts ≡ parts
      → Moves w v
      → Goes w complete (stream_complete env ops config c f p v)
  unfolding stream_complete
  stream_complete-Goes f p [] w v e m = rw (e) (refl, m)
  stream_complete-Goes f p (x ∷ xs) w v e m =
      let g : SseFrame = record f { parts = x ∷ xs } in
      rw (e) (
        if_cases (Goes w complete) (join (x ∷ xs) == "[DONE]")
          (inl (stream_done env ops config c g p v)) (stream_chunk env ops config c g p v)
          (stream_done-Closes g p w v m) (stream_chunk-Goes g p w v m))

  stream_frame-Goes :
      (f : SseFrame) (p : Progress) (w v : World S)
      → Moves w v
      → Goes w f.end (stream_frame env ops config c f p v)
  unfolding stream_frame
  stream_frame-Goes f p0 w v m =
      let p : Progress = record p0 { total = p0.total + len f.raw } in
      if_cases (Goes w f.end) (ltb config.max_response_bytes p.total) _ _
        (fail_stream-Closes env ops config c.id c.started _ _ _ _ _ _ w v m) (split f.end refl)
    where
      split :
          (end : FrameEnd)
          → f.end ≡ end
          → let p : Progress = record p0 { total = p0.total + len f.raw } in
            Goes w end (elim end as (λ _. Round env ops config c) [
              | complete ↦ stream_complete env ops config c f p v
              | ended ↦ inl (read_failed env ops config c p.state ended v)
              | unsupported ↦ inl (read_failed env ops config c p.state unsupported v)
            ])
      split complete e =
          stream_complete-Goes f (record p0 { total = p0.total + len f.raw }) f.parts w v refl m
      split ended e = read_failed-Closes p0.state ended w v m
      split unsupported e = read_failed-Closes p0.state unsupported w v m

  -- A loop with more fuel than there are lines ends with the call of the ledger that closes the
  -- attempt's entry, and until then only the client's stream, the encoder and the clock have moved.
  pub stream_loop-Closes :
      (fuel : ℕ) (lines : List String) (p : Progress) (w v : World S)
      → length lines < fuel
      → Moves w v
      → Closes env ops config c.id c.started w (stream_loop env ops config c fuel lines p v)
  unfolding stream_loop read_frame
  stream_loop-Closes zero lines p w v enough m = absurd (omega arith)
  stream_loop-Closes (suc fuel) lines p w v enough m =
      let f = read_frame lines c.body.tail in
      next (stream_frame env ops config c f p v) (stream_frame-Goes f p w v m) (λ q u e moved.
        stream_loop-Closes fuel f.rest q w u
          (omega (arith, read_lines-Shorter "" [] lines c.body.tail e)) moved)
    where
      next :
          (r : Round env ops config c)
          → let f = read_frame lines c.body.tail in
            Goes w f.end r
            → ((q : Progress) (u : World S)
                → f.end ≡ complete
                → Moves w u
                → Closes env ops config c.id c.started w
                    (stream_loop env ops config c fuel f.rest q u))
            → Closes env ops config c.id c.started w (elim r as (λ _. AttemptResult × World S) [
              | inl x ↦ x
              | inr (q, u) ↦ stream_loop env ops config c fuel f.rest q u
            ])
      next (inl x) closed go_on = closed
      next (inr (q, u)) (e, moved) go_on = go_on q u e moved
