-- ===== src/Gateway/Stream/Closes.antt =====
-- Whatever a provider streams, an attempt that was begun ends with the call of the ledger that
-- closes its entry. Until then only the client's stream, the encoder and the clock have moved.
use alzette.Shared.{
  ℕ, String, ◌==◌, ◌≡◌, inl, inr, refl, Bool, Option, none, some, List, [], ◌∷◌, ◌++◌, All, length,
  if_cases, Bool-cases,
}
use alzette.Platform.{Time}
use alzette.Gateway.Outcome.{AttemptResult}
use alzette.Gateway.Chunk.{StreamState}
use alzette.Gateway.World.{StoreOps, Written, Encoder, Env, Config, World}
use alzette.Gateway.Attempt.{Closing, close_attempt}
use alzette.Gateway.Stream.Frame.{SseFrame}
use alzette.Gateway.Stream.Sink.{
  close_stream, fail_stream, cancel_stream, transport_error, write, encode_chunk, encode_end,
}

-- What is written in between belongs to the call that was made last.
pub record Moves {S : Type 0} (w v : World S) : Type 0 where
  pub store : v.store ≡ w.store
  pub sent : v.sent ≡ w.sent
  pub pauses : v.pauses ≡ w.pauses
  pub draws : v.draws ≡ w.draws
  pub texts : List Written
  pub written : v.written ≡ texts ++ w.written
  pub own : All (λ c. c.call ≡ length w.sent) texts

module _ {S : Type 0} where
  pub Moves-none : (w : World S) → Moves w w
  Moves-none w = record {
    store = refl;
    sent = refl;
    pauses = refl;
    draws = refl;
    texts = [];
    written = refl;
    own = tt;
  }

  pub write-Moves :
      (env : Env) (text : String) (w v : World S) → Moves w v → Moves w (write env text v).1
  unfolding write
  write-Moves env text w v m = elim (Bool-cases (text == "")) [
    | inl y ↦ rw (y, write) m
    | inr n ↦
        rw (n, write)
          (record {
            store = m.store;
            sent = m.sent;
            pauses = m.pauses;
            draws = m.draws;
            texts = record { call = length v.sent; text = text } ∷ m.texts;
            written = rw (m.written) refl;
            own = (rw (m.sent) refl, m.own);
          })
  ]

  pub encode_chunk-Moves :
      (e : Option Encoder) (f : SseFrame) (w v : World S)
      → Moves w v
      → Moves w (encode_chunk e f v).1
  unfolding encode_chunk
  encode_chunk-Moves none f w v m = m
  encode_chunk-Moves (some e) f w v m = record {
    store = m.store;
    sent = m.sent;
    pauses = m.pauses;
    draws = m.draws;
    texts = m.texts;
    written = m.written;
    own = m.own;
  }

  pub encode_end-Moves :
      (e : Option Encoder) (f : SseFrame) (s : StreamState) (w v : World S)
      → Moves w v
      → Moves w (encode_end e f s v).1
  unfolding encode_end
  encode_end-Moves none f s w v m = m
  encode_end-Moves (some e) f s w v m = m

module _ {S : Type 0} (env : Env) (ops : StoreOps S) (config : Config) (id : String)
    (started : Time) where
  -- The step ends with the call that closes the attempt's entry, from a world that has moved so
  -- far; what the store answers to it is part of that call.
  pub record Closes (w : World S) (x : AttemptResult × World S) : Type 0 where
    pub closing : Closing
    pub result : AttemptResult
    pub before : World S
    pub moved : Moves w before
    pub closed : x ≡ close_attempt env ops config id started closing result before

  pub close_stream-Closes :
      (status class provider_id : String) (n : ℕ) (r : AttemptResult) (w v : World S)
      → Moves w v
      → Closes w (close_stream env ops config id started status class provider_id n r v)
  unfolding close_stream
  close_stream-Closes status class provider_id n r w v m = record {
    closing = _;
    result = r;
    before = v;
    moved = m;
    closed = refl;
  }

  pub fail_stream-Closes :
      (provider_id : String) (n : ℕ) (b : Bool) (class : String) (k : ℕ) (message : String)
      (w v : World S)
      → Moves w v
      → Closes w (fail_stream env ops config id started provider_id n b class k message v)
  unfolding fail_stream
  fail_stream-Closes provider_id n b class k message w v m =
      close_stream-Closes "failed" class provider_id n _ w v m

  pub cancel_stream-Closes :
      (provider_id : String) (n : ℕ) (w v : World S)
      → Moves w v
      → Closes w (cancel_stream env ops config id started provider_id n v)
  unfolding cancel_stream
  cancel_stream-Closes provider_id n w v m =
      close_stream-Closes "cancelled" "client_cancelled" provider_id n _ w v m

  pub transport_error-Closes :
      (c t : Bool) (provider_id : String) (n : ℕ) (w v : World S)
      → Moves w v
      → Closes w (transport_error env ops config id started c t provider_id n v)
  unfolding transport_error
  transport_error-Closes c t provider_id n w v m =
      if_cases (Closes w) c _ _ (cancel_stream-Closes provider_id n w v m) (
        if_cases (Closes w) t _ _ (fail_stream-Closes provider_id n _ _ _ _ w v m)
          (fail_stream-Closes provider_id n _ _ _ _ w v m))
