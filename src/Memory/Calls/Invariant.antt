-- ===== src/Memory/Calls/Invariant.antt =====
-- Every sequence of calls keeps the numbering of attempts.
use alzette.Shared.{◌≡◌, subst, inl, inr, List, [], ◌∷◌, arith}
use alzette.Shared.Dict.{put}
use alzette.Memory.Defs.{Store}
use alzette.Memory.Ledger.{started_request, started_attempt}
use alzette.Memory.Numbering.{
  IsNumbered, put_fresh-IsNumbered, put_request-IsNumbered, put_attempt-IsNumbered,
  add_attempt-IsNumbered,
}
use alzette.Memory.Calls.{Call, step, run}
use alzette.Memory.Calls.Transition.{
  Transition, unchanged, begun, bound, finished, tried, settled, observed, bound_request,
  finished_request, finished_attempt, step-Transition,
}

abbrev pub IsSound : Store → Type 0
IsSound s = IsNumbered s.requests s.attempts

pub Transition-IsSound : {s t : Store} {c : Call} → Transition s c t → IsSound s → IsSound t
unfolding started_request started_attempt bound_request finished_request finished_attempt
Transition-IsSound (unchanged c) v = v
Transition-IsSound (begun start q missing e) v =
    put_fresh-IsNumbered v start.id q missing (ground arith) (ground arith)
Transition-IsSound (bound i j r q rt mdl found routed known may opened unrouted untried e) v =
    put_request-IsNumbered v i r q found (ground arith) (ground arith) (inr untried)
Transition-IsSound (finished f r q found opened e) v =
    put_request-IsNumbered v f.id r q found (ground arith) (ground arith)
      (inl (ground arith, ground arith))
Transition-IsSound {s} (tried start r q a fresh found opened routed target next e1 e2) v =
    let of_request : a.inference_request_id ≡ r.id =
      ground (arith, v.keyed start.inference_request_id r found) in
    let added : IsNumbered (put s.requests a.inference_request_id q) (put s.attempts start.id a) =
      add_attempt-IsNumbered v start.id a r q fresh (ground arith) (ground arith) (ground arith)
        (ground arith) routed (ground arith) (ground arith) (ground arith) (ground arith) in
    subst (λ k. IsNumbered (put s.requests k q) (put s.attempts start.id a)) of_request added
Transition-IsSound (settled f a b found opened e) v =
    put_attempt-IsNumbered v f.id a b found (ground arith) (ground arith) (ground arith)
      (ground arith)
Transition-IsSound (observed i status checked_at successful t u there e) v = v

-- From a sound ledger, every sequence of calls leads to a sound ledger.
pub run-IsSound : (s : Store) (cs : List Call) → IsSound s → IsSound (run s cs)
unfolding run
run-IsSound s [] v = v
run-IsSound s (c ∷ cs) v = run-IsSound (step s c) cs (Transition-IsSound (step-Transition s c) v)
