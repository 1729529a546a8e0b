-- ===== src/Gateway/Request/Admissible.antt =====
-- What validate of request.go lets through.
use alzette.Shared.{
  ℕ, ◌≤◌, String, len, ◌==◌, eq_iff, ◌≡◌, ◌≢◌, ◌⊎◌, refl, inl, inr, Bool, true, false, ◌&&◌, ◌||◌,
  not, Option, none, some, List, ltb, eqb, length, arith,
}
use alzette.Shared.Int.{ℤ, pos, negsuc}
use alzette.Gateway.Reply.{RequestError}
use alzette.Gateway.Request.Messages.{validate_messages, is_some}
use alzette.Gateway.Request.Tools.{validate_tools, validate_tool_choice}
use alzette.Gateway.Request.{
  ChatRequest, reject, check, streaming, max_output_tokens, out_of_range, is_effort, validate_stop,
  validate_stream_options, validate_tooling, validate, unit_float, double_unit_float,
}

-- What is known of a request where validation returns no error.
pub record IsAdmissible (is_object : String → Bool) (r : ChatRequest) : Type 0 where
  pub model : (r.model ≢ "") × (len r.model ≤ 128)
  pub messages : (1 ≤ length r.messages) × (length r.messages ≤ 128)
  pub conversation : validate_messages is_object r.messages ≡ none
  pub limit :
      (z : ℤ) → max_output_tokens r ≡ some z → (n : ℕ) × (z ≡ pos n) × (1 ≤ n) × (n ≤ 1000000)
  pub one_limit : (r.max_tokens ≡ none) ⊎ (r.max_completion_tokens ≡ none)
  pub usage : r.stream_options ≢ none → streaming r ≡ true
  pub tools :
      (names : List String) × (validate_tools r.tools ≡ inr names)
      × (validate_tool_choice r.tool_choice names ≡ none)

reject-none :
    (b : Bool) (e : RequestError) (rest : Option RequestError)
    → reject b (some e) rest ≡ none
    → (b ≡ false) × (rest ≡ none)
reject-none true e rest h = ground arith
reject-none false e rest h = (refl, h)

check-none : (o rest : Option RequestError) → check o rest ≡ none → (o ≡ none) × (rest ≡ none)
check-none none rest h = (refl, h)
check-none (some e) rest h = ground arith

in_range :
    (o : Option ℤ) (z : ℤ)
    → out_of_range 1 1000000 o ≡ false
    → o ≡ some z
    → (n : ℕ) × (z ≡ pos n) × (1 ≤ n) × (n ≤ 1000000)
in_range none z h e = ground arith
in_range (some (negsuc n)) z h e = ground arith
in_range (some (pos n)) z h e = (n, ground arith, ground arith, ground arith)

not_both : (a b : Option ℤ) → is_some a && is_some b ≡ false → (a ≡ none) ⊎ (b ≡ none)
not_both none b h = inl refl
not_both (some x) none h = inr refl
not_both (some x) (some y) h = ground arith

validate_tooling-names :
    (r : ChatRequest)
    → validate_tooling r ≡ none
    → (names : List String) × (validate_tools r.tools ≡ inr names)
      × (validate_tool_choice r.tool_choice names ≡ none)
unfolding validate_tooling
validate_tooling-names r h = go (validate_tools r.tools) refl
  where
    go :
        (v : RequestError ⊎ List String)
        → validate_tools r.tools ≡ v
        → (names : List String) × (validate_tools r.tools ≡ inr names)
          × (validate_tool_choice r.tool_choice names ≡ none)
    go (inl e) q = ground arith
    go (inr names) q = (names, q, ground arith)

stream_options-streaming :
    (r : ChatRequest)
    → validate_stream_options r ≡ none
    → r.stream_options ≢ none
    → streaming r ≡ true
unfolding validate_stream_options
stream_options-streaming r h n = ground arith

-- An admitted request names a model by at most 128 bytes, has 1 to 128 messages that the validation
-- of messages admits, at most one of the two limits on the output, which lies from 1 to 1000000,
-- stream options only with a stream, and tools and a choice of tool that their validations admit.
pub validate-IsAdmissible :
    (is_object : String → Bool) (r : ChatRequest)
    → validate is_object r ≡ none
    → IsAdmissible is_object r
unfolding validate
validate-IsAdmissible is_object r h0 =
    let (model, h1) = reject-none (r.model == "" || ltb 128 (len r.model)) _ _ h0 in
    let (count, h2) =
      reject-none (eqb (length r.messages) 0 || ltb 128 (length r.messages)) _ _ h1 in
    let (conversation, h3) = check-none (validate_messages is_object r.messages) _ h2 in
    let (temperature, h4) = reject-none (out_of_range 0 double_unit_float r.temperature) _ _ h3 in
    let (top_p, h5) = reject-none (out_of_range 0 unit_float r.top_p) _ _ h4 in
    let (one, h6) = reject-none (is_some r.max_tokens && is_some r.max_completion_tokens) _ _ h5 in
    let (limit, h7) = reject-none (out_of_range 1 1000000 (max_output_tokens r)) _ _ h6 in
    let (effort, h8) =
      reject-none (not (r.reasoning_effort == "") && not (is_effort r.reasoning_effort)) _ _ h7 in
    let (stop, h9) = check-none (validate_stop r.stop) _ h8 in
    let (options, h10) = check-none (validate_stream_options r) _ h9 in
    record {
      model = ground (arith, eq_iff r.model "");
      messages = ground arith;
      conversation = conversation;
      limit = λ z e. in_range (max_output_tokens r) z limit e;
      one_limit = not_both r.max_tokens r.max_completion_tokens one;
      usage = stream_options-streaming r options;
      tools = validate_tooling-names r h10;
    }
