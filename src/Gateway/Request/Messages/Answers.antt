-- ===== src/Gateway/Request/Messages/Answers.antt =====
-- What validateMessages admits: the identifiers of the tool calls and of the results, counted.
use alzette.Shared.{
  Sum-cases, ℕ, ◌+◌, ◌≤◌, ◌≡◌, ◌≢◌, ◌⊎◌, refl, inl, inr, String, ◌==◌, Bool, true, false, none,
  some, List, [], ◌∷◌, ◌++◌, contains, if◌then◌else◌, arith, eq_iff, ne→eq_false, Bool-cases,
}
use alzette.Shared.Dict.{Dict, get, put, erase, get-put, get-erase}
use alzette.Gateway.Request.Messages.{
  ToolCall, Message, Progress, check_call, check_calls, check_plain, check_assistant, check_tool,
  check_message, check_messages, validate_messages, is_empty,
}

abbrev pub count : String → List String → ℕ
count x [] = 0
count x (a ∷ rest) = (if a == x then 1 else 0) + count x rest

abbrev pub ids : List ToolCall → List String
ids [] = []
ids (c ∷ cs) = c.id ∷ ids cs

-- The calls that the messages make, and the calls that they answer.
abbrev pub call_count : String → List Message → ℕ
call_count x [] = 0
call_count x (m ∷ ms) = count x (ids m.tool_calls) + call_count x ms

abbrev pub answers : String → Message → ℕ
answers x m = if m.role == "tool" then if m.tool_call_id == x then 1 else 0 else 0

abbrev pub answer_count : String → List Message → ℕ
answer_count x [] = 0
answer_count x (m ∷ ms) = answers x m + answer_count x ms

-- A call that waits for its result, as a number.
abbrev waits : Dict String → String → ℕ
waits d x = elim (get d x) [ none ↦ 0 | some v ↦ 1 ]

-- After c calls of the identifier x and r answers.
abbrev Sound : Progress → String → ℕ → ℕ → Type 0
Sound p x c r = (waits p.outstanding x + r ≡ c) × (c ≡ (if contains p.seen x then 1 else 0))

waits-put :
    (d : Dict String) (k v x : String) → waits (put d k v) x ≡ (if k == x then 1 else waits d x)
waits-put d k v x = ground (arith, get-put d k x v)

waits-erase :
    (d : Dict String) (k x : String) → waits (erase d k) x ≡ (if k == x then 0 else waits d x)
waits-erase d k x = ground (arith, get-erase d k x)

check_call-Sound :
    (is_object : String → Bool) (p q : Progress) (c : ToolCall) (x : String) (n r : ℕ)
    → check_call is_object p c ≡ inr q
    → Sound p x n r
    → Sound q x (n + count x (c.id ∷ [])) r
unfolding check_call
check_call-Sound is_object p q c x n r h s =
    ground (arith, eq_iff c.id x, waits-put p.outstanding c.id c.name x)

check_calls-Sound :
    (is_object : String → Bool) (p q : Progress) (cs : List ToolCall) (x : String) (n r : ℕ)
    → check_calls is_object p cs ≡ inr q
    → Sound p x n r
    → Sound q x (n + count x (ids cs)) r
unfolding check_calls
check_calls-Sound is_object p q [] x n r h s = ground arith
check_calls-Sound is_object p q (c ∷ cs) x n r h s = elim (Sum-cases (check_call is_object p c)) [
  | inl (e, y) ↦ ground (arith, y)
  | inr (o, y) ↦
      let first = check_call-Sound is_object p o c x n r y s in
      let rest = check_calls-Sound is_object o q cs x _ r (ground (arith, y)) first in ground arith
]

no_calls : (cs : List ToolCall) (x : String) → is_empty cs ≡ true → count x (ids cs) ≡ 0
no_calls [] x h = refl
no_calls (c ∷ cs) x h = ground arith

check_plain-Sound :
    (p q : Progress) (m : Message) (x : String) (n r : ℕ)
    → check_plain p m ≡ inr q
    → Sound p x n r
    → Sound q x (n + count x (ids m.tool_calls)) r
unfolding check_plain
check_plain-Sound p q m x n r h s =
    let empty : is_empty m.tool_calls ≡ true = ground arith in
    ground (arith, no_calls m.tool_calls x empty)

check_assistant-Sound :
    (is_object : String → Bool) (p q : Progress) (m : Message) (x : String) (n r : ℕ)
    → check_assistant is_object p m ≡ inr q
    → Sound p x n r
    → Sound q x (n + count x (ids m.tool_calls)) r
unfolding check_assistant
check_assistant-Sound is_object p q m x n r h s =
    check_calls-Sound is_object p q m.tool_calls x n r (ground arith) s

check_tool-Sound :
    (p q : Progress) (m : Message) (x : String) (n r : ℕ)
    → check_tool p m ≡ inr q
    → Sound p x n r
    → Sound q x (n + count x (ids m.tool_calls)) (r + (if m.tool_call_id == x then 1 else 0))
unfolding check_tool
check_tool-Sound p q m x n r h s =
    let empty : is_empty m.tool_calls ≡ true = ground arith in
    ground (
      arith,
      no_calls m.tool_calls x empty,
      eq_iff m.tool_call_id x,
      waits-erase p.outstanding m.tool_call_id x,
    )

answers_tool :
    (m : Message) (x : String)
    → (m.role == "tool") ≡ true
    → answers x m ≡ (if m.tool_call_id == x then 1 else 0)
answers_tool m x h = rw h refl

answers_other : (m : Message) (x : String) → (m.role == "tool") ≡ false → answers x m ≡ 0
answers_other m x h = rw h refl

check_message-Sound :
    (is_object : String → Bool) (p q : Progress) (m : Message) (x : String) (n r : ℕ)
    → check_message is_object p m ≡ inr q
    → Sound p x n r
    → Sound q x (n + count x (ids m.tool_calls)) (r + answers x m)
unfolding check_message
check_message-Sound is_object p q m x n r h s = elim (Bool-cases (m.role == "tool")) [
  | inl y ↦
      let role : m.role ≡ "tool" = ground (arith, y, eq_iff m.role "tool") in
      let not_system : (m.role == "system") ≡ false = rw role refl in
      let not_user : (m.role == "user") ≡ false = rw role refl in
      let not_assistant : (m.role == "assistant") ≡ false = rw role refl in
      let tool : check_tool p m ≡ inr q = ground (arith, y, not_system, not_user, not_assistant) in
      rw (answers_tool m x y) (check_tool-Sound p q m x n r tool s)
  | inr y ↦
      let other : (check_plain p m ≡ inr q) ⊎ (check_assistant is_object p m ≡ inr q) = ground (
        arith,
        y,
        eq_iff m.role "tool",
        eq_iff m.role "system",
        eq_iff m.role "user",
        eq_iff m.role "assistant",
      ) in
      let plain = check_plain-Sound p q m x n r in
      let assistant = check_assistant-Sound is_object p q m x n r in
      let none_answered = answers_other m x y in
      elim other [
        | inl e ↦ let a = plain e s in ground (arith, a, none_answered)
        | inr e ↦ let a = assistant e s in ground (arith, a, none_answered)
      ]
]

check_messages-Sound :
    (is_object : String → Bool) (p q : Progress) (ms : List Message) (x : String) (n r : ℕ)
    → check_messages is_object p ms ≡ inr q
    → Sound p x n r
    → Sound q x (n + call_count x ms) (r + answer_count x ms)
unfolding check_messages
check_messages-Sound is_object p q [] x n r h s = ground arith
check_messages-Sound is_object p q (m ∷ ms) x n r h s =
    elim (Sum-cases (check_message is_object p m)) [
      | inl (e, y) ↦ ground (arith, y)
      | inr (o, y) ↦
          let first = check_message-Sound is_object p o m x n r y s in
          let rest = check_messages-Sound is_object o q ms x _ _ (ground (arith, y)) first in
          ground arith
    ]

no_waits : (d : Dict String) (x : String) → is_empty d ≡ true → waits d x ≡ 0
unfolding get
no_waits [] x h = refl
no_waits (e ∷ d) x h = ground arith

-- The loop over a list of messages in two parts.
check_messages-◌++◌ :
    (is_object : String → Bool) (p q : Progress) (ms rest : List Message)
    → check_messages is_object p (ms ++ rest) ≡ inr q
    → (o : Progress) × (check_messages is_object p ms ≡ inr o)
      × (check_messages is_object o rest ≡ inr q)
unfolding check_messages
check_messages-◌++◌ is_object p q [] rest h = (p, refl, h)
check_messages-◌++◌ is_object p q (m ∷ ms) rest h = elim (Sum-cases (check_message is_object p m)) [
  | inl (e, y) ↦ ground (arith, y)
  | inr (o, y) ↦
      rw (y, check_messages) (check_messages-◌++◌ is_object o q ms rest (ground (arith, y)))
]

abbrev start : Progress
start = record { outstanding = []; seen = [] }

start-Sound : (x : String) → Sound start x 0 0
unfolding get
start-Sound x = (refl, refl)

-- A message of another role is only taken when no call waits.
waits_for_none :
    (is_object : String → Bool) (p q : Progress) (m : Message) (rest : List Message)
    → check_messages is_object p (m ∷ rest) ≡ inr q
    → m.role ≢ "tool"
    → is_empty p.outstanding ≡ true
unfolding check_messages check_message
waits_for_none is_object p q m rest h other =
    let differs = ne→eq_false m.role "tool" other in ground (arith, differs)

accepted :
    (is_object : String → Bool) (ms : List Message)
    → validate_messages is_object ms ≡ none
    → (q : Progress) × (check_messages is_object start ms ≡ inr q) × (is_empty q.outstanding ≡ true)
unfolding validate_messages
accepted is_object ms h = elim (Sum-cases (check_messages is_object start ms)) [
  | inl (e, y) ↦ ground (arith, y)
  | inr (q, y) ↦ (q, y, ground (arith, y))
]

-- In an admitted list every call is answered exactly once, and no two calls share an identifier.
pub validate_messages-answered :
    (is_object : String → Bool) (ms : List Message)
    → validate_messages is_object ms ≡ none
    → (x : String) → (answer_count x ms ≡ call_count x ms) × (call_count x ms ≤ 1)
validate_messages-answered is_object ms h x =
    let (q, ran, empty) = accepted is_object ms h in
    let sound = check_messages-Sound is_object start q ms x 0 0 ran (start-Sound x) in
    let none_waits = no_waits q.outstanding x empty in ground arith

-- In an admitted list, at each beginning of it, no identifier has more results than calls.
pub validate_messages-in_order :
    (is_object : String → Bool) (ms rest : List Message)
    → validate_messages is_object (ms ++ rest) ≡ none
    → (x : String) → answer_count x ms ≤ call_count x ms
validate_messages-in_order is_object ms rest h x =
    let (q, ran, empty) = accepted is_object (ms ++ rest) h in
    let (o, first, second) = check_messages-◌++◌ is_object start q ms rest ran in
    let sound = check_messages-Sound is_object start o ms x 0 0 first (start-Sound x) in
    ground arith

-- In an admitted list all calls before a message of another role than "tool" are answered before
-- that message.
pub validate_messages-settled :
    (is_object : String → Bool) (ms rest : List Message) (m : Message)
    → validate_messages is_object (ms ++ (m ∷ rest)) ≡ none
    → m.role ≢ "tool"
    → (x : String) → answer_count x ms ≡ call_count x ms
validate_messages-settled is_object ms rest m h other x =
    let (q, ran, empty) = accepted is_object (ms ++ (m ∷ rest)) h in
    let (o, first, second) = check_messages-◌++◌ is_object start q ms (m ∷ rest) ran in
    let sound = check_messages-Sound is_object start o ms x 0 0 first (start-Sound x) in
    let settled : is_empty o.outstanding ≡ true =
      waits_for_none is_object o q m rest second other in
    let none_waits = no_waits o.outstanding x settled in ground arith
