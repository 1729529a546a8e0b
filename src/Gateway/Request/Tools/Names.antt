-- ===== src/Gateway/Request/Tools/Names.antt =====
-- The names of the tools that validateTools admits.
use alzette.Shared.{
  ℕ, ◌+◌, ◌≤◌, String, ◌==◌, eq_iff, ◌≡◌, refl, inr, false, List, [], ◌∷◌, length, contains, arith,
  if◌then◌else◌,
}
use alzette.Gateway.Request.Tools.{Tool, check_tools, validate_tools}

-- How often a text stands in a list.
abbrev pub times : String → List String → ℕ
times x [] = 0
times x (a ∷ rest) = (if a == x then 1 else 0) + times x rest

abbrev pub names_of : List Tool → List String
names_of [] = []
names_of (t ∷ ts) = t.name ∷ names_of ts

absent-times : (xs : List String) (x : String) → contains xs x ≡ false → times x xs ≡ 0
absent-times [] x h = refl
absent-times (a ∷ xs) x h = ground (arith, eq_iff a x, absent-times xs x)

check_tools_next :
    (names out : List String) (t : Tool) (ts : List Tool)
    → check_tools names (t ∷ ts) ≡ inr out
    → (contains names t.name ≡ false) × (check_tools (t.name ∷ names) ts ≡ inr out)
unfolding check_tools
check_tools_next names out t ts h = ground arith

check_tools-times :
    (names out : List String) (ts : List Tool) (x : String)
    → check_tools names ts ≡ inr out
    → times x names ≤ 1
    → (times x out ≡ times x names + times x (names_of ts)) × (times x out ≤ 1)
unfolding check_tools
check_tools-times names out [] x h once = ground arith
check_tools-times names out (t ∷ ts) x h once =
    let (new, next) = check_tools_next names out t ts h in
    let absent = absent-times names t.name new in
    let bound : times x (t.name ∷ names) ≤ 1 = ground (arith, eq_iff t.name x) in
    let rest = check_tools-times (t.name ∷ names) out ts x next bound in ground arith

-- Admitted tools are at most 128 and have different names, and just these names are passed on.
pub validate_tools-names :
    (ts : List Tool) (out : List String)
    → validate_tools ts ≡ inr out
    → (length ts ≤ 128)
      × ((x : String) → (times x out ≡ times x (names_of ts)) × (times x (names_of ts) ≤ 1))
unfolding validate_tools
validate_tools-names ts out h =
    let checked : check_tools [] ts ≡ inr out = ground arith in
    (
      ground arith,
      λ x. let each = check_tools-times [] out ts x checked (ground arith) in ground arith,
    )
