-- ===== src/Verification.antt =====
-- internal/governance/verification_command.go, `verificationWords` and `environmentAssignment`, and
-- `IsVerificationCommand` of internal/governance/readiness.go. A text is the list of its characters'
-- codes.
pub mod Simple
pub mod Quoted
mod Tests
use Prim.Native.Char.{code}
use gopherharness.Base.{
  ℕ, zero, suc, ◌==◌, ltb, leb, String, Bool, true, false, not, ◌&&◌, ◌||◌, Option, none, some,
  List, [], ◌∷◌, ◌++◌, if◌then◌else◌, is_some,
}

abbrev pub Text : Type 0
Text = List ℕ

unfoldable pub text : String → Text
text String.[] = []
text (String.◌∷◌ c s) = code c ∷ text s

unfoldable pub same_text : Text → Text → Bool
same_text [] [] = true
same_text (c ∷ cs) (d ∷ ds) = c == d && same_text cs ds
same_text _ _ = false

-- The variables of the loop.
pub record Reading : Type 0 where
  pub words : List Text
  pub word : Text
  pub quote : Option ℕ
  pub started : Bool

-- '\n', '\r' and 0
abbrev pub is_break : ℕ → Bool
is_break c = c == 10 || c == 13 || c == 0

-- `$`, the backquote and the backslash, which a shell reads inside double quotes.
abbrev pub is_active : ℕ → Bool
is_active c = c == 36 || c == 96 || c == 92

-- The characters of operators, substitutions and comments: ; & | < > ( ) { } $ ` \ #
abbrev pub is_meta : ℕ → Bool
is_meta c =
    c == 59
    || c == 38
    || c == 124
    || c == 60
    || c == 62
    || c == 40
    || c == 41
    || c == 123
    || c == 125
    || is_active c
    || c == 35

abbrev pub is_quote : ℕ → Bool
is_quote c = c == 39 || c == 34

abbrev pub is_blank : ℕ → Bool
is_blank c = c == 32 || c == 9

abbrev pub write : ℕ → Reading → Reading
write c r = record r { word = r.word ++ (c ∷ []) }

-- A character between quotes `q`.
unfoldable pub quoted : ℕ → ℕ → Reading → Option Reading
quoted q c r =
    if c == q
    then some (record r { quote = none })
    else (if q == 34 && is_active c then none else some (write c r))

abbrev pub end_word : Reading → Reading
end_word r =
    if r.started
    then record r { words = r.words ++ (r.word ∷ []); word = []; started = false }
    else r

unfoldable pub plain : ℕ → Reading → Option Reading
plain c r =
    if is_quote c
    then some (record r { quote = some c; started = true })
    else (if is_blank c
        then some (end_word r)
        else (if is_meta c then none else some (record (write c r) { started = true })))

abbrev pub by_quote : Option ℕ → ℕ → Reading → Option Reading
by_quote (some q) c r = quoted q c r
by_quote none c r = plain c r

-- The body of the loop.
unfoldable pub step : ℕ → Reading → Option Reading
step c r = if is_break c then none else by_quote r.quote c r

abbrev pub and_then : {A : Type 0} → Option Reading → (Reading → Option A) → Option A
and_then none f = none
and_then (some r) f = f r

unfoldable pub read_text : Text → Reading → Option Reading
read_text [] r = some r
read_text (c ∷ cs) r = and_then (step c r) (read_text cs)

abbrev pub finish : Reading → Option (List Text)
finish r = if is_some r.quote then none else some (end_word r).words

abbrev pub start : Reading
start = record { words = []; word = []; quote = none; started = false }

unfoldable pub verification_words : Text → Option (List Text)
verification_words cs = and_then (read_text cs start) finish

abbrev is_letter : ℕ → Bool
is_letter c = c == 95 || (leb 65 c && leb c 90) || (leb 97 c && leb c 122)

abbrev is_digit : ℕ → Bool
is_digit c = leb 48 c && leb c 57

-- The loop over the rest of the key, up to `=`.
unfoldable pub key_then_equals : Text → Bool
key_then_equals [] = false
key_then_equals (c ∷ cs) = c == 61 || (is_letter c || is_digit c) && key_then_equals cs

unfoldable pub environment_assignment : Text → Bool
environment_assignment [] = false
environment_assignment (c ∷ cs) = is_letter c && key_then_equals cs

unfoldable pub skip_assignments : List Text → List Text
skip_assignments [] = []
skip_assignments (w ∷ ws) =
    let rest = skip_assignments ws in if environment_assignment w then rest else w ∷ ws

-- `filepath.Base` of an absolute path: what stands behind its last slash that is not at the end.
unfoldable pub base_name : Text → Text → Text
base_name last [] = last
base_name last (c ∷ []) = if c == 47 then last else last ++ (c ∷ [])
base_name last (c ∷ d ∷ cs) =
    let fresh = base_name [] (d ∷ cs) in
    let more = base_name (last ++ (c ∷ [])) (d ∷ cs) in
    let same = base_name last (d ∷ cs) in
    if c == 47 then (if d == 47 then same else fresh) else more

abbrev or_slash : Text → Text
or_slash [] = 47 ∷ []
or_slash (c ∷ cs) = c ∷ cs

unfoldable pub command_name : Text → Text
command_name [] = []
command_name (c ∷ cs) = if c == 47 then or_slash (base_name [] (c ∷ cs)) else c ∷ cs

abbrev nth : ℕ → List Text → Text
nth n [] = []
nth zero (w ∷ ws) = w
nth (suc n) (w ∷ ws) = nth n ws

abbrev one_of : Text → List String → Bool
one_of w [] = false
one_of w (s ∷ ss) = same_text w (text s) || one_of w ss

unfoldable pub is_check : List Text → Bool
is_check ws =
    let name = command_name (nth 0 ws) in
    let second = nth 1 ws in
    let third = nth 2 ws in
    if same_text name (text "go")
    then one_of second ("test" ∷ "vet" ∷ "build" ∷ [])
    else (if one_of name ("pytest" ∷ "pytest-3" ∷ "staticcheck" ∷ [])
        then true
        else (if same_text name (text "golangci-lint")
            then same_text second (text "run")
            else (if one_of name ("python" ∷ "python3" ∷ [])
                then same_text second (text "-m") && same_text third (text "pytest")
                else (if one_of name ("npm" ∷ "pnpm" ∷ "yarn" ∷ [])
                    then same_text second (text "test")
                      || (same_text second (text "run") && same_text third (text "test"))
                    else (if one_of name ("cargo" ∷ "mvn" ∷ "gradle" ∷ "./gradlew" ∷ [])
                        then same_text second (text "test")
                        else same_text name (text "make")
                          && one_of second ("test" ∷ "check" ∷ "build" ∷ []))))))

abbrev checked : List Text → Bool
checked [] = false
checked (w ∷ ws) = is_check (w ∷ ws)

abbrev classify : Option (List Text) → Bool
classify none = false
classify (some ws) = checked (skip_assignments ws)

unfoldable pub is_verification_command : Text → Bool
is_verification_command cs = classify (verification_words cs)
