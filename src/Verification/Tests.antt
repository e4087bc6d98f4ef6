-- ===== src/Verification/Tests.antt =====
-- Commands of internal/governance/verification_command.go.
use gopherharness.Base.{◌≡◌, refl, true, false, none, some, List, [], ◌∷◌}
use gopherharness.Verification.{Text, text, verification_words, is_verification_command}
use gopherharness.Verification.Quoted.{render, verification_words-render}
use gopherharness.Verification.Simple.{Read, is_verification_command-Read}

abbrev tested : Text
tested = text "CGO_ENABLED=0 /usr/bin/go test ./..."

tested_counts : is_verification_command tested ≡ true
unfolding is_verification_command verification_words gopherharness.Verification.read_text text
    gopherharness.Verification.step gopherharness.Verification.plain
    gopherharness.Verification.quoted gopherharness.Verification.skip_assignments
    gopherharness.Verification.environment_assignment gopherharness.Verification.key_then_equals
    gopherharness.Verification.is_check gopherharness.Verification.same_text
    gopherharness.Verification.command_name gopherharness.Verification.base_name
tested_counts = refl

-- A failure that is hidden does not count.
hidden_failure : is_verification_command (text "go test ./... || true") ≡ false
unfolding is_verification_command verification_words gopherharness.Verification.read_text text
    gopherharness.Verification.step gopherharness.Verification.plain
    gopherharness.Verification.quoted gopherharness.Verification.skip_assignments
    gopherharness.Verification.environment_assignment gopherharness.Verification.key_then_equals
    gopherharness.Verification.is_check gopherharness.Verification.same_text
    gopherharness.Verification.command_name gopherharness.Verification.base_name
hidden_failure = refl

is_verification_command-Read_example : Read none tested
is_verification_command-Read_example = is_verification_command-Read tested tested_counts

abbrev two_words : List Text
two_words = text "go" ∷ text "a || b" ∷ []

verification_words-render_example : verification_words (render two_words) ≡ some two_words
unfolding text
verification_words-render_example =
    verification_words-render two_words
      ((refl, (refl, tt)), ((refl, (refl, (refl, (refl, (refl, (refl, tt)))))), tt))
