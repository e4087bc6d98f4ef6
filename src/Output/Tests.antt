-- ===== src/Output/Tests.antt =====
-- Outputs of internal/sandbox/output.go in small pieces.
use gopherharness.Base.{ℕ, zero, suc, ◌++◌, ◌≡◌, refl, arith, some, List, [], ◌∷◌}
use gopherharness.Output.{snapshot, write_all, new_bounded_output, marker}
use gopherharness.Output.Bounded.{all_bytes, excerpt, snapshot-excerpt}

abbrev zeros : ℕ → List ℕ
zeros zero = []
zeros (suc n) = 7 ∷ zeros n

abbrev pieces : List (List ℕ)
pieces = zeros 30 ∷ (1 ∷ 2 ∷ 3 ∷ []) ∷ zeros 40 ∷ (4 ∷ 5 ∷ []) ∷ []

snapshot-excerpt_example :
    snapshot (write_all pieces (new_bounded_output 66)) ≡ some (excerpt 66 (all_bytes pieces))
unfolding all_bytes
snapshot-excerpt_example = snapshot-excerpt 66 pieces (omega arith) (omega arith)

abbrev shown : List ℕ × ℕ
shown = (7 ∷ 7 ∷ (marker ++ (4 ∷ 5 ∷ [])), 71)

pieces_shown : snapshot (write_all pieces (new_bounded_output 66)) ≡ some shown
unfolding snapshot write_all gopherharness.Output.write gopherharness.Output.write_head
    gopherharness.Output.write_tail gopherharness.Output.rest
pieces_shown = refl
