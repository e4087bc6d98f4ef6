-- ===== src/Verification/Quoted.antt =====
-- Words in single quotes are read back (internal/governance/verification_command.go).
use gopherharness.Base.{
  ℕ, ◌==◌, ◌≡◌, refl, sym, ap, ◌∙◌, arith, Bool, true, false, not, ◌&&◌, none, some, List, [], ◌∷◌,
  ◌++◌, All, append_assoc, append_nil,
}
use gopherharness.Verification.{
  Text, Reading, is_break, quoted, plain, step, read_text, verification_words,
}

-- A word in single quotes, and a space behind it.
unfoldable pub render : List Text → Text
render [] = []
render (w ∷ ws) = 39 ∷ (w ++ (39 ∷ 32 ∷ render ws))

-- A character that can stand in single quotes.
abbrev pub fits_quotes : ℕ → Bool
fits_quotes c = not (is_break c) && not (c == 39)

abbrev inside : List Text → Text → Reading
inside ws w = record { words = ws; word = w; quote = some 39; started = true }

read_quoted :
    (ws : List Text) (w cs rest : Text)
    → All (λ c. fits_quotes c ≡ true) cs
    → read_text (cs ++ (39 ∷ 32 ∷ rest)) (inside ws w)
      ≡ read_text rest
          (record { words = ws ++ ((w ++ cs) ∷ []); word = []; quote = none; started = false })
unfolding read_text step quoted plain
read_quoted ws w [] rest h =
    ap
      (λ v.
        read_text rest
          (record { words = ws ++ (v ∷ []); word = []; quote = none; started = false }))
      (sym (append_nil w))
read_quoted ws w (c ∷ cs) rest h =
    let one : step c (inside ws w) ≡ some (inside ws (w ++ (c ∷ []))) =
      taken (ground (arith, h.0)) (ground (arith, h.0)) in
    rw one (
      read_quoted ws (w ++ (c ∷ [])) cs rest h.1
      ∙ ap
          (λ v.
            read_text rest
              (record { words = ws ++ (v ∷ []); word = []; quote = none; started = false }))
          (append_assoc w (c ∷ []) cs))
  where
    taken :
        is_break c ≡ false
        → (c == 39) ≡ false
        → step c (inside ws w) ≡ some (inside ws (w ++ (c ∷ [])))
    taken b d = rw (b, d) refl

read_all :
    (ws done : List Text)
    → All (All (λ c. fits_quotes c ≡ true)) ws
    → read_text (render ws) (record { words = done; word = []; quote = none; started = false })
      ≡ some (record { words = done ++ ws; word = []; quote = none; started = false })
unfolding read_text render step plain
read_all [] done h =
    ap (λ ws. some (record { words = ws; word = []; quote = none; started = false }))
      (sym (append_nil done))
read_all (w ∷ ws) done h =
    read_quoted done [] w (render ws) h.0
    ∙ read_all ws (done ++ (w ∷ [])) h.1
    ∙ ap (λ ws. some (record { words = ws; word = []; quote = none; started = false }))
        (append_assoc done (w ∷ []) ws)

-- Words without line breaks, zeros and single quotes that are written in single quotes and separated
-- by spaces are read back exactly, whatever operators they hold.
pub verification_words-render :
    (ws : List Text)
    → All (All (λ c. fits_quotes c ≡ true)) ws
    → verification_words (render ws) ≡ some ws
unfolding verification_words
verification_words-render ws h = rw (read_all ws [] h) refl
