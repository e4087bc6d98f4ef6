-- ===== src/Verification/Simple.antt =====
-- A command that counts as a verification is one simple command
-- (internal/governance/verification_command.go, internal/governance/readiness.go).
use gopherharness.Base.{
  ℕ, ◌==◌, ◌≡◌, inl, inr, refl, sym, ap, ◌∙◌, subst, arith, true, false, ◌&&◌, Option, none, some,
  List, [], ◌∷◌, if◌then◌else◌, All, if_rule, if_cases, some_inj,
}
use gopherharness.Verification.{
  Text, Reading, is_break, is_meta, is_active, is_quote, is_blank, quoted, plain, by_quote, step,
  and_then, read_text, finish, start, verification_words, end_word, classify,
  is_verification_command,
}

-- The characters outside quotes, where `o` is the quote that is open.
unfoldable pub unquoted : Option ℕ → Text → Text
unquoted o [] = []
unquoted none (c ∷ cs) =
    let opened = unquoted (some c) cs in
    let rest = unquoted none cs in if is_quote c then opened else c ∷ rest
unquoted (some q) (c ∷ cs) =
    let closed = unquoted none cs in
    let rest = unquoted (some q) cs in if c == q then closed else rest

-- The characters inside double quotes.
unfoldable pub in_double : Option ℕ → Text → Text
in_double o [] = []
in_double none (c ∷ cs) =
    let opened = in_double (some c) cs in
    let rest = in_double none cs in if is_quote c then opened else rest
in_double (some q) (c ∷ cs) =
    let closed = in_double none cs in
    let rest = in_double (some q) cs in
    if c == q then closed else (if q == 34 then c ∷ rest else rest)

-- The quote that is open behind a text.
unfoldable pub quote_after : Option ℕ → Text → Option ℕ
quote_after o [] = o
quote_after none (c ∷ cs) =
    let opened = quote_after (some c) cs in
    let rest = quote_after none cs in if is_quote c then opened else rest
quote_after (some q) (c ∷ cs) =
    let closed = quote_after none cs in
    let rest = quote_after (some q) cs in if c == q then closed else rest

-- No line break, no operator or substitution outside quotes, none that a shell would read in double
-- quotes, and no quote that stays open.
pub record Read (o : Option ℕ) (cs : Text) : Type 0 where
  pub breaks : All (λ c. is_break c ≡ false) cs
  pub outside : All (λ c. is_meta c ≡ false) (unquoted o cs)
  pub inside : All (λ c. is_active c ≡ false) (in_double o cs)
  pub closed : quote_after o cs ≡ none

then_some :
    {A : Type 0} (o : Option Reading) (f : Reading → Option A) {a : A}
    → and_then o f ≡ some a
    → (r : Reading) × (o ≡ some r) × (f r ≡ some a)
then_some none f h = absurd (cc)
then_some (some r) f h = (r, refl, h)

quote_of : {r s : Reading} {o : Option ℕ} → some r ≡ some s → r.quote ≡ o → s.quote ≡ o
quote_of h k = ap (λ (r : Reading). r.quote) (sym (some_inj h)) ∙ k

plain-Read :
    (c : ℕ) (cs : Text) (r s : Reading)
    → plain c r ≡ some s
    → is_break c ≡ false
    → r.quote ≡ none
    → Read s.quote cs
    → Read none (c ∷ cs)
unfolding plain unquoted in_double quote_after
plain-Read c cs r s h b q k = elim (if_cases (is_quote c) h) [
  | inl (t, e) ↦
      let at : s.quote ≡ some c = quote_of e refl in
      let k' : Read (some c) cs = subst (λ o. Read o cs) at k in
      record {
        breaks = (b, k'.breaks);
        outside = rw t k'.outside;
        inside = rw t k'.inside;
        closed = rw t k'.closed;
      }
  | inr (t, e) ↦ elim (if_cases (is_blank c) e) [
    | inl (u, d) ↦ outside t (ground (arith, u)) (quote_of d (same_quote r ∙ q))
    | inr (u, d) ↦ elim (if_cases (is_meta c) d) [
      | inl (v, d') ↦ absurd (cc)
      | inr (v, d') ↦ outside t v (quote_of d' q)
    ]
  ]
]
  where
    same_quote : (r : Reading) → (end_word r).quote ≡ r.quote
    same_quote r = if_rule (λ (x : Reading). x.quote ≡ r.quote) r.started (λ _. refl) (λ _. refl)

    outside : is_quote c ≡ false → is_meta c ≡ false → s.quote ≡ none → Read none (c ∷ cs)
    outside t m at =
        let k' : Read none cs = subst (λ o. Read o cs) at k in
        record {
          breaks = (b, k'.breaks);
          outside = rw t (m, k'.outside);
          inside = rw t k'.inside;
          closed = rw t k'.closed;
        }

quoted-Read :
    (q c : ℕ) (cs : Text) (r s : Reading)
    → quoted q c r ≡ some s
    → is_break c ≡ false
    → r.quote ≡ some q
    → Read s.quote cs
    → Read (some q) (c ∷ cs)
unfolding quoted unquoted in_double quote_after
quoted-Read q c cs r s h b o k = elim (if_cases (c == q) h) [
  | inl (t, e) ↦
      let k' : Read none cs = subst (λ o. Read o cs) (quote_of e refl) k in
      record {
        breaks = (b, k'.breaks);
        outside = rw t k'.outside;
        inside = rw t k'.inside;
        closed = rw t k'.closed;
      }
  | inr (t, e) ↦ elim (if_cases (q == 34 && is_active c) e) [
    | inl (u, d) ↦ absurd (cc)
    | inr (u, d) ↦
        let k' : Read (some q) cs = subst (λ o. Read o cs) (quote_of d o) k in
        record {
          breaks = (b, k'.breaks);
          outside = rw t k'.outside;
          inside = rw t (double u k'.inside);
          closed = rw t k'.closed;
        }
  ]
]
  where
    double :
        q == 34 && is_active c ≡ false
        → All (λ c. is_active c ≡ false) (in_double (some q) cs)
        → All
            (λ c. is_active c ≡ false)
            (if q == 34 then c ∷ in_double (some q) cs else in_double (some q) cs)
    double u k =
        if_rule (λ l. All (λ c. is_active c ≡ false) l) (q == 34) (λ t. (ground (arith, u, t), k))
          (λ _. k)

step-Read :
    (c : ℕ) (cs : Text) (r s : Reading)
    → step c r ≡ some s
    → Read s.quote cs
    → Read r.quote (c ∷ cs)
unfolding step
step-Read c cs r s h k = elim (if_cases (is_break c) h) [
  | inl (b, e) ↦ absurd (cc)
  | inr (b, e) ↦ from r.quote refl e b
]
  where
    from :
        (o : Option ℕ)
        → r.quote ≡ o
        → by_quote o c r ≡ some s
        → is_break c ≡ false
        → Read o (c ∷ cs)
    from none q e b = plain-Read c cs r s e b q k
    from (some x) q e b = quoted-Read x c cs r s e b q k

read_text-Read :
    (cs : Text) (r s : Reading) → read_text cs r ≡ some s → s.quote ≡ none → Read r.quote cs
unfolding read_text unquoted in_double quote_after
read_text-Read [] r s h shut = nothing r.quote (quote_of (sym h) shut)
  where
    nothing : (o : Option ℕ) → o ≡ none → Read o []
    nothing none q = record { breaks = tt; outside = tt; inside = tt; closed = refl }
    nothing (some x) q = absurd (cc)
read_text-Read (c ∷ cs) r s h shut =
    let (t, e, more) = then_some (step c r) (read_text cs) h in
    step-Read c cs r t e (read_text-Read cs t s more shut)

finish_shut : (r : Reading) {ws : List Text} → finish r ≡ some ws → r.quote ≡ none
finish_shut r {ws = ws} h = from r.quote refl
  where
    from : (o : Option ℕ) → r.quote ≡ o → o ≡ none
    from none q = refl
    from (some x) q = absurd (ground (arith, q, h))

-- A command that counts as a verification has no line break, outside its quotes no operator,
-- redirection, substitution or comment, inside double quotes nothing that a shell reads, and no quote
-- that stays open.
pub is_verification_command-Read : (cs : Text) → is_verification_command cs ≡ true → Read none cs
unfolding is_verification_command verification_words
is_verification_command-Read cs h = from (verification_words cs) refl h
  where
    from : (o : Option (List Text)) → verification_words cs ≡ o → classify o ≡ true → Read none cs
    from none e h = absurd (cc)
    from (some ws) e h =
        let (r, read, done) = then_some (read_text cs start) finish e in
        read_text-Read cs start r read (finish_shut r done)
