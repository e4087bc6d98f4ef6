-- ===== src/Readiness/Gate.antt =====
-- When `Evaluate` of internal/governance/readiness.go blocks.
use gopherharness.Base.{
  ◌≡◌, refl, sym, ◌∙◌, ap, subst, arith, String, str_eq, eq_iff, Bool, true, false, not, ◌&&◌, List,
  [], ◌∷◌, ◌++◌, if_rule, Bool-cases, inl, inr,
}
use gopherharness.Readiness.{
  Evidence, Reason, Decision, no_items, unverified, still_running, has_hard, judge, allowed,
  evaluate,
}

-- Files changed, and no verification succeeded.
abbrev pub is_unverified : Evidence → Bool
is_unverified e = not (no_items e.changed_paths) && not e.succeeded

has_hard-still_running : (e : Evidence) → has_hard (still_running e) ≡ false
unfolding has_hard still_running
has_hard-still_running e =
    if_rule (λ rs. has_hard rs ≡ false) (no_items e.running_workers) (λ p. refl) (λ p. refl)

has_hard-reasons : (e : Evidence) → has_hard (unverified e ++ still_running e) ≡ is_unverified e
unfolding has_hard unverified still_running
has_hard-reasons e = elim (Bool-cases (is_unverified e)) [
  | inl p ↦ rw p refl
  | inr p ↦ rw p (has_hard-still_running e)
]

no_items-has_hard : (rs : List Reason) → no_items rs ≡ true → has_hard rs ≡ false
unfolding has_hard
no_items-has_hard [] h = refl
no_items-has_hard (r ∷ rs) h = absurd (cc)

-- A decision that blocks, by its word and its action.
abbrev pub Blocks : Bool → Decision → Type 0
Blocks b d = (str_eq d.decision "block" ≡ b) × (str_eq d.action "block" ≡ b)

judge-Blocks :
    (mode : String) (reminded : Bool) (d : Decision)
    → d.decision ≡ "allow"
    → d.action ≡ "none"
    → Blocks (str_eq mode "strict" && has_hard d.reasons) (judge mode reminded d)
unfolding judge
judge-Blocks mode reminded d p q =
    let P : Decision → Type 0 = Blocks (str_eq mode "strict" && has_hard d.reasons) in
    if_rule P (str_eq mode "warn") (λ a. unless warned (other "warn" a refl) (refl, no_block q))
      (λ a.
        if_rule P (str_eq mode "soft")
          (λ b.
            if_rule P reminded (λ c. unless warned (other "soft" b refl) (refl, no_block q))
              (λ c.
                unless (record d { decision = "remind"; action = "runtime_notice" })
                  (other "soft" b refl) (refl, refl)))
          (λ b.
            if_rule P (str_eq mode "strict")
              (λ c.
                if_rule P (has_hard d.reasons) (λ h. (rw (c, h) refl, rw (c, h) refl))
                  (λ h. (rw (c, h) refl, rw (c, h) (no_block q))))
              (λ c. unless d c (ap (λ x. str_eq x "block") p, no_block q))))
  where
    warned : Decision
    warned = record d { decision = "warn" }

    no_block : {a : String} → a ≡ "none" → str_eq a "block" ≡ false
    no_block e = ap (λ x. str_eq x "block") e

    other :
        (a : String)
        → str_eq mode a ≡ true
        → str_eq a "strict" ≡ false
        → str_eq mode "strict" ≡ false
    other a h n =
        let e : mode ≡ a = ground (arith, eq_iff mode a) in ap (λ x. str_eq x "strict") e ∙ n

    unless :
        (t : Decision)
        → str_eq mode "strict" ≡ false
        → Blocks false t
        → Blocks (str_eq mode "strict" && has_hard d.reasons) t
    unless t c b = rw c b

-- The gate blocks a final answer, by its decision and its action, exactly in the strict mode when
-- files changed and no verification succeeded.
pub evaluate-Blocks :
    (sign : List Reason → String) (mode : String) (e : Evidence)
    → Blocks (str_eq mode "strict" && is_unverified e) (evaluate sign mode e)
unfolding evaluate
evaluate-Blocks sign mode e =
    if_rule P (str_eq mode "off") (λ a. rw (off a) (refl, refl))
      (λ a.
        if_rule P (no_items reasons) (λ b. rw (quiet b) (both mode))
          (λ b.
            subst (λ h. Blocks (str_eq mode "strict" && h) judged) (has_hard-reasons e)
              (judge-Blocks mode e.reminder_sent before refl refl)))
  where
    reasons : List Reason
    reasons = unverified e ++ still_running e

    before : Decision
    before = record (allowed mode) { reasons = reasons; signature = sign reasons }

    judged : Decision
    judged = judge mode e.reminder_sent before

    P : Decision → Type 0
    P = Blocks (str_eq mode "strict" && is_unverified e)

    off : str_eq mode "off" ≡ true → str_eq mode "strict" ≡ false
    off a =
        let q : mode ≡ "off" = ground (arith, eq_iff mode "off") in ap (λ x. str_eq x "strict") q

    quiet : no_items reasons ≡ true → is_unverified e ≡ false
    quiet b = sym (has_hard-reasons e) ∙ no_items-has_hard reasons b

    both : (m : String) → Blocks (str_eq m "strict" && false) (allowed m)
    both m = elim (Bool-cases (str_eq m "strict")) [
      | inl c ↦ rw c (refl, refl)
      | inr c ↦ rw c (refl, refl)
    ]
