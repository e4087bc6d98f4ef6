-- ===== src/Tools/Groups.antt =====
-- What `RunIndexedBatch` of internal/tools/batch.go returns.
use gopherharness.Base.{
  ℕ, zero, suc, ◌+◌, ◌-◌, ◌≤◌, max, ◌≡◌, ◌⊎◌, inl, inr, refl, sym, ap, ◌∙◌, arith, String, true,
  false, Option, none, some, List, [], ◌∷◌, ◌++◌, length, take, drop, if◌then◌else◌, if_rule, All,
  append_assoc, length-append, length-take, length-drop, take-drop, if_false, take_from, take_all,
  drop-drop,
}
use gopherharness.Base.Table.{Table}
use gopherharness.Recovery.{Call}
use gopherharness.Tools.{
  Capability, ToolResult, is_safe_read, safe_prefix, group_size, Execution, settled, run_group,
  is_aborted, cancelled, run_from, run_indexed_batch,
}

module _ (r : Table Capability) where
  safe_prefix-le :
      (room : ℕ) (cs : List Call)
      → (safe_prefix r room cs ≤ room) × (safe_prefix r room cs ≤ length cs)
  unfolding safe_prefix
  safe_prefix-le zero cs = (omega arith, omega arith)
  safe_prefix-le (suc room) [] = (omega arith, omega arith)
  safe_prefix-le (suc room) (c ∷ cs) =
      let (a, b) = safe_prefix-le room cs in
      if_rule (λ n. (n ≤ suc room) × (n ≤ suc (length cs))) (is_safe_read r c)
        (λ _. (omega (arith, a), omega (arith, b))) (λ _. (omega arith, omega arith))

  safe_prefix-All :
      (room : ℕ) (cs : List Call)
      → All (λ c. is_safe_read r c ≡ true) (take (safe_prefix r room cs) cs)
  unfolding safe_prefix
  safe_prefix-All zero cs = tt
  safe_prefix-All (suc room) [] = tt
  safe_prefix-All (suc room) (c ∷ cs) =
      if_rule (λ n. All (λ c. is_safe_read r c ≡ true) (take n (c ∷ cs))) (is_safe_read r c)
        (λ t. (t, safe_prefix-All room cs)) (λ _. tt)

  -- A group is not empty, is within the limit, and overlaps only reads that are safe.
  abbrev pub IsGroup : ℕ → List Call → ℕ → Type 0
  IsGroup limit cs n =
      (1 ≤ n)
      × (n ≤ limit)
      × (n ≤ length cs)
      × ((n ≡ 1) ⊎ All (λ c. is_safe_read r c ≡ true) (take n cs))

  pub group_size-IsGroup :
      (limit : ℕ) (c : Call) (cs : List Call)
      → 1 ≤ limit
      → IsGroup limit (c ∷ cs) (group_size r limit (c ∷ cs))
  unfolding group_size
  group_size-IsGroup limit c cs h =
      let (a, b) = safe_prefix-le (limit - 1) cs in
      if_rule (λ n. IsGroup limit (c ∷ cs) n) (is_safe_read r c)
        (λ t. (
          omega arith,
          omega (arith, a, h),
          omega (arith, b),
          inr (t, safe_prefix-All (limit - 1) cs),
        ))
        (λ _. (omega arith, omega (arith, h), omega arith, inl refl))

take-sum : (n m : ℕ) (cs : List Call) → take (n + m) cs ≡ take n cs ++ take m (drop n cs)
take-sum zero m cs = ap (λ k. take k cs) (omega arith)
take-sum (suc n) m [] = take_all (suc n + m) [] (omega arith) ∙ sym (take_all m [] (omega arith))
take-sum (suc n) m (c ∷ cs) =
    take_from (suc n + m) (suc (n + m)) (c ∷ cs) (omega arith) ∙ ap (λ l. c ∷ l) (take-sum n m cs)

module _ (run : ℕ → Call → Execution) where
  run_group-append :
      (i : ℕ) (xs ys : List Call)
      → run_group run i (xs ++ ys) ≡ run_group run i xs ++ run_group run (i + length xs) ys
  unfolding run_group
  run_group-append i [] ys = ap (λ j. run_group run j ys) (omega arith)
  run_group-append i (x ∷ xs) ys =
      ap (λ l. settled x (run i x) ∷ l)
        (run_group-append (suc i) xs ys
          ∙ ap (λ j. run_group run (suc i) xs ++ run_group run j ys) (omega arith))

  -- The first n calls were run, and the others were not.
  abbrev pub Prefix : ℕ → List Call → List ToolResult → Type 0
  Prefix i cs results =
      (n : ℕ) × (e : String) × (results ≡ run_group run i (take n cs) ++ cancelled e (drop n cs))

  module _ (r : Table Capability) (limit : ℕ) (room : 1 ≤ limit) (done : ℕ → Option String) where
    run_from-Prefix :
        (fuel i : ℕ) (cs : List Call)
        → length cs ≤ fuel
        → Prefix i cs (run_from r limit done run fuel i cs)
    unfolding run_from cancelled run_group
    run_from-Prefix fuel i [] h = (0, "", refl)
    run_from-Prefix zero i (c ∷ cs) h = absurd (omega (arith, h))
    run_from-Prefix (suc fuel) i (c ∷ cs) h =
        let (some_call, _, within, _) = group_size-IsGroup r limit c cs room in
        from (done i)
          (run_from-Prefix fuel (i + n) (drop n (c ∷ cs))
            (omega (arith, h, some_call, length-drop n (c ∷ cs))))
          within
      where
        n : ℕ
        n = group_size r limit (c ∷ cs)

        group : List ToolResult
        group = run_group run i (take n (c ∷ cs))

        rest : List ToolResult
        rest = run_from r limit done run fuel (i + n) (drop n (c ∷ cs))

        after :
            n ≤ length (c ∷ cs)
            → Prefix (i + n) (drop n (c ∷ cs)) rest
            → Prefix i (c ∷ cs) (group ++ rest)
        after within (m, e, q) = (
          n + m,
          e,
          ap (λ l. group ++ l) q
              ∙ sym (
                  append_assoc group (run_group run (i + n) (take m (drop n (c ∷ cs))))
                    (cancelled e (drop m (drop n (c ∷ cs)))))
              ∙ ap (λ l. l ++ cancelled e (drop m (drop n (c ∷ cs))))
                  (ap (λ k. group ++ run_group run k (take m (drop n (c ∷ cs))))
                      (omega (arith, within, length-take n (c ∷ cs)))
                    ∙ sym (run_group-append i (take n (c ∷ cs)) (take m (drop n (c ∷ cs))))
                    ∙ ap (run_group run i) (sym (take-sum n m (c ∷ cs))))
              ∙ ap (λ l. run_group run i (take (n + m) (c ∷ cs)) ++ cancelled e l)
                  (drop-drop m n (c ∷ cs)),
        )

        from :
            (o : Option String)
            → Prefix (i + n) (drop n (c ∷ cs)) rest
            → n ≤ length (c ∷ cs)
            → Prefix i (c ∷ cs) (elim o [
              | some e ↦ cancelled e (c ∷ cs)
              | none ↦
                  group
                  ++ (if is_aborted group
                      then cancelled "batch cancelled" (drop n (c ∷ cs))
                      else rest)
            ])
        from (some e) p within = (0, e, refl)
        from none p within =
            if_rule (λ l. Prefix i (c ∷ cs) (group ++ l)) (is_aborted group)
              (λ _. (n, "batch cancelled", refl)) (λ _. after within p)

-- The results of a batch stand in the order of its calls: those of a prefix are what the tools
-- returned, and every call behind it is reported as cancelled, without having run.
pub run_indexed_batch-Prefix :
    (r : Table Capability) (limit : ℕ) (done : ℕ → Option String) (run : ℕ → Call → Execution)
    (cs : List Call)
    → Prefix run 0 cs (run_indexed_batch r limit done run cs)
unfolding run_indexed_batch
run_indexed_batch-Prefix r limit done run cs =
    run_from-Prefix run r (max 1 limit) (omega arith) done (length cs) 0 cs (omega arith)

length-cancelled : (e : String) (cs : List Call) → length (cancelled e cs) ≡ length cs
unfolding cancelled
length-cancelled e [] = refl
length-cancelled e (c ∷ cs) = ap suc (length-cancelled e cs)

length-run_group :
    (run : ℕ → Call → Execution) (i : ℕ) (cs : List Call) → length (run_group run i cs) ≡ length cs
unfolding run_group
length-run_group run i [] = refl
length-run_group run i (c ∷ cs) = ap suc (length-run_group run (suc i) cs)

-- There is a result for every call.
pub run_indexed_batch-length :
    (r : Table Capability) (limit : ℕ) (done : ℕ → Option String) (run : ℕ → Call → Execution)
    (cs : List Call)
    → length (run_indexed_batch r limit done run cs) ≡ length cs
run_indexed_batch-length r limit done run cs =
    let (n, e, q) = run_indexed_batch-Prefix r limit done run cs in
    omega (
      arith,
      ap length q,
      length-append (run_group run 0 (take n cs)) (cancelled e (drop n cs)),
      length-run_group run 0 (take n cs),
      length-cancelled e (drop n cs),
      length-take n cs,
      length-drop n cs,
    )

not_aborted :
    (xs ys : List ToolResult)
    → is_aborted (xs ++ ys) ≡ false
    → (is_aborted xs ≡ false) × (is_aborted ys ≡ false)
not_aborted [] ys h = (refl, h)
not_aborted (x ∷ xs) ys h =
    let (a, b) = not_aborted xs ys (ground (arith, h)) in (ground (arith, h, a), b)

module _ (r : Table Capability) (limit : ℕ) (room : 1 ≤ limit) (run : ℕ → Call → Execution) where
  run_from-all :
      (fuel i : ℕ) (cs : List Call)
      → length cs ≤ fuel
      → is_aborted (run_group run i cs) ≡ false
      → run_from r limit (λ _. none) run fuel i cs ≡ run_group run i cs
  unfolding run_from run_group
  run_from-all fuel i [] h k = refl
  run_from-all zero i (c ∷ cs) h k = absurd (omega (arith, h))
  run_from-all (suc fuel) i (c ∷ cs) h k =
      let n = group_size r limit (c ∷ cs) in
      let (some_call, _, within, _) = group_size-IsGroup r limit c cs room in
      let split =
        ap (run_group run i) (sym (take-drop n (c ∷ cs)))
        ∙ run_group-append run i (take n (c ∷ cs)) (drop n (c ∷ cs))
        ∙ ap (λ j. run_group run i (take n (c ∷ cs)) ++ run_group run j (drop n (c ∷ cs)))
            (omega (arith, within, length-take n (c ∷ cs))) in
      let (first, others) =
        not_aborted (run_group run i (take n (c ∷ cs))) (run_group run (i + n) (drop n (c ∷ cs)))
          (sym (ap is_aborted split) ∙ k) in
      let group = run_group run i (take n (c ∷ cs)) in
      ap (λ l. group ++ l)
        (if_false (is_aborted group) (cancelled "batch cancelled" (drop n (c ∷ cs)))
            (run_from r limit (λ _. none) run fuel (i + n) (drop n (c ∷ cs))) first
          ∙ run_from-all fuel (i + n) (drop n (c ∷ cs))
              (omega (arith, h, some_call, length-drop n (c ∷ cs))) others)
      ∙ sym split

-- Unless the context ends, or a tool is cancelled or panics, all tools run, and the batch returns what
-- they return, in the order of the calls.
pub run_indexed_batch-all :
    (r : Table Capability) (limit : ℕ) (run : ℕ → Call → Execution) (cs : List Call)
    → is_aborted (run_group run 0 cs) ≡ false
    → run_indexed_batch r limit (λ _. none) run cs ≡ run_group run 0 cs
unfolding run_indexed_batch
run_indexed_batch-all r limit run cs h =
    run_from-all r (max 1 limit) (omega arith) run (length cs) 0 cs (omega arith) h
