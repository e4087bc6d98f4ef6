-- ===== src/Turn/Batch/Whole.antt =====
-- All groups of a batch (internal/runtime/tool_batch.go).
use gopherharness.Base.{
  ℕ, zero, suc, ◌+◌, ◌≤◌, ◌<◌, ltb, ◌≡◌, refl, sym, ap, ◌∙◌, subst, arith, Bool, not, List, [], ◌∷◌,
  ◌++◌, map, length, take, drop, if_rule, append_assoc, append_nil, length-drop, drop-drop,
  drop_all, take-drop,
}
use gopherharness.Recovery.{Call, view, missing}
use gopherharness.Tools.{group_size}
use gopherharness.Tools.Groups.{group_size-IsGroup}
use gopherharness.Turn.{Agent}
use gopherharness.Turn.Batch.{
  Batch, and_then, Script, save_if, clear_if, group, groups, execute_new, fresh,
}
use gopherharness.Turn.Batch.Accepts.{
  After, and_then-After, After-map, Counted, open_count, replies, open_count-split, replies-append,
  more_counted, widen,
}
use gopherharness.Turn.Batch.Complete.{Kept, Sofar, group-After, save_if-Kept, kept}

module _ (a : Agent) where
  join :
      (n m : ℕ) (xs ys : List Call) (k l : ℕ) (b c d : Batch)
      → Sofar n xs k b c
      → Sofar m ys l c d
      → Sofar (n + m) (xs ++ ys) l b d
  join n m xs ys k l b c d h g = record {
    counted = more_counted a n m b c d h.counted g.counted;
    messages =
        g.messages
        ∙ ap (λ z. z ++ replies ys) h.messages
        ∙ append_assoc (map view b.messages) (replies xs) (replies ys)
        ∙ ap (λ z. map view b.messages ++ z) (sym (replies-append xs ys));
    next = g.next;
  }

  module _ (durable : Bool) (scripts : ℕ → Script) (calls : List Call) (blocked : List Bool) where
    -- The calls that are left from k on.
    abbrev left : ℕ → List Call
    left k = drop k calls

    abbrev open_left : ℕ → ℕ
    open_left k = open_count (drop k blocked) (drop k calls)

    abbrev Whole : Batch → Batch → Type 0
    Whole b b' =
        Sofar (open_left b.continuation.next) (left b.continuation.next) (length calls) b b'

    nothing_left : (b : Batch) → b.continuation.next ≡ length calls → Whole b b
    unfolding replies missing open_count
    nothing_left b q =
        let none_left : drop b.continuation.next calls ≡ [] =
          drop_all b.continuation.next calls (omega (arith, q)) in
        rw none_left (record {
          counted = record { steps = omega arith; attempts = refl; final_calls = refl };
          messages = sym (append_nil (map view b.messages));
          next = q;
        })

    groups-After :
        (fuel : ℕ) (b : Batch)
        → length calls ≤ b.continuation.next + fuel
        → b.continuation.next ≤ length calls
        → After
            (Whole b)
            (Counted (open_left b.continuation.next) b)
            (groups a durable scripts calls blocked fuel b)
    unfolding groups
    groups-After zero b h le =
        if_rule (λ o. After (Whole b) (Counted (open_left b.continuation.next) b) o)
          (ltb b.continuation.next (length calls)) (λ t. absurd (ground (arith, t, h)))
          (λ f. nothing_left b (ground (arith, f, le)))
    groups-After (suc fuel) b h le =
        if_rule (λ o. After (Whole b) (Counted (open_left b.continuation.next) b) o)
          (ltb b.continuation.next (length calls))
          (λ t.
            from (drop b.continuation.next calls) refl (ground (arith, t))
              λ c k l. groups-After fuel c k l)
          (λ f. nothing_left b (ground (arith, f, le)))
      where
        start : ℕ
        start = b.continuation.next

        from :
            (cs : List Call)
            → drop start calls ≡ cs
            → start < length calls
            → ((c : Batch)
                → length calls ≤ c.continuation.next + fuel
                → c.continuation.next ≤ length calls
                → After
                    (Whole c)
                    (Counted (open_left c.continuation.next) c)
                    (groups a durable scripts calls blocked fuel c))
            → After (Whole b) (Counted (open_left start) b) (
                and_then
                  (group a durable (scripts start) cs (drop start blocked) b)
                  (groups a durable scripts calls blocked fuel))
        from [] q lt rest = absurd (omega (arith, lt, ap length q, length-drop start calls))
        from (c ∷ cs) q lt rest =
            let bl = drop start blocked in
            let n = group_size a.registry 4 (c ∷ cs) in
            let first = take n (c ∷ cs) in
            let m = open_count bl first in
            let total = open_left start in
            let (some_call, _, within, _) = group_size-IsGroup a.registry 4 c cs (omega arith) in
            let sum : m + open_count (drop n bl) (drop n (c ∷ cs)) ≡ total =
              open_count-split n bl (c ∷ cs) ∙ ap (open_count bl) (sym q) in
            and_then-After (Sofar m first (start + n) b) (Whole b) (Counted total b)
              (group a durable (scripts start) (c ∷ cs) bl b)
              (groups a durable scripts calls blocked fuel)
              (After-map (Sofar m first (start + n) b) (Counted m b) (Sofar m first (start + n) b)
                (Counted total b) (group a durable (scripts start) (c ∷ cs) bl b) (λ d k. k)
                (λ d k. widen a m total b d (omega (arith, sum)) k)
                (group-After a durable (scripts start) c cs bl b))
              λ d h1.
                let k = d.continuation.next in
                let same_calls : left k ≡ drop n (c ∷ cs) =
                  ap left h1.next ∙ sym (drop-drop n start calls) ∙ ap (drop n) q in
                let same_blocked : drop k blocked ≡ drop n bl =
                  ap (λ j. drop j blocked) h1.next ∙ sym (drop-drop n start blocked) in
                let same_open : open_left k ≡ open_count (drop n bl) (drop n (c ∷ cs)) =
                  ap (λ z. open_count z (left k)) same_blocked
                  ∙ ap (open_count (drop n bl)) same_calls in
                let fits : start + n ≤ length calls =
                  omega (arith, within, lt, ap length q, length-drop start calls) in
                let sums : m + open_left k ≡ total = ap (λ j. m + j) same_open ∙ sum in
                let all : first ++ left k ≡ left start =
                  ap (λ z. first ++ z) same_calls ∙ take-drop n (c ∷ cs) ∙ sym q in
                After-map (Whole d) (Counted (open_left k) d) (Whole b) (Counted total b)
                  (groups a durable scripts calls blocked fuel d)
                  (λ e g.
                    subst (λ z. Sofar total z (length calls) b e) all
                      (subst (λ j. Sofar j (first ++ left k) (length calls) b e) sums
                        (join m (open_left k) first (left k) (start + n) (length calls) b d e h1
                          g)))
                  (λ e g.
                    subst (λ j. Counted j b e) sums
                      (more_counted a m (open_left k) b d e h1.counted g))
                  (rest d (enough d n h1.next some_call)
                    (subst (λ j. j ≤ length calls) (sym h1.next) fits))
          where
            enough :
                (d : Batch) (n : ℕ)
                → d.continuation.next ≡ start + n
                → 1 ≤ n
                → length calls ≤ d.continuation.next + fuel
            enough d n e one = omega (arith, h, e, one)

  -- What a batch of calls does, if it ends without an error: a receipt for every call.
  abbrev pub Completes : List Call → List Bool → Batch → Batch → Type 0
  Completes calls blocked b b' =
      Counted (open_count blocked calls) b b'
      × (map view b'.messages ≡ map view b.messages ++ replies calls)

  -- A batch of new calls stops with an error, never for want of fuel, or ends with one receipt for each
  -- of its calls, in their order; either way it counts at most as many steps as calls that are not
  -- blocked, and neither attempts nor final calls change.
  pub execute_new-After :
      (save_ok clear_ok : Bool) (scripts : ℕ → Script) (calls : List Call) (blocked : List Bool)
      (b : Batch)
      → After
          (Completes calls blocked b)
          (Counted (open_count blocked calls) b)
          (execute_new a save_ok clear_ok scripts calls blocked b)
  unfolding execute_new
  execute_new-After save_ok clear_ok scripts calls blocked b =
      let d = a.async_approval in
      let m = open_count blocked calls in
      let b0 : Batch = record b { continuation = fresh b.task b.guard } in
      let Q = Counted m b in
      let same : Counted 0 b0 b0 = record {
        steps = omega arith;
        attempts = refl;
        final_calls = refl;
      } in
      and_then-After (Kept b0) (Completes calls blocked b) Q (save_if d save_ok b0)
        (λ b.
          and_then (groups a d scripts calls blocked (length calls) b) λ b. clear_if d clear_ok b)
        (After-map (Kept b0) (Counted 0 b0) (Kept b0) Q (save_if d save_ok b0) (λ c k. k)
          (λ c k. record {
            steps = omega (arith, k.steps);
            attempts = k.attempts;
            final_calls = k.final_calls;
          })
          (save_if-Kept a d save_ok b0 b0 (kept a b0)))
        λ c1 h1.
          let start : c1.continuation.next ≡ 0 = h1.next in
          let W =
            Sofar (open_count (drop c1.continuation.next blocked) (drop c1.continuation.next calls))
              (drop c1.continuation.next calls) (length calls) c1 in
          and_then-After (Sofar m calls (length calls) c1) (Completes calls blocked b) Q
            (groups a d scripts calls blocked (length calls) c1) (λ b. clear_if d clear_ok b)
            (After-map (Sofar m calls (length calls) c1) (Counted m c1)
              (Sofar m calls (length calls) c1) Q
              (groups a d scripts calls blocked (length calls) c1) (λ c k. k)
              (λ c k. after c1 c h1.counted k)
              (subst
                (λ j.
                  After
                    (Sofar (open_count (drop j blocked) (drop j calls)) (drop j calls)
                      (length calls) c1)
                    (Counted (open_count (drop j blocked) (drop j calls)) c1)
                    (groups a d scripts calls blocked (length calls) c1))
                start
                (groups-After d scripts calls blocked (length calls) c1 (omega (arith, start))
                  (omega (arith, start)))))
            λ c2 h2.
              let all : Completes calls blocked b c2 = (
                after c1 c2 h1.counted h2.counted,
                h2.messages ∙ ap (λ l. map view l ++ replies calls) h1.messages,
              ) in
              if_rule (λ o. After (Completes calls blocked b) Q o) (not d) (λ _. all)
                λ _.
                  if_rule (λ o. After (Completes calls blocked b) Q o) clear_ok
                    (λ _. (
                      record {
                        steps = all.0.steps;
                        attempts = all.0.attempts;
                        final_calls = all.0.final_calls;
                      },
                      all.1,
                    ))
                    (λ _. (refl, all.0))
    where
      after :
          (c1 c : Batch)
          → Counted 0 (record b { continuation = fresh b.task b.guard }) c1
          → Counted (open_count blocked calls) c1 c
          → Counted (open_count blocked calls) b c
      after c1 c h k = record {
        steps = omega (arith, h.steps, k.steps);
        attempts = k.attempts ∙ h.attempts;
        final_calls = k.final_calls ∙ h.final_calls;
      }
