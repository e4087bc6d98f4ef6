-- ===== src/Turn/Batch/Complete.antt =====
-- A batch of internal/tools/batch.go and internal/runtime/tool_batch.go that ends without an error has
-- one receipt for every call, in order.
use gopherharness.Base.{
  ℕ, ◌+◌, ◌≡◌, refl, sym, ap, ◌∙◌, arith, Bool, false, not, ◌&&◌, Option, none, some, List, [], ◌∷◌,
  ◌++◌, map, length, take, if◌then◌else◌, if_rule, append_nil, String,
}
use gopherharness.Recovery.{Call, view, missing}
use gopherharness.Tools.{ToolResult, group_size, is_safe_read}
use gopherharness.Tools.Groups.{run_indexed_batch-length}
use gopherharness.Turn.{Agent}
use gopherharness.Turn.Batch.{
  Batch, Stop, Outcome, and_then, Script, check_context, resumable, accept_all, save_if, write_if,
  persist, group, results, tool_run, set_executing, finish_group, buffer, session_failed,
  checkpoint_failed, task_failed,
}
use gopherharness.Turn.Batch.Accepts.{
  is_fuel, After, and_then-After, After-map, Counted, open_count, replies, more_counted, widen,
  accept_all-After,
}

-- A step that leaves the session as it is.
pub record Kept (b b' : Batch) : Type 0 where
  pub counted : Counted 0 b b'
  pub messages : b'.messages ≡ b.messages
  pub next : b'.continuation.next ≡ b.continuation.next

-- The state after the receipts of some calls, with the next call at k.
pub record Sofar (n : ℕ) (cs : List Call) (k : ℕ) (b b' : Batch) : Type 0 where
  pub counted : Counted n b b'
  pub messages : map view b'.messages ≡ map view b.messages ++ replies cs
  pub next : b'.continuation.next ≡ k

module _ (a : Agent) where
  none_counted : (b : Batch) → Counted 0 b b
  none_counted b = record { steps = omega arith; attempts = refl; final_calls = refl }

  pub kept : (b : Batch) → Kept b b
  kept b = record { counted = none_counted b; messages = refl; next = refl }

  pub begun : (b : Batch) → Sofar 0 [] b.continuation.next b b
  unfolding replies missing
  begun b = record {
    counted = none_counted b;
    messages = sym (append_nil (map view b.messages));
    next = refl;
  }

  pub then_kept :
      (n : ℕ) (cs : List Call) (k : ℕ) (b b' : Batch) (o : Outcome)
      → Sofar n cs k b b'
      → After (Kept b') (Counted 0 b') o
      → After (Sofar n cs k b) (Counted n b) o
  then_kept n cs k b b' o s h =
      After-map (Kept b') (Counted 0 b') (Sofar n cs k b) (Counted n b) o
        (λ c kc. record {
          counted = same n b b' c (more_counted a n 0 b b' c s.counted kc.counted);
          messages = ap (map view) kc.messages ∙ s.messages;
          next = kc.next ∙ s.next;
        })
        (λ c kc. same n b b' c (more_counted a n 0 b b' c s.counted kc)) h
    where
      same : (n : ℕ) (b b' c : Batch) → Counted (n + 0) b c → Counted n b c
      same n b b' c h = widen a (n + 0) n b c (omega arith) h

  check_context-Kept :
      (o : Option String) (b : Batch) → After (Kept b) (Counted 0 b) (check_context o b)
  check_context-Kept none b = kept b
  check_context-Kept (some e) b = (refl, none_counted b)

  resumable-Kept :
      (s : Script) (cs : List Call) (b : Batch) → After (Kept b) (Counted 0 b) (resumable a s cs b)
  resumable-Kept s [] b = kept b
  resumable-Kept s (c ∷ cs) b =
      if_rule (λ o. After (Kept b) (Counted 0 b) o)
        (b.continuation.executing && not (is_safe_read a.registry c) && not s.is_risky)
        (λ _. (refl, none_counted b)) (λ _. kept b)

  pub save_if-Kept :
      (durable ok : Bool) (b b' : Batch)
      → Kept b b'
      → After (Kept b) (Counted 0 b) (save_if durable ok b')
  save_if-Kept durable ok b b' k =
      if_rule (λ o. After (Kept b) (Counted 0 b) o) (not durable) (λ _. k)
        λ _.
          if_rule (λ o. After (Kept b) (Counted 0 b) o) ok
            (λ _. record {
              counted = record {
                steps = k.counted.steps;
                attempts = k.counted.attempts;
                final_calls = k.counted.final_calls;
              };
              messages = k.messages;
              next = k.next;
            })
            (λ _. (refl, k.counted))

  write_if-Kept :
      (ok : Bool) (s : Stop) (b : Batch)
      → is_fuel s ≡ false
      → After (Kept b) (Counted 0 b) (write_if ok s b)
  write_if-Kept ok s b h =
      if_rule (λ o. After (Kept b) (Counted 0 b) o) ok (λ _. kept b) (λ _. (h, none_counted b))

  module _ (durable : Bool) (s : Script) where
    persist-After :
        (ledger_start end n : ℕ) (cs : List Call) (k : ℕ) (b b' : Batch)
        → Sofar n cs k b b'
        → After (Sofar n cs end b) (Counted n b) (persist durable s ledger_start end b')
    unfolding persist
    persist-After ledger_start end n cs k b b' h =
        let F = Sofar n cs k b in
        let E = Sofar n cs end b in
        let Q = Counted n b in
        let b1 = if durable then buffer s ledger_start end b' else b' in
        let k1 : Kept b' b1 =
          if_rule (λ c. Kept b' c) durable
            (λ _. record {
              counted = record { steps = omega arith; attempts = refl; final_calls = refl };
              messages = refl;
              next = refl;
            })
            (λ _. kept b') in
        and_then-After F E Q (save_if durable s.save_buffered b1)
          (λ b. and_then (write_if s.save_session session_failed b) λ b.
            and_then (write_if s.write_checkpoint checkpoint_failed b) λ b.
              and_then (write_if s.write_task task_failed b) λ b.
                and_then (save_if durable s.save_end (finish_group end b))
                  λ b. check_context s.done_after b)
          (then_kept n cs k b b' (save_if durable s.save_buffered b1) h
            (save_if-Kept durable s.save_buffered b' b1 k1))
          λ c2 h2.
            and_then-After F E Q (write_if s.save_session session_failed c2)
              (λ b. and_then (write_if s.write_checkpoint checkpoint_failed b) λ b.
                and_then (write_if s.write_task task_failed b) λ b.
                  and_then (save_if durable s.save_end (finish_group end b))
                    λ b. check_context s.done_after b)
              (then_kept n cs k b c2 (write_if s.save_session session_failed c2) h2
                (write_if-Kept s.save_session session_failed c2 refl))
              λ c3 h3.
                and_then-After F E Q (write_if s.write_checkpoint checkpoint_failed c3)
                  (λ b. and_then (write_if s.write_task task_failed b) λ b.
                    and_then (save_if durable s.save_end (finish_group end b))
                      λ b. check_context s.done_after b)
                  (then_kept n cs k b c3 (write_if s.write_checkpoint checkpoint_failed c3) h3
                    (write_if-Kept s.write_checkpoint checkpoint_failed c3 refl))
                  λ c4 h4.
                    and_then-After F E Q (write_if s.write_task task_failed c4)
                      (λ b.
                        and_then (save_if durable s.save_end (finish_group end b))
                          λ b. check_context s.done_after b)
                      (then_kept n cs k b c4 (write_if s.write_task task_failed c4) h4
                        (write_if-Kept s.write_task task_failed c4 refl))
                      λ c5 h5.
                        let f = finish_group end c5 in
                        let h6 : Sofar n cs end b f = record {
                          counted = record {
                            steps = h5.counted.steps;
                            attempts = h5.counted.attempts;
                            final_calls = h5.counted.final_calls;
                          };
                          messages = h5.messages;
                          next = refl;
                        } in
                        and_then-After E E Q (save_if durable s.save_end f)
                          (λ b. check_context s.done_after b)
                          (then_kept n cs end b f (save_if durable s.save_end f) h6
                            (save_if-Kept durable s.save_end f f (kept f)))
                          λ c7 h7.
                            then_kept n cs end b c7 (check_context s.done_after c7) h7
                              (check_context-Kept s.done_after c7)

    after_none : (m : ℕ) (b b' c : Batch) → Counted 0 b b' → Counted m b' c → Counted m b c
    after_none m b b' c h k = widen a (0 + m) m b c (omega arith) (more_counted a 0 m b b' c h k)

    accepted-After :
        (k : ℕ) (cs : List Call) (blocked : List Bool) (rs : List ToolResult) (b b' : Batch)
        → length rs ≡ length cs
        → Sofar 0 [] k b b'
        → After
            (Sofar (open_count blocked cs) cs k b)
            (Counted (open_count blocked cs) b)
            (accept_all a s 0 rs cs blocked b')
    unfolding replies missing
    accepted-After k cs blocked rs b b' h s0 =
        let m = open_count blocked cs in
        After-map
          (λ c.
            Counted m b' c
            × ((map view c.messages ≡ map view b'.messages ++ replies cs)
                × (c.continuation.next ≡ b'.continuation.next)))
          (Counted m b') (Sofar m cs k b) (Counted m b) (accept_all a s 0 rs cs blocked b')
          (λ c (counted, (messages, next)). record {
            counted = after_none m b b' c s0.counted counted;
            messages =
                messages
                ∙ ap (λ l. l ++ replies cs) (s0.messages ∙ append_nil (map view b.messages));
            next = next ∙ s0.next;
          })
          (λ c counted. after_none m b b' c s0.counted counted)
          (accept_all-After a s 0 rs cs blocked b' h)

    -- One group.
    pub group-After :
        (c : Call) (cs : List Call) (blocked : List Bool) (b : Batch)
        → (let n = group_size a.registry 4 (c ∷ cs) in
            After
              (Sofar
                (open_count blocked (take n (c ∷ cs)))
                (take n (c ∷ cs))
                (b.continuation.next + n)
                b)
              (Counted (open_count blocked (take n (c ∷ cs))) b)
              (group a durable s (c ∷ cs) blocked b))
    unfolding group results
    group-After c cs blocked b =
        let calls = c ∷ cs in
        let n = group_size a.registry 4 calls in
        let first = take n calls in
        let start = b.continuation.next in
        let m = open_count blocked first in
        let Q = Counted m b in
        let E = Sofar m first (start + n) b in
        let S = Sofar 0 [] start b in
        let W = λ (o : Outcome) (h : After S (Counted 0 b) o).
          After-map S (Counted 0 b) S Q o (λ c k. k) (λ c k. widen a 0 m b c (omega arith) k) h in
        and_then-After S E Q (check_context s.done_before b)
          (λ b. and_then (resumable a s calls b) λ b.
            and_then (save_if durable s.save_start (set_executing b)) λ b.
              and_then (accept_all a s 0 (results a s first blocked b.guard) first blocked b)
                λ t. persist durable s (length b.messages) (start + n) t)
          (W (check_context s.done_before b) (
            then_kept 0 [] start b b (check_context s.done_before b) (begun b)
              (check_context-Kept s.done_before b)))
          λ c1 h1.
            and_then-After S E Q (resumable a s calls c1)
              (λ b. and_then (save_if durable s.save_start (set_executing b)) λ b.
                and_then (accept_all a s 0 (results a s first blocked b.guard) first blocked b)
                  λ t. persist durable s (length b.messages) (start + n) t)
              (W (resumable a s calls c1)
                (then_kept 0 [] start b c1 (resumable a s calls c1) h1 (resumable-Kept s calls c1)))
              λ c2 h2.
                let x2 = set_executing c2 in
                let k2 : Kept c2 x2 = record {
                  counted = record { steps = omega arith; attempts = refl; final_calls = refl };
                  messages = refl;
                  next = refl;
                } in
                and_then-After S E Q (save_if durable s.save_start x2)
                  (λ b.
                    and_then (accept_all a s 0 (results a s first blocked b.guard) first blocked b)
                      λ t. persist durable s (length b.messages) (start + n) t)
                  (W (save_if durable s.save_start x2) (
                    then_kept 0 [] start b c2 (save_if durable s.save_start x2) h2
                      (save_if-Kept durable s.save_start c2 x2 k2)))
                  λ c3 h3.
                    let rs = results a s first blocked c3.guard in
                    and_then-After (Sofar m first start b) E Q
                      (accept_all a s 0 rs first blocked c3)
                      (λ t. persist durable s (length c3.messages) (start + n) t)
                      (accepted-After start first blocked rs b c3
                        (run_indexed_batch-length a.registry 4 s.done_at
                          (tool_run s blocked c3.guard) first)
                        h3)
                      λ c4 h4. persist-After (length c3.messages) (start + n) m first start b c4 h4
