-- ===== src/Turn/Batch/Accepts.antt =====
-- What a batch of calls does to a session (internal/runtime/tool_batch.go): one receipt for every
-- call, and no more steps than calls that were not blocked.
use gopherharness.Base.{
  ℕ, zero, suc, ◌+◌, ◌≤◌, ◌≡◌, refl, sym, ap, ◌∙◌, arith, str_eq, Bool, true, false, not, ◌&&◌,
  ◌||◌, List, [], ◌∷◌, ◌++◌, map, length, take, drop, if◌then◌else◌, if_rule, append_assoc,
  append_nil, drop-drop, drop_from,
}
use gopherharness.Closure
use gopherharness.Recovery.{Call, missing, view, unknown_outcome}
use gopherharness.Recovery.Sync.{map-append}
use gopherharness.Tools.{ToolResult}
use gopherharness.Turn.{
  TaskState, LoopGuard, Agent, observe, accept_task, receipt, changed, stepped, no_paths,
}
use gopherharness.Turn.Batch.{
  Batch, Stop, out_of_fuel, Outcome, stopped, went_on, and_then, Script, is_blocked, suspend,
  accept, accept_all,
}

abbrev pub is_fuel : Stop → Bool
is_fuel out_of_fuel = true
is_fuel _ = false

-- What holds where an outcome goes on, and where it stops.
abbrev pub After : (Batch → Type 0) → (Batch → Type 0) → Outcome → Type 0
After P Q (stopped s b) = (is_fuel s ≡ false) × Q b
After P Q (went_on b) = P b

pub and_then-After :
    (P P' Q : Batch → Type 0) (o : Outcome) (f : Batch → Outcome)
    → After P Q o
    → ((b : Batch) → P b → After P' Q (f b))
    → After P' Q (and_then o f)
and_then-After P P' Q (stopped s b) f h k = h
and_then-After P P' Q (went_on b) f h k = k b h

pub After-map :
    (P Q P' Q' : Batch → Type 0) (o : Outcome)
    → ((b : Batch) → P b → P' b)
    → ((b : Batch) → Q b → Q' b)
    → After P Q o
    → After P' Q' o
After-map P Q P' Q' (stopped s b) f g h = (h.0, g b h.1)
After-map P Q P' Q' (went_on b) f g h = f b h

-- What may change in a batch: at most n steps more, the same attempts and final calls.
pub record Counted (n : ℕ) (b b' : Batch) : Type 0 where
  pub steps : b'.task.tool_steps ≤ b.task.tool_steps + n
  pub attempts : b'.task.attempts ≡ b.task.attempts
  pub final_calls : b'.guard.final_calls ≡ b.guard.final_calls

-- The calls that are not blocked.
unfoldable pub open_count : List Bool → List Call → ℕ
open_count blocked [] = 0
open_count blocked (c ∷ cs) =
    (if is_blocked blocked 0 then 0 else 1) + open_count (drop 1 blocked) cs

-- One receipt for each call, as the check on exchanges reads it.
unfoldable pub replies : List Call → List Closure.Message
replies cs = map view (missing 0 cs [])

pub open_count-split :
    (n : ℕ) (blocked : List Bool) (cs : List Call)
    → open_count blocked (take n cs) + open_count (drop n blocked) (drop n cs)
      ≡ open_count blocked cs
unfolding open_count
open_count-split zero blocked cs = omega arith
open_count-split (suc n) blocked [] = omega arith
open_count-split (suc n) blocked (c ∷ cs) = omega (
  arith,
  open_count-split n (drop 1 blocked) cs,
  ap (λ l. open_count l (drop n cs))
      (drop-drop n 1 blocked ∙ drop_from (1 + n) (suc n) blocked (omega arith)),
)

pub replies-append : (xs ys : List Call) → replies (xs ++ ys) ≡ replies xs ++ replies ys
unfolding replies missing gopherharness.Closure.contains
replies-append [] ys = refl
replies-append (x ∷ xs) ys = ap (λ l. view (unknown_outcome 0 x) ∷ l) (replies-append xs ys)

module _ (a : Agent) where
  observe-final_calls :
      (c : Call) (r : ToolResult) (g : LoopGuard) → (observe a c r g).final_calls ≡ g.final_calls
  unfolding observe
  observe-final_calls c r g =
      if_rule (λ (h : LoopGuard). h.final_calls ≡ g.final_calls)
        (str_eq r.status "ok" || str_eq r.status "pending") (λ _. refl) (λ _. refl)

  abbrev Task : Bool → TaskState → TaskState → Type 0
  Task blocked t t' =
      (t'.tool_steps ≡ (if blocked then t.tool_steps else suc t.tool_steps))
      × (t'.attempts ≡ t.attempts)

  accept_task-Task :
      (c : Call) (r : ToolResult) (blocked : Bool) (t : TaskState)
      → Task blocked t (accept_task a c r blocked t)
  unfolding accept_task
  accept_task-Task c r blocked t =
      let changed : Task blocked t (changed r (stepped blocked c t)) =
        if_rule (λ u. Task blocked t u) (no_paths r.affected_paths) (λ _. (refl, refl))
          (λ _. (refl, refl)) in
      if_rule (λ u. Task blocked t u) (str_eq c.name "run_shell" && a.is_verification c)
        (λ _. changed) (λ _. changed)

  accept-Counted :
      (s : Script) (i : ℕ) (c : Call) (blocked : Bool) (r : ToolResult) (b : Batch)
      → Counted (if blocked then 0 else 1) b (accept a s i c blocked r b)
  unfolding accept
  accept-Counted s i c true r b =
      let (steps, attempts) = accept_task-Task c r true b.task in
      record {
        steps = omega (arith, steps);
        attempts = attempts;
        final_calls = observe-final_calls c r b.guard;
      }
  accept-Counted s i c false r b =
      let e = str_eq r.error_code "step_limit" in
      let (steps, attempts) = accept_task-Task c r e b.task in
      let more : (if e then b.task.tool_steps else suc b.task.tool_steps) ≤ b.task.tool_steps + 1 =
        if_rule (λ n. n ≤ b.task.tool_steps + 1) e (λ _. omega arith) (λ _. omega arith) in
      record {
        steps = omega (arith, steps, more);
        attempts = attempts;
        final_calls = observe-final_calls c r b.guard;
      }

  pub more_counted :
      (n m : ℕ) (b b' b'' : Batch) → Counted n b b' → Counted m b' b'' → Counted (n + m) b b''
  more_counted n m b b' b'' h k = record {
    steps = omega (arith, h.steps, k.steps);
    attempts = k.attempts ∙ h.attempts;
    final_calls = k.final_calls ∙ h.final_calls;
  }

  pub widen : (n m : ℕ) (b b' : Batch) → n ≤ m → Counted n b b' → Counted m b b'
  widen n m b b' le h = record {
    steps = omega (arith, h.steps, le);
    attempts = h.attempts;
    final_calls = h.final_calls;
  }

  -- The session after these receipts.
  abbrev pub Answered : List Call → Batch → Batch → Type 0
  Answered cs b b' =
      (map view b'.messages ≡ map view b.messages ++ replies cs)
      × (b'.continuation.next ≡ b.continuation.next)

  suspend-After :
      (P Q : Batch → Type 0) (s : Script) (r : ToolResult) (b : Batch)
      → ((b' : Batch) → Counted 0 b b' → Q b')
      → After P Q (suspend s r b)
  unfolding suspend
  suspend-After P Q s r b h =
      let same =
        λ (b' : Batch) (e : b'.task.tool_steps ≡ b.task.tool_steps)
            (f : b'.task.attempts ≡ b.task.attempts)
            (g : b'.guard.final_calls ≡ b.guard.final_calls).
          h b' (record { steps = omega (arith, e); attempts = f; final_calls = g }) in
      if_rule (λ o. After P Q o) (not s.save_pending) (λ _. (refl, same _ refl refl refl))
        λ _.
          if_rule (λ o. After P Q o) (not s.write_pending) (λ _. (refl, same _ refl refl refl))
            (λ _. (refl, same _ refl refl refl))

  pub accept_all-After :
      (s : Script) (i : ℕ) (rs : List ToolResult) (cs : List Call) (blocked : List Bool) (b : Batch)
      → length rs ≡ length cs
      → After
          (λ b'. Counted (open_count blocked cs) b b' × Answered cs b b')
          (λ b'. Counted (open_count blocked cs) b b')
          (accept_all a s i rs cs blocked b)
  unfolding accept_all open_count replies missing view accept gopherharness.Closure.contains
  accept_all-After s i [] [] blocked b h = (
    record { steps = omega arith; attempts = refl; final_calls = refl },
    (sym (append_nil (map view b.messages)), refl),
  )
  accept_all-After s i [] (c ∷ cs) blocked b h = absurd (omega (arith, h))
  accept_all-After s i (r ∷ rs) [] blocked b h = absurd (omega (arith, h))
  accept_all-After s i (r ∷ rs) (c ∷ cs) blocked b h =
      let n = if is_blocked blocked 0 then 0 else 1 in
      let m = open_count (drop 1 blocked) cs in
      let P = λ (b' : Batch). Counted (n + m) b b' × Answered (c ∷ cs) b b' in
      let Q = λ (b' : Batch). Counted (n + m) b b' in
      let b1 = accept a s i c (is_blocked blocked 0) r b in
      let one = accept-Counted s i c (is_blocked blocked 0) r b in
      let wider = λ (b' : Batch) (k : Counted 0 b b'). widen 0 (n + m) b b' (omega arith) k in
      if_rule (λ o. After P Q o) (str_eq r.status "pending") (λ _. suspend-After P Q s r b wider)
        λ _.
          if_rule (λ o. After P Q o)
            (str_eq r.error_code "receipt_unknown" || str_eq r.error_code "effect_unknown")
            (λ _.
              (refl, wider _ (record { steps = omega arith; attempts = refl; final_calls = refl })))
            λ _.
              After-map (λ b'. Counted m b1 b' × Answered cs b1 b') (λ b'. Counted m b1 b') P Q
                (accept_all a s (suc i) rs cs (drop 1 blocked) b1)
                (λ b' k. (
                  more_counted n m b b1 b' one k.0,
                  (
                    k.1.0
                        ∙ ap (λ l. l ++ replies cs)
                            (map-append b.messages (receipt a (s.message_id i) (s.now i) c r ∷ []))
                        ∙ append_assoc (map view b.messages) (view (unknown_outcome 0 c) ∷ [])
                            (replies cs),
                    k.1.1,
                  ),
                ))
                (λ b' k. more_counted n m b b1 b' one k)
                (accept_all-After s (suc i) rs cs (drop 1 blocked) b1 (omega (arith, h)))
