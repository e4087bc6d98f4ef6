-- ===== src/Scheduler/Bounds.antt =====
-- What holds of the lanes and the pools of internal/scheduler/scheduler.go between any two steps.
use gopherharness.Base.{ℕ, ◌+◌, ◌≤◌, ◌≡◌, String, Bool, true, false, none, some, [], arith, length}
use gopherharness.Base.Table.{
  lookup, insert, erase, Entries, Entries-insert, Entries-erase, sum_by, sum_by-insert,
  sum_by-erase,
}
use gopherharness.Scheduler.{
  Handle, Stage, stopped, polling, waiting, ready, turn, closing, Lane, Scheduler,
}

-- A lane has a goroutine exactly if it is running, an active job exactly while that goroutine works
-- on one, and messages to inject only then; what waits is within the capacity.
abbrev pub StageOk : Stage → Lane → Type 0
StageOk stopped l = (l.running ≡ false) × (l.active ≡ none) × (l.inbox ≡ [])
StageOk polling l = (l.running ≡ true) × (l.active ≡ none) × (l.inbox ≡ [])
StageOk (waiting j) l = (l.running ≡ true) × (l.active ≡ some j)
StageOk (ready j a) l = (l.running ≡ true) × (l.active ≡ some j)
StageOk (turn j a c) l = (l.running ≡ true) × (l.active ≡ some j)
StageOk (closing j r c) l = (l.running ≡ true) × (l.active ≡ some j)

pub record LaneOk (capacity : ℕ) (l : Lane) : Type 0 where
  pub stage_ok : StageOk l.stage l
  pub bounded : length l.queue + length l.inbox ≤ capacity

-- How many slots of a pool a lane holds.
abbrev slot : Bool → Bool → ℕ
slot true true = 1
slot false false = 1
slot _ _ = 0

abbrev held_at : Bool → Stage → ℕ
held_at b (ready j true) = slot b j.req.background
held_at b (turn j true c) = slot b j.req.background
held_at b _ = 0

abbrev pub held : Bool → Lane → ℕ
held b l = held_at b l.stage

-- Every lane is well formed, and each pool counts exactly the slots that lanes hold, no more than it
-- has.
pub record IsOk (s : Scheduler) : Type 0 where
  pub lanes_ok : Entries (λ k l. LaneOk s.capacity l) s.lanes
  pub foreground_exact : s.foreground ≡ sum_by (held false) s.lanes
  pub foreground_fits : s.foreground ≤ s.user_slots
  pub background_exact : s.background ≡ sum_by (held true) s.lanes
  pub background_fits : s.background ≤ s.system_slots

module _ (s : Scheduler) (ok : IsOk s) (cid : String) where
  -- One lane is replaced, and the pools move by what it holds.
  pub replace-IsOk :
      (l l' : Lane) (h : ℕ → Handle) (f b : ℕ)
      → lookup cid s.lanes ≡ some l
      → LaneOk s.capacity l'
      → f + held false l ≡ s.foreground + held false l'
      → f ≤ s.user_slots
      → b + held true l ≡ s.background + held true l'
      → b ≤ s.system_slots
      → IsOk
          (record s { lanes = insert cid l' s.lanes; handles = h; foreground = f; background = b })
  replace-IsOk l l' h f b found good ef lf eb lb =
      let fs : sum_by (held false) (insert cid l' s.lanes) + held false l
          ≡ sum_by (held false) s.lanes + held false l' =
        rw found at (sum_by-insert (held false) cid l' s.lanes) in
      let bs : sum_by (held true) (insert cid l' s.lanes) + held true l
          ≡ sum_by (held true) s.lanes + held true l' =
        rw found at (sum_by-insert (held true) cid l' s.lanes) in
      record {
        lanes_ok =
            Entries-insert (λ k (x : Lane). LaneOk s.capacity x) cid l' s.lanes good ok.lanes_ok;
        foreground_exact = omega (arith, ok.foreground_exact);
        foreground_fits = lf;
        background_exact = omega (arith, ok.background_exact);
        background_fits = lb;
      }

  pub erase-IsOk :
      (l : Lane)
      → lookup cid s.lanes ≡ some l
      → held false l ≡ 0
      → held true l ≡ 0
      → IsOk (record s { lanes = erase cid s.lanes })
  erase-IsOk l found zf zb =
      let fs : sum_by (held false) (erase cid s.lanes) + held false l
          ≡ sum_by (held false) s.lanes =
        rw found at (sum_by-erase (held false) cid s.lanes) in
      let bs : sum_by (held true) (erase cid s.lanes) + held true l ≡ sum_by (held true) s.lanes =
        rw found at (sum_by-erase (held true) cid s.lanes) in
      record {
        lanes_ok = Entries-erase (λ k (x : Lane). LaneOk s.capacity x) cid s.lanes ok.lanes_ok;
        foreground_exact = omega (arith, ok.foreground_exact);
        foreground_fits = ok.foreground_fits;
        background_exact = omega (arith, ok.background_exact);
        background_fits = ok.background_fits;
      }
