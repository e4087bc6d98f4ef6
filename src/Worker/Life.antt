-- ===== src/Worker/Life.antt =====
-- A worker manager from its beginning on (internal/worker/manager.go): starts, messages, stops and the
-- steps of goroutines in any order.
use gopherharness.Base.{ℕ, ◌≡◌, refl, arith, String, Bool, false, Option, none, some, List, [], ◌∷◌}
use gopherharness.Base.Table.{lookup, Entries-lookup, sum_by}
use gopherharness.Worker.{Worker, Manager, Start, ResultState, active, ended, start}
use gopherharness.Worker.Runs.{Move, move, send, stop, cancel_all, seal}
use gopherharness.Worker.Slots.{
  IsOk, StatusOk, move-IsOk, send-IsOk, stop-IsOk, cancel_all-IsOk, seal-IsOk,
}
use gopherharness.Worker.Final.{
  Ended, start-IsOk, start-Ended, move-Ended, send-Ended, stop-Ended, cancel_all-Ended, seal-Ended,
}

unfoldable pub new_manager : ℕ → ℕ → Manager
new_manager concurrency hourly_limit = record {
  workers = [];
  closed = false;
  over = false;
  slots_used = 0;
  concurrency = concurrency;
  hourly_limit = hourly_limit;
  admissions = [];
}

pub data Event : Type 0 where
  starts : Start → Event
  moves : Move → String → Event
  sends : String → String → Event
  stops : String → Event
  cancels seals : Event

-- The manager and the file of receipts.
abbrev pub World : Type 0
World = Manager × Option ResultState

abbrev or_same : Option Manager → Manager → Manager
or_same none m = m
or_same (some t) m = t

module _ (redact : String → String) (has_runner : Bool) where
  unfoldable pub event : Event → World → World
  event (starts s) w = let o = start redact has_runner s w.0 w.1 in (o.manager, o.file)
  event (moves v id) w = (or_same (move v id w.0) w.0, w.1)
  event (sends id message) w = ((send id message w.0).1, w.1)
  event (stops id) w = ((stop id w.0).1, w.1)
  event cancels w = (cancel_all w.0, w.1)
  event seals w = (seal w.0, w.1)

  unfoldable pub managed : List Event → World → World
  managed [] w = w
  managed (e ∷ es) w = managed es (event e w)

  -- A start has a name of its own, as identifiers that are drawn have.
  abbrev pub NewName : Event → World → Type 0
  NewName (starts s) w = lookup s.id w.0.workers ≡ none
  NewName _ w = Unit

  abbrev pub NewNames : List Event → World → Type 0
  NewNames [] w = Unit
  NewNames (e ∷ es) w = NewName e w × NewNames es (event e w)

  event-IsOk : (e : Event) (w : World) → NewName e w → IsOk w.0 → IsOk (event e w).0
  unfolding event
  event-IsOk (starts s) w fresh ok = start-IsOk redact has_runner s w.0 w.1 fresh ok
  event-IsOk (moves v id) w fresh ok = from (move v id w.0) refl
    where
      from : (o : Option Manager) → move v id w.0 ≡ o → IsOk (or_same o w.0)
      from none q = ok
      from (some t) q = move-IsOk w.0 ok v id q
  event-IsOk (sends id message) w fresh ok = send-IsOk w.0 ok id message
  event-IsOk (stops id) w fresh ok = stop-IsOk w.0 ok id
  event-IsOk cancels w fresh ok = cancel_all-IsOk w.0 ok
  event-IsOk seals w fresh ok = seal-IsOk w.0 ok

  kept-IsOk : (es : List Event) (w : World) → NewNames es w → IsOk w.0 → IsOk (managed es w).0
  unfolding managed
  kept-IsOk [] w fresh ok = ok
  kept-IsOk (e ∷ es) w (new, fresh) ok = kept-IsOk es (event e w) fresh (event-IsOk e w new ok)

  new-IsOk : (concurrency hourly_limit : ℕ) → IsOk (new_manager concurrency hourly_limit)
  unfolding new_manager sum_by
  new-IsOk c l = record { statuses = tt; exact = refl; fits = omega arith }

  -- From a new manager on, whatever happens in any order, provided that each start has a new name: the
  -- slots in use are exactly those that goroutines hold, at most as many as there are, and a worker has
  -- an active status exactly until its goroutine is at its end.
  pub managed-IsOk :
      (es : List Event) (concurrency hourly_limit : ℕ) (file : Option ResultState)
      → NewNames es (new_manager concurrency hourly_limit, file)
      → IsOk (managed es (new_manager concurrency hourly_limit, file)).0
  managed-IsOk es c l file fresh = kept-IsOk es (new_manager c l, file) fresh (new-IsOk c l)

  event-Ended :
      (id st r er : String) (e : Event) (w : World)
      → active st ≡ false
      → NewName e w
      → Ended id st r er w.0
      → Ended id st r er (event e w).0
  unfolding event
  event-Ended id st r er (starts s) w off fresh e =
      start-Ended redact has_runner s id st r er w.0 w.1 fresh e
  event-Ended id st r er (moves v k) w off fresh e = from (move v k w.0) refl
    where
      from : (o : Option Manager) → move v k w.0 ≡ o → Ended id st r er (or_same o w.0)
      from none q = e
      from (some t) q = move-Ended id st r er off v k w.0 e q
  event-Ended id st r er (sends k message) w off fresh e = send-Ended id st r er off k message w.0 e
  event-Ended id st r er (stops k) w off fresh e = stop-Ended id st r er off k w.0 e
  event-Ended id st r er cancels w off fresh e = cancel_all-Ended id st r er off w.0 e
  event-Ended id st r er seals w off fresh e = seal-Ended id st r er off w.0 e

  kept-Ended :
      (id st r er : String) (es : List Event) (w : World)
      → active st ≡ false
      → NewNames es w
      → Ended id st r er w.0
      → Ended id st r er (managed es w).0
  unfolding managed
  kept-Ended id st r er [] w off fresh e = e
  kept-Ended id st r er (x ∷ es) w off (new, fresh) e =
      kept-Ended id st r er es (event x w) off fresh (event-Ended id st r er x w off new e)

  -- In a manager in order, a worker whose goroutine is at its end keeps its status, its result and its
  -- error, whatever happens next, provided that each start has a new name.
  pub managed-IsFinal :
      (id : String) (es : List Event) (m : Manager) (file : Option ResultState) {w : Worker}
      → IsOk m
      → NewNames es (m, file)
      → lookup id m.workers ≡ some w
      → w.stage ≡ ended
      → Ended id w.status w.result w.error (managed es (m, file)).0
  managed-IsFinal id es m file {w = w} ok fresh found at_end =
      let status : StatusOk w =
        Entries-lookup (λ k (x : Worker). StatusOk x) id m.workers ok.statuses found in
      kept-Ended id w.status w.result w.error es (m, file) (ground (arith, status, at_end)) fresh
        (w, found, record { at_end = at_end; status_is = refl; result_is = refl; error_is = refl })
