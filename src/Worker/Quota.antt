-- ===== src/Worker/Quota.antt =====
-- The rolling-hour quota of internal/worker/manager.go.
use gopherharness.Base.{
  ℕ, ◌+◌, ◌≤◌, ◌<◌, ◌≡◌, refl, sym, ◌∙◌, arith, String, Bool, ◌||◌, not, Option, none, some, List,
  [], ◌∷◌, ◌++◌, ltb, leb, length, length-append, if_rule, if◌then◌else◌,
}
use gopherharness.Base.Text.{blank}
use gopherharness.Durable.{Fault}
use gopherharness.Worker.{
  Manager, ResultState, Start, Started, Error, origin_done, prompt_required, manager_closed,
  runner_required, start, under_quota, recent, hour, admitted,
}

-- How many of the times are within the hour that ends at t.
unfoldable pub in_hour : ℕ → List ℕ → ℕ
in_hour t [] = 0
in_hour t (a ∷ rest) = (if ltb t (a + hour) then 1 else 0) + in_hour t rest

in_hour-append : (t : ℕ) (rest bs : List ℕ) → in_hour t (rest ++ bs) ≡ in_hour t rest + in_hour t bs
unfolding in_hour
in_hour-append t [] bs = omega arith
in_hour-append t (a ∷ rest) bs = omega (arith, in_hour-append t rest bs)

in_hour-le : (t : ℕ) (rest : List ℕ) → in_hour t rest ≤ length rest
unfolding in_hour
in_hour-le t [] = omega arith
in_hour-le t (a ∷ rest) = ground (arith, in_hour-le t rest)

in_hour-recent :
    (now t : ℕ) (rest : List ℕ) → now ≤ t → in_hour t (recent now rest) ≡ in_hour t rest
unfolding in_hour recent
in_hour-recent now t [] le = refl
in_hour-recent now t (a ∷ rest) le = ground (arith, in_hour-recent now t rest le)

-- The times of the starts that are accepted, in order.
abbrev pub accepted_at : Option Error → ℕ → List ℕ
accepted_at none now = now ∷ []
accepted_at (some e) now = []

-- Starts whose clock does not go back, and the time of the last one.
abbrev pub Chronological : ℕ → List Start → Type 0
Chronological t [] = Unit
Chronological t (s ∷ ss) = (t ≤ s.now) × Chronological s.now ss

abbrev pub last_time : ℕ → List Start → ℕ
last_time t [] = t
last_time t (s ∷ ss) = last_time s.now ss

last_time-le : (t : ℕ) (ss : List Start) → Chronological t ss → t ≤ last_time t ss
last_time-le t [] c = omega arith
last_time-le t (s ∷ ss) (le, c) = omega (arith, le, last_time-le s.now ss c)

-- What the admissions in memory know of the log so far.
record Knows (seen : List ℕ) (now : ℕ) (m : Manager) : Type 0 where
  same : (t : ℕ) → now ≤ t → in_hour t seen ≡ in_hour t m.admissions
  within : (t : ℕ) → now ≤ t → in_hour t seen ≤ m.hourly_limit

module _ (redact : String → String) (has_runner : Bool) where
  unfoldable pub accepted : List Start → Manager → Option ResultState → List ℕ
  accepted [] m file = []
  accepted (s ∷ ss) m file =
      let o = start redact has_runner s m file in
      accepted_at o.answer s.now ++ accepted ss o.manager o.file

  module _ (s : Start) (seen : List ℕ) (t0 : ℕ) (le : t0 ≤ s.now) where
    abbrev Next : ℕ → Started → Type 0
    Next limit o =
        (o.manager.hourly_limit ≡ limit)
        × Knows (seen ++ accepted_at o.answer s.now) s.now o.manager

    later : (m : Manager) → Knows seen t0 m → Knows seen s.now m
    later m k = record {
      same = λ t l. k.same t (omega (arith, l, le));
      within = λ t l. k.within t (omega (arith, l, le));
    }

    nothing_more : (m : Manager) → Knows seen s.now m → Knows (seen ++ []) s.now m
    unfolding in_hour
    nothing_more m k = record {
      same = λ t l. omega (arith, k.same t l, in_hour-append t seen []);
      within = λ t l. omega (arith, k.within t l, in_hour-append t seen []);
    }

    unchanged :
        (m : Manager) (e : Error) (file : Option ResultState)
        → Knows seen t0 m
        → Next m.hourly_limit (record { answer = some e; manager = m; file = file })
    unchanged m e file k = (refl, nothing_more m (later m k))

    recent-Knows :
        (m : Manager)
        → Knows seen t0 m
        → Knows seen s.now (record m { admissions = recent s.now m.admissions })
    recent-Knows m k = record {
      same = λ t l. k.same t (omega (arith, l, le)) ∙ sym (in_hour-recent s.now t m.admissions l);
      within = λ t l. k.within t (omega (arith, l, le));
    }

    admitted-Next :
        (failure : Option (Fault Error)) (m : Manager) (file : Option ResultState)
        → Knows seen s.now m
        → length m.admissions < m.hourly_limit
        → Next m.hourly_limit (admitted failure s m file)
    admitted-Next (some e) m file k room = (refl, nothing_more m k)
    admitted-Next none m file k room = (
      refl,
      record {
        same = equal;
        within = λ t l. omega (
          arith,
          room,
          equal t l,
          in_hour-le t (m.admissions ++ s.now ∷ []),
          length-append m.admissions (s.now ∷ []),
          one s.now,
        );
      },
    )
      where
        one : (n : ℕ) → length (n ∷ []) ≡ 1
        one n = omega arith

        equal :
            (t : ℕ)
            → s.now ≤ t
            → in_hour t (seen ++ s.now ∷ []) ≡ in_hour t (m.admissions ++ s.now ∷ [])
        equal t l = omega (
          arith,
          k.same t l,
          in_hour-append t seen (s.now ∷ []),
          in_hour-append t m.admissions (s.now ∷ []),
        )

    under_quota-Next :
        (kept : Manager) (file : Option ResultState)
        → Knows seen s.now kept
        → Next kept.hourly_limit (under_quota redact s kept file)
    unfolding under_quota
    under_quota-Next kept file k =
        if_rule (Next kept.hourly_limit) (leb kept.hourly_limit (length kept.admissions))
          (λ e. (refl, nothing_more kept k)) (λ e. admitted-Next _ kept _ k (ground arith))

    start-Next :
        (m : Manager) (file : Option ResultState)
        → Knows seen t0 m
        → Next m.hourly_limit (start redact has_runner s m file)
    unfolding start
    start-Next m file k =
        if_rule (Next m.hourly_limit) s.origin_done (λ a. unchanged m origin_done file k)
          (λ a.
            if_rule (Next m.hourly_limit) (blank s.prompt) (λ b. unchanged m prompt_required file k)
              (λ b.
                if_rule (Next m.hourly_limit) (m.closed || m.over)
                  (λ c. unchanged m manager_closed file k)
                  (λ c.
                    if_rule (Next m.hourly_limit) (not has_runner)
                      (λ d. unchanged m runner_required file k)
                      (λ d.
                        under_quota-Next (record m { admissions = recent s.now m.admissions }) file
                          (recent-Knows m k)))))

  accepted-in_hour :
      (ss : List Start) (m : Manager) (file : Option ResultState) (seen : List ℕ) (t0 t : ℕ)
      → Chronological t0 ss
      → last_time t0 ss ≤ t
      → Knows seen t0 m
      → in_hour t (seen ++ accepted ss m file) ≤ m.hourly_limit
  unfolding accepted in_hour
  accepted-in_hour [] m file seen t0 t c l k = omega (arith, k.within t l, in_hour-append t seen [])
  accepted-in_hour (s ∷ ss) m file seen t0 t (le, c) l k =
      let o = start redact has_runner s m file in
      let (limit, k') = start-Next s seen t0 le m file k in
      let rest =
        accepted-in_hour ss o.manager o.file (seen ++ accepted_at o.answer s.now) s.now t c l k' in
      let now = accepted_at o.answer s.now in
      let log = accepted ss o.manager o.file in
      omega (
        arith,
        rest,
        limit,
        in_hour-append t (seen ++ now) log,
        in_hour-append t seen now,
        in_hour-append t seen (now ++ log),
        in_hour-append t now log,
      )

  -- From a manager without admissions on, whatever is asked for at times that do not go back and
  -- whatever the disk does: no hour that ends at the last request or later has more accepted starts
  -- than the limit.
  pub quota-accepted :
      (ss : List Start) (m : Manager) (file : Option ResultState) (t : ℕ)
      → m.admissions ≡ []
      → Chronological 0 ss
      → last_time 0 ss ≤ t
      → in_hour t (accepted ss m file) ≤ m.hourly_limit
  unfolding in_hour
  quota-accepted ss m file t e c l =
      accepted-in_hour ss m file [] 0 t c l
        (record { same = λ u le. rw e refl; within = λ u le. omega arith })
