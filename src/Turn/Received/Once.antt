-- ===== src/Turn/Received/Once.antt =====
-- A result of a worker reaches a session once (internal/runtime/worker_results.go).
use gopherharness.Base.{
  ◌≡◌, refl, ap, ◌∙◌, arith, String, str_eq, Bool, true, ◌||◌, some, List, [], ◌∷◌, ◌++◌, if_rule,
  All, All-map, append_nil, eq_iff,
}
use gopherharness.Closure.{contains}
use gopherharness.Recovery.{Message}
use gopherharness.Turn.Received.{WorkerResult, result_id, message_ids, new_results, ingest}

abbrev Known : List String → WorkerResult → Type 0
Known seen r = contains (result_id r) seen ≡ true

contains-append :
    (x : String) (xs ys : List String) → contains x (xs ++ ys) ≡ contains x xs || contains x ys
unfolding contains
contains-append x [] ys = refl
contains-append x (y ∷ xs) ys = ground (arith, contains-append x xs ys)

message_ids-append :
    (xs ys : List Message) → message_ids (xs ++ ys) ≡ message_ids xs ++ message_ids ys
unfolding message_ids
message_ids-append [] ys = refl
message_ids-append (x ∷ xs) ys = ap (λ l. x.id ∷ l) (message_ids-append xs ys)

none_new :
    (seen : List String) (rs : List WorkerResult) → All (Known seen) rs → new_results seen rs ≡ []
unfolding new_results
none_new seen [] h = refl
none_new seen (r ∷ rs) h = rw h.0 (none_new seen rs h.1)

taken_in :
    (seen : List String) (rs : List WorkerResult)
    → All
        (λ r.
          contains (result_id r) seen || contains (result_id r) (message_ids (new_results seen rs))
          ≡ true)
        rs
unfolding new_results message_ids contains
taken_in seen [] = tt
taken_in seen (r ∷ rs) =
    if_rule
      (λ ms.
        All (λ x. contains (result_id x) seen || contains (result_id x) (message_ids ms) ≡ true)
          (r ∷ rs))
      (contains (result_id r) seen) (λ h. (rw h refl, taken_in seen rs))
      λ h.
        let same : str_eq (result_id r) (result_id r) ≡ true =
          ground (arith, eq_iff (result_id r) (result_id r)) in
        let ids = message_ids (new_results (result_id r ∷ seen) rs) in
        (
          ground (arith, same),
          All-map
              (λ x.
                contains (result_id x) (result_id r ∷ seen) || contains (result_id x) ids ≡ true)
              (λ x.
                contains (result_id x) seen || contains (result_id x) (result_id r ∷ ids) ≡ true)
              rs (λ x k. ground (arith, k)) (taken_in (result_id r ∷ seen) rs),
        )

again :
    (ms : List Message) (rs : List WorkerResult)
    → new_results (message_ids (ms ++ new_results (message_ids ms) rs)) rs ≡ []
again ms rs =
    let new = new_results (message_ids ms) rs in
    none_new (message_ids (ms ++ new)) rs (
      All-map
        (λ r.
          contains (result_id r) (message_ids ms) || contains (result_id r) (message_ids new)
          ≡ true)
        (Known (message_ids (ms ++ new))) rs
        (λ r k.
          ap (contains (result_id r)) (message_ids-append ms new)
          ∙ contains-append (result_id r) (message_ids ms) (message_ids new)
          ∙ k)
        (taken_in (message_ids ms) rs))

-- Results that are read again, since their acknowledgement failed, do not reach a session again: the
-- second call leaves the messages as they are.
pub ingest_again :
    (rs : List WorkerResult) (s s' : Bool) (k k' : Bool) (ms : List Message)
    → (let first = ingest (record { pending = some rs; save = s; acknowledge = k }) ms in
        (ingest (record { pending = some rs; save = s'; acknowledge = k' }) first.1).1 ≡ first.1)
unfolding ingest
ingest_again [] s s' k k' ms = refl
ingest_again (r ∷ rs) s s' k k' ms =
    let first = ms ++ new_results (message_ids ms) (r ∷ rs) in
    ap (λ l. first ++ l) (again ms (r ∷ rs)) ∙ append_nil first
