-- ===== src/Resilient/Tests.antt =====
-- Calls of internal/provider/policy.go with two clients.
use gopherharness.Base.{ℕ, zero, suc, ◌≡◌, refl, arith, true, String, none, some, [], ◌∷◌}
use gopherharness.Base.Int.{pos}
use gopherharness.Resilient.{
  Fault, network, budget_exhausted, wraps, Answer, Round, Resilient, call, second,
}
use gopherharness.Resilient.Attempts.{Honest, call-Honest}
use gopherharness.Resilient.Streaming.{
  Chunk, Play, Attempt, ShownOnce, stream, stream_report, stream-ShownOnce,
}

abbrev two_clients : Resilient
two_clients = record { clients = 2; retries = pos 1; delay = pos 500000000 }

-- The first client fails twice, the second one answers.
abbrev answer_of : ℕ → Answer String
answer_of zero = record { value = ""; error = some (wraps (network ∷ [])) }
answer_of (suc c) = record { value = "done"; error = none }

abbrev rounds : ℕ → ℕ → Round String
rounds c n = record { done_before = none; answer = answer_of c; random = 77; done_waiting = none }

second_answers : (call two_clients "" rounds).answer ≡ record { value = "done"; error = none }
unfolding call gopherharness.Resilient.all_clients gopherharness.Resilient.tries
    gopherharness.Resilient.round gopherharness.Resilient.after_answer
    gopherharness.Resilient.after_wait gopherharness.Resilient.retryable
    gopherharness.Resilient.first_http
second_answers = refl

call-Honest_example : Honest two_clients (call two_clients "" rounds)
call-Honest_example = call-Honest two_clients 1 "" rounds refl (omega arith)

-- The first client shows a text and then loses its connection.
abbrev cut_play : ℕ → Play String
cut_play c = record {
  is_stream = true;
  chunks = record { text = "Hel"; refused = none } ∷ [];
  value = "Hel";
  error = some (network ∷ []);
  last_chunk = record { text = ""; refused = none };
}

abbrev cut_script : ℕ → ℕ → Attempt (λ t. t)
cut_script c n = record { done_before = none; client = cut_play c; random = 5; done_waiting = none }

cut_not_retried : stream (λ t. t) two_clients "" cut_script ≡ ("Hel", some (network ∷ []))
unfolding stream stream_report gopherharness.Resilient.Streaming.play call
    gopherharness.Resilient.all_clients gopherharness.Resilient.tries gopherharness.Resilient.round
    gopherharness.Resilient.after_answer gopherharness.Resilient.retryable
cut_not_retried = refl

stream-ShownOnce_example :
    ShownOnce (λ t. t) (stream_report (λ t. t) two_clients "" cut_script).asked
stream-ShownOnce_example = stream-ShownOnce (λ t. t) two_clients "" cut_script
