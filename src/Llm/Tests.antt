-- ===== src/Llm/Tests.antt =====
-- The theorems at concrete inputs, and runs of the code.
use aiva_v.Prelude.{String, ℕ, ◌+◌, ◌≢◌, none, some, List, [], ◌∷◌, arith, eq_iff}
use aiva_v.Llm.Errors.{ErrorClass, LlmError, Outcome, returned, raised}
use aiva_v.Llm.Breaker
use aiva_v.Llm.Breaker.{Breaker, State, Reach, check_state, on_failure}
use aiva_v.Llm.Breaker.Laws.{IsValid, Reach-IsValid}
use aiva_v.Llm.Cache
use aiva_v.Llm.Router.{Provider, try_each, stream_each}
use aiva_v.Llm.Router.Laws.{Routed, Streamed, try_each-Routed, stream_each-Streamed}

-- A breaker with three failures allowed, opened at time 100 with a timeout of 30.
abbrev opened : Breaker
opened = record {
  threshold = 3;
  timeout = 30;
  failures = 3;
  state = State.open_state;
  opened_at = some 100;
  provider = "openai";
}

abbrev limited : LlmError
limited = record { kind = ErrorClass.rate_limit; provider = "openai" }

-- A factory that counts its runs and fails.
abbrev failing : ℕ → Outcome ℕ × ℕ
failing n = (raised limited, n + 1)

opened-IsValid : IsValid opened
opened-IsValid = ground arith

Reach-IsValid_example : IsValid (on_failure 150 (check_state 140 opened).1)
Reach-IsValid_example =
    Reach-IsValid opened (on_failure 150 (check_state 140 opened).1)
      (Reach.more (Reach.more Reach.start (Breaker.checks 140)) (Breaker.fails 150)) opened-IsValid

abbrev cache : Cache.ResponseCache ℕ
cache = record { default_ttl = some 300; data_of = [] }

a_not_b : ◌≢◌ {A = String} "a" "b"
a_not_b = ground (arith, eq_iff "a" "b")

abbrev said : List ℕ
said = 1 ∷ 2 ∷ 3 ∷ []

abbrev names : List String
names = "openai" ∷ "gemini" ∷ "mock" ∷ []

abbrev same : String → String
same n = n

-- A provider that is rate limited after one chunk, and one that answers.
abbrev busy : Provider ℕ ℕ ℕ ℕ
busy = record {
  provider_name = "openai";
  achat = λ q w. (raised limited, w + 1);
  astream = λ q w. (record { chunks = q ∷ []; error = some limited }, w + 1);
}

abbrev free : Provider ℕ ℕ ℕ ℕ
free = record {
  provider_name = "gemini";
  achat = λ q w. (returned (record { content = q; metadata = [] }), w + 1);
  astream = λ q w. (record { chunks = q ∷ (q + 1) ∷ []; error = none }, w + 1);
}

try_each-Routed_example :
    Routed 5 "router" (busy ∷ free ∷ []) 0 (try_each "router" 5 (busy ∷ free ∷ []) 0)
try_each-Routed_example = try_each-Routed 5 "router" (busy ∷ free ∷ []) 0

stream_each-Streamed_example :
    Streamed 5 "router" (busy ∷ free ∷ []) 0 (stream_each "router" 5 (busy ∷ free ∷ []) 0)
stream_each-Streamed_example = stream_each-Streamed 5 "router" (busy ∷ free ∷ []) 0
