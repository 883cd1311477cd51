-- ===== src/Llm/Breaker/Laws.antt =====
-- The circuit breaker's invariant, and what a call does in each state.
use aiva_v.Prelude.{
  String, ℕ, ◌+◌, ◌≤◌, ◌<◌, ◌≡◌, ◌≢◌, none, some, List, [], ◌∷◌, length, arith, leb, if◌then◌else◌,
}
use aiva_v.Llm.Errors.{ErrorClass, LlmError, Outcome, returned, raised}
use aiva_v.Llm.Breaker.{
  State, Breaker, new, opened_or_zero, check_state, on_success, on_failure, call, Step, checks,
  succeeds, fails, Reach, start, more, fail_all,
}

-- A closed breaker has fewer failures than its threshold; an open or half-open one has at least as
-- many, and a time at which it opened.
abbrev pub IsValidState : State → Breaker → Type 0
IsValidState State.closed b = b.failures < b.threshold
IsValidState State.open_state b = (b.threshold ≤ b.failures) × (b.opened_at ≢ none)
IsValidState State.half_open b = (b.threshold ≤ b.failures) × (b.opened_at ≢ none)

abbrev pub IsValid : Breaker → Type 0
IsValid b = (0 < b.threshold) × IsValidState b.state b

check_state-IsValid : (now : ℕ) (b : Breaker) → IsValid b → IsValid (check_state now b).1
unfolding check_state
check_state-IsValid now b h = ground arith

on_failure-IsValid : (now : ℕ) (b : Breaker) → IsValid b → IsValid (on_failure now b)
unfolding on_failure
on_failure-IsValid now b h = ground arith

on_success-IsValid : (b : Breaker) → IsValid b → IsValid (on_success b)
unfolding on_success
on_success-IsValid b h = ground arith

Step-IsValid : {b c : Breaker} → Step b c → IsValid b → IsValid c
Step-IsValid {b = b} (checks now) h = check_state-IsValid now b h
Step-IsValid {b = b} succeeds h = on_success-IsValid b h
Step-IsValid {b = b} (fails now) h = on_failure-IsValid now b h

-- However the checks, successes and failures of concurrent calls interleave, a valid breaker stays
-- valid: it is closed only below its failure threshold, and open or half open only with the
-- threshold reached and an opening time recorded.
pub Reach-IsValid : (b c : Breaker) → Reach b c → IsValid b → IsValid c
Reach-IsValid b c start h = h
Reach-IsValid b c (more r s) h = Step-IsValid s (Reach-IsValid b _ r h)

-- While a breaker is open and its recovery timeout has not passed, a call raises CircuitOpenError
-- with the breaker's provider, and neither the breaker nor the world changes: the factory does
-- not run.
pub call_while_open :
    {W A : Type 0} (now later : ℕ) (factory : W → Outcome A × W) (b : Breaker) (w : W)
    → b.state ≡ State.open_state
    → now < opened_or_zero b.opened_at + b.timeout
    → call now later factory b w
      ≡ (raised (record { kind = ErrorClass.circuit_open; provider = b.provider }), b, w)
unfolding call check_state
call_while_open now later factory b w o t = ground arith

-- Once the timeout of a valid open breaker has passed, the call runs its factory as a probe: a
-- success closes the breaker and clears the failures, and a single failure opens it again from
-- the time of that failure.
call_probe :
    {W A : Type 0} (now later : ℕ) (factory : W → Outcome A × W) (b : Breaker) (w : W)
    → IsValid b
    → b.state ≡ State.open_state
    → opened_or_zero b.opened_at + b.timeout ≤ now
    → ((a : A) (w' : W)
        → factory w ≡ (returned a, w')
        → call now later factory b w
          ≡ (returned a, record b { failures = 0; state = State.closed }, w'))
      × ((e : LlmError) (w' : W)
          → factory w ≡ (raised e, w')
          → call now later factory b w ≡ (
            raised e,
            record b {
              failures = b.failures + 1;
              state = State.open_state;
              opened_at = some later;
            },
            w',
          ))
unfolding call check_state on_success on_failure
call_probe now later factory b w v o t = ((λ a w' f. ground arith), (λ e w' f. ground arith))

fail_all_closed :
    (ts : List ℕ) (b : Breaker)
    → b.state ≡ State.closed
    → b.failures + length ts < b.threshold
    → ((fail_all ts b).state ≡ State.closed) × ((fail_all ts b).failures ≡ b.failures + length ts)
unfolding fail_all on_failure
fail_all_closed [] b c h = (c, omega arith)
fail_all_closed (t ∷ ts) b c h = ground (arith, fail_all_closed ts (on_failure t b))

fail_all_open :
    (ts : List ℕ) (b : Breaker)
    → b.state ≡ State.open_state
    → b.threshold ≤ b.failures
    → (fail_all ts b).state ≡ State.open_state
unfolding fail_all on_failure
fail_all_open [] b c h = c
fail_all_open (t ∷ ts) b c h = ground (arith, fail_all_open ts (on_failure t b))

fail_all_trips :
    (ts : List ℕ) (b : Breaker)
    → b.state ≡ State.closed
    → b.failures < b.threshold
    → b.threshold ≤ b.failures + length ts
    → (fail_all ts b).state ≡ State.open_state
unfolding fail_all on_failure
fail_all_trips [] b c h k = absurd (omega arith)
fail_all_trips (t ∷ ts) b c h k =
    ground (arith, fail_all_trips ts (on_failure t b), fail_all_open ts (on_failure t b))

-- A new breaker with a positive threshold is open after a run of failures exactly when the run is
-- at least as long as the threshold, and is otherwise still closed.
pub trips_at_threshold :
    (threshold timeout : ℕ) (provider : String) (ts : List ℕ)
    → 0 < threshold
    → (fail_all ts (new threshold timeout provider)).state
      ≡ (if leb threshold (length ts) then State.open_state else State.closed)
unfolding new
trips_at_threshold threshold timeout provider ts h = ground (
  arith,
  fail_all_closed ts (new threshold timeout provider),
  fail_all_trips ts (new threshold timeout provider),
)
