-- ===== src/Llm/Breaker.antt =====
-- llm_service/llm_service/transport/circuit_breaker.py: the circuit breaker. Times are readings of
-- `time.monotonic()` in whole ticks. `call` awaits in the middle, so other calls may run between
-- its check and its record of the outcome: `Step` is one of these atomic parts.
pub mod Laws
use aiva_v.Prelude.{
  List, [], ◌∷◌, String, ℕ, ◌+◌, ◌≡◌, Bool, true, false, Option, none, some, leb, if◌then◌else◌,
}
use aiva_v.Llm.Errors.{ErrorClass, LlmError, Outcome, returned, raised}

pub data State : Type 0 where
  closed open_state half_open : State

pub record Breaker : Type 0 where
  pub threshold : ℕ
  pub timeout : ℕ
  pub failures : ℕ
  pub state : State
  pub opened_at : Option ℕ
  pub provider : String

pub new : ℕ → ℕ → String → Breaker
new threshold timeout provider = record {
  threshold = threshold;
  timeout = timeout;
  failures = 0;
  state = State.closed;
  opened_at = none;
  provider = provider;
}

-- `self._opened_at or 0`
abbrev pub opened_or_zero : Option ℕ → ℕ
opened_or_zero none = 0
opened_or_zero (some t) = t

pub data Check : Type 0 where
  pass : Check
  refused : LlmError → Check

-- `elapsed >= self._timeout`, with the subtraction moved across.
check_open : ℕ → Breaker → Check × Breaker
check_open now b =
    if leb (opened_or_zero b.opened_at + b.timeout) now
    then (pass, record b { state = State.half_open })
    else (refused (record { kind = ErrorClass.circuit_open; provider = b.provider }), b)

check_by : State → ℕ → Breaker → Check × Breaker
check_by State.open_state now b = check_open now b
check_by _ now b = (pass, b)

pub check_state : ℕ → Breaker → Check × Breaker
unfolding check_by check_open
check_state now b = check_by b.state now b

pub on_success : Breaker → Breaker
on_success b = record b { failures = 0; state = State.closed }

pub on_failure : ℕ → Breaker → Breaker
on_failure now b =
    let b' = record b { failures = b.failures + 1 } in
    if leb b'.threshold b'.failures
    then record b' { state = State.open_state; opened_at = some now }
    else b'

-- `call`, undisturbed by other calls: `factory` runs from the world `w`, and the clock stands at
-- `now` when it is checked and at `later` when it has ended.
module _ {W A : Type 0} where
  settle : ℕ → Breaker → Outcome A × W → Outcome A × Breaker × W
  settle later b (returned a, w) = (returned a, on_success b, w)
  settle later b (raised e, w) = (raised e, on_failure later b, w)

  admit : ℕ → (W → Outcome A × W) → W → Check × Breaker → Outcome A × Breaker × W
  admit later factory w (pass, b) = settle later b (factory w)
  admit later factory w (refused e, b) = (raised e, b, w)

  pub call : ℕ → ℕ → (W → Outcome A × W) → Breaker → W → Outcome A × Breaker × W
  unfolding settle admit
  call now later factory b w = admit later factory w (check_state now b)

-- One atomic part of a call, at some time: the check, a success or a failure.
pub data Step (b : Breaker) : Breaker → Type 0 where
  checks : (now : ℕ) → Step b (check_state now b).1
  succeeds : Step b (on_success b)
  fails : (now : ℕ) → Step b (on_failure now b)

pub data Reach (b : Breaker) : Breaker → Type 0 where
  start : Reach b b
  more : {c d : Breaker} → Reach b c → Step c d → Reach b d

-- The breaker after calls that all failed, at the given times, with no check between them.
pub fail_all : List ℕ → Breaker → Breaker
fail_all [] b = b
fail_all (t ∷ ts) b = fail_all ts (on_failure t b)
