-- ===== src/Llm/Errors.antt =====
-- llm_service/llm_service/core/exceptions.py: the exception classes and their hierarchy.
use aiva_v.Prelude.{String, Bool, true, false, Option, none, some}

pub data ErrorClass : Type 0 where
  llm_service provider_error authentication rate_limit invalid_request : ErrorClass
  context_length_exceeded timeout connection streaming retry_exhausted : ErrorClass
  circuit_open cache configuration middleware import_extra : ErrorClass

-- The base class of a class, up to `LLMServiceError`.
abbrev pub base : ErrorClass → Option ErrorClass
base ErrorClass.llm_service = none
base ErrorClass.authentication = some ErrorClass.provider_error
base ErrorClass.rate_limit = some ErrorClass.provider_error
base ErrorClass.invalid_request = some ErrorClass.provider_error
base ErrorClass.context_length_exceeded = some ErrorClass.invalid_request
base _ = some ErrorClass.llm_service

-- An exception: its class, and the attributes that the callers read.
pub record LlmError : Type 0 where
  pub kind : ErrorClass
  pub provider : String

-- What an awaited call does: it returns or raises.
pub data Outcome {ℓ} (A : Type ℓ) : Type ℓ where
  returned : A → Outcome A
  raised : LlmError → Outcome A

-- `except (RateLimitError, CircuitOpenError, TimeoutError)`: none of the three has a subclass.
unfoldable pub falls_back : LlmError → Bool
falls_back e = elim (e.kind) [
  | ErrorClass.rate_limit ↦ true
  | ErrorClass.circuit_open ↦ true
  | ErrorClass.timeout ↦ true
  | _ ↦ false
]

-- `retry_if_exception_type((RateLimitError, TimeoutError, ConnectionError))`
unfoldable pub is_retried : LlmError → Bool
is_retried e = elim (e.kind) [
  | ErrorClass.rate_limit ↦ true
  | ErrorClass.timeout ↦ true
  | ErrorClass.connection ↦ true
  | _ ↦ false
]
