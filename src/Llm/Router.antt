-- ===== src/Llm/Router.antt =====
-- llm_service/llm_service/routing/router.py: the router over several providers. A provider is what
-- its `achat` and `astream` do to the world `W`; a response is its content with the metadata.
pub mod Laws
use aiva_v.Prelude.{
  String, Bool, true, false, Option, none, some, List, [], ◌∷◌, ◌++◌, if◌then◌else◌, Dict, lookup,
}
use aiva_v.Llm.Errors.{ErrorClass, LlmError, Outcome, returned, raised, falls_back}
use aiva_v.Llm.Strategies.{Strategy, order}

pub record Response (C : Type 0) : Type 0 where
  pub content : C
  pub metadata : Dict String

-- What iterating over a provider's stream gives: the chunks, and the exception that ended it.
pub record Stream (K : Type 0) : Type 0 where
  pub chunks : List K
  pub error : Option LlmError

pub record Provider (W Q C K : Type 0) : Type 0 where
  pub provider_name : String
  pub achat : Q → W → Outcome (Response C) × W
  pub astream : Q → W → Stream K × W

pub record Router (W Q C K : Type 0) : Type 0 where
  pub providers : List (Provider W Q C K)
  pub strategy : Strategy
  pub name : String

-- `d.setdefault(k, v)`
pub setdefault : String → String → Dict String → Dict String
setdefault k v d = elim (lookup k d) [ some _ ↦ d | none ↦ d ++ (k, v) ∷ [] ]

pub routed_via : {C : Type 0} → String → Response C → Response C
unfolding setdefault
routed_via name r = record r { metadata = setdefault "routed_via" name r.metadata }

pub exhausted : String → LlmError
exhausted name = record { kind = ErrorClass.retry_exhausted; provider = name }

pub data NewRouter (W Q C K : Type 0) : Type 0 where
  value_error : NewRouter W Q C K
  made : Router W Q C K → NewRouter W Q C K

module _ {W K : Type 0} where
  prepend : List K → Stream K × W → Stream K × W
  prepend cs (s, w) = (record { chunks = cs ++ s.chunks; error = s.error }, w)

  stream_on : (W → Stream K × W) → Option LlmError → Stream K → W → Stream K × W
  unfolding prepend
  stream_on rest none s w = (s, w)
  stream_on rest (some e) s w = if falls_back e then prepend s.chunks (rest w) else (s, w)

module _ {W Q C K : Type 0} where
  -- `LLMRouter(providers, strategy, name=name)`; no strategy means the fallback one.
  pub new : List (Provider W Q C K) → Option Strategy → String → NewRouter W Q C K
  new [] strategy name = value_error
  new (p ∷ ps) none name =
      made (record { providers = p ∷ ps; strategy = Strategy.fallback; name = name })
  new (p ∷ ps) (some s) name = made (record { providers = p ∷ ps; strategy = s; name = name })

  -- One iteration of the loop of `achat`, given what the rest of the loop does.
  attempt :
      Provider W Q C K
      → (W → Outcome (Response C) × W)
      → Outcome (Response C) × W
      → Outcome (Response C) × W
  attempt p rest (returned r, w) = (returned (routed_via p.provider_name r), w)
  attempt p rest (raised e, w) = if falls_back e then rest w else (raised e, w)

  pub try_each : String → Q → List (Provider W Q C K) → W → Outcome (Response C) × W
  unfolding attempt
  try_each name q [] w = (raised (exhausted name), w)
  try_each name q (p ∷ ps) w = attempt p (try_each name q ps) (p.achat q w)

  pub achat : Q → Router W Q C K → W → (Outcome (Response C) × W) × Router W Q C K
  achat q r w =
      let (ordered, s) = order (λ (p : Provider W Q C K). p.provider_name) r.strategy r.providers in
      (try_each r.name q ordered w, record r { strategy = s })

  -- The loop of `astream`: what was yielded before a failure stays yielded.
  pub stream_each : String → Q → List (Provider W Q C K) → W → Stream K × W
  unfolding stream_on
  stream_each name q [] w = (record { chunks = []; error = some (exhausted name) }, w)
  stream_each name q (p ∷ ps) w =
      let (s, w') = p.astream q w in stream_on (stream_each name q ps) s.error s w'

  pub astream : Q → Router W Q C K → W → (Stream K × W) × Router W Q C K
  astream q r w =
      let (ordered, s) = order (λ (p : Provider W Q C K). p.provider_name) r.strategy r.providers in
      (stream_each r.name q ordered w, record r { strategy = s })
