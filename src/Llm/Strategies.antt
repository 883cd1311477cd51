-- ===== src/Llm/Strategies.antt =====
-- llm_service/llm_service/routing/strategies.py: the order in which a router tries its providers.
-- `HealthAwareBalancer` of routing/load_balancer.py stands here too. Costs are in hundredths of the
-- table's unit.
pub mod Laws
use aiva_v.Prelude.{
  String, ℕ, zero, suc, ◌+◌, ◌%◌, Bool, true, false, not, Option, none, some, List, [], ◌∷◌, ◌++◌,
  length, get_elem?, keep_if, any_of, leb, ◌==◌, str_eq, if◌then◌else◌, Dict, lookup,
}

-- `_COST_TABLE`
pub cost_table : Dict ℕ
cost_table =
    ("openai", 100)
    ∷ ("anthropic", 110)
    ∷ ("gemini", 80)
    ∷ ("azure_openai", 100)
    ∷ ("ollama", 1)
    ∷ ("vllm", 1)
    ∷ ("openrouter", 100)
    ∷ ("huggingface", 50)
    ∷ ("local", 0)
    ∷ ("mock", 0)
    ∷ []

cost_or_default : Option ℕ → ℕ
cost_or_default none = 99900
cost_or_default (some c) = c

-- `_COST_TABLE.get(p.provider_name, 999.0)`
pub cost_of : String → ℕ
unfolding cost_table cost_or_default
cost_of name = cost_or_default (lookup name cost_table)

-- The strategy object: only the round robin has state, its index.
pub data Strategy : Type 0 where
  round_robin : ℕ → Strategy
  cost_optimized fallback lowest_latency : Strategy

module _ {P : Type 0} where
  -- `[p for j, p in enumerate(providers) if j != i]`, counting from `j`.
  pub others : ℕ → ℕ → List P → List P
  others i j [] = []
  others i j (p ∷ ps) = if j == i then others i (j + 1) ps else p ∷ others i (j + 1) ps

  pub rotated : ℕ → List P → List P
  rotated i ps = elim (get_elem? ps i) [ none ↦ [] | some p ↦ p ∷ others i 0 ps ]

  pub order_round_robin : ℕ → List P → List P × Strategy
  unfolding rotated
  order_round_robin idx [] = ([], round_robin idx)
  order_round_robin idx (p ∷ ps) =
      let i = (idx + 1) % length (p ∷ ps) in (rotated i (p ∷ ps), round_robin i)

-- `sorted(…, key=…)`, the stable sort of Python, by insertion before the first larger key.
module _ {P : Type 0} (key : P → ℕ) where
  pub insert_by : P → List P → List P
  insert_by p [] = p ∷ []
  insert_by p (q ∷ qs) = if leb (key p) (key q) then p ∷ q ∷ qs else q ∷ insert_by p qs

  pub sorted_by : List P → List P
  sorted_by [] = []
  sorted_by (p ∷ ps) = insert_by p (sorted_by ps)

module _ {P : Type 0} (name : P → String) where
  -- `strategy.order(providers, request)`, with the strategy as it is afterwards.
  pub order : Strategy → List P → List P × Strategy
  order (round_robin idx) ps = order_round_robin idx ps
  order cost_optimized ps = (sorted_by (λ p. cost_of (name p)) ps, cost_optimized)
  order fallback ps = (ps, fallback)
  order lowest_latency ps = (ps, lowest_latency)

  -- The strategy after `n` calls of `order` on the same providers.
  pub order_times : ℕ → Strategy → List P → Strategy
  order_times zero s ps = s
  order_times (suc n) s ps = order_times n (order s ps).1 ps

-- `HealthAwareBalancer`: the set of bad names, as a list.
pub record Balancer : Type 0 where
  pub bad : List String

pub mark_bad : String → Balancer → Balancer
mark_bad name b = record { bad = name ∷ keep_if (λ n. not (str_eq n name)) b.bad }

pub mark_good : String → Balancer → Balancer
mark_good name b = record { bad = keep_if (λ n. not (str_eq n name)) b.bad }

pub healthy : {P : Type 0} → (P → String) → Balancer → List P → List P
healthy name b ps = keep_if (λ p. not (any_of (λ n. str_eq n (name p)) b.bad)) ps
