-- ===== src/Llm/Memory.antt =====
-- llm_service/llm_service/memory/in_memory.py: the sliding window of a conversation.
pub mod Laws
use aiva_v.Prelude.{ℕ, ◌+◌, List, [], ◌∷◌, ◌++◌, length, ltb, ◌==◌, take_end, if◌then◌else◌}

pub record Memory (M : Type 0) : Type 0 where
  pub max_messages : ℕ
  pub messages : List M

module _ {M : Type 0} where
  pub new : ℕ → Memory M
  new max_messages = record { max_messages = max_messages; messages = [] }

  -- `xs[-n:]`: at `n = 0` the slice is `xs[0:]`, the whole list.
  pub slice_from_end : ℕ → List M → List M
  slice_from_end n xs = if n == 0 then xs else take_end n xs

  pub append : M → Memory M → Memory M
  unfolding slice_from_end
  append message m =
      let all = m.messages ++ message ∷ [] in
      if ltb m.max_messages (length all)
      then record m { messages = slice_from_end m.max_messages all }
      else record m { messages = all }

  pub get : Memory M → List M
  get m = m.messages

  pub clear : Memory M → Memory M
  clear m = record m { messages = [] }

  pub append_all : List M → Memory M → Memory M
  append_all [] m = m
  append_all (x ∷ xs) m = append_all xs (append x m)
