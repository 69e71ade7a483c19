-- ===== src/Core/Tokens/Measure.antt =====
-- crates/rootmode-core/src/tokens.rs: TokenUsage::measure and count_prompt: counting a chat the way it is billed.
pub mod Exact
use rootmode.Prelude.{
  ℕ, ◌+◌, ◌*◌, ◌%◌, ◌^◌, Option, none, some, List, [], ◌∷◌, length, is_empty, if◌then◌else◌,
}
use rootmode.Prelude.Text.{Text}
use rootmode.Core.Job.{ToolCall, ChatMessage, ToolDef, LlmParams}
use rootmode.Core.Tokens.{TokenUsage}

abbrev pub image_tokens : ℕ
image_tokens = 765

abbrev tokens_per_message : ℕ
tokens_per_message = 3

abbrev reply_priming : ℕ
reply_priming = 3

abbrev tool_call_overhead : ℕ
tool_call_overhead = 1

abbrev tools_preamble : ℕ
tools_preamble = 9

-- `+=` on `u64`, as a release build computes it.
abbrev pub add_u64 : ℕ → ℕ → ℕ
add_u64 a b = (a + b) % 2 ^ 64

-- What tiktoken and serde_json do: the encoding of a model, the number of tokens of a text in it,
-- and the text of a JSON value.
pub record Tokenizer (V : Type 0) : Type 1 where
  pub Bpe : Type 0
  pub encoding_for : Option Text → Bpe
  pub count_ordinary : Bpe → Text → ℕ
  pub to_string : V → Text

module _ {V : Type 0} (T : Tokenizer V) where
  open T use {Bpe, encoding_for, count_ordinary, to_string}

  unfoldable pub count_text : Bpe → Text → ℕ
  count_text bpe t = if is_empty t then 0 else count_ordinary bpe t

  abbrev pub count_option : Bpe → Option Text → ℕ
  count_option bpe none = 0
  count_option bpe (some t) = count_text bpe t

  -- `if let Some(t) = … { n += count_text(t) }`
  abbrev pub add_option : Bpe → ℕ → Option Text → ℕ
  add_option bpe n none = n
  add_option bpe n (some t) = add_u64 n (count_text bpe t)

  -- The loop over a turn's tool calls, from the count so far.
  unfoldable pub count_calls : Bpe → ℕ → List ToolCall → ℕ
  unfolding count_text
  count_calls bpe n [] = n
  count_calls bpe n (call ∷ calls) =
      let n1 = add_u64 n (count_text bpe call.id) in
      let n2 = add_u64 n1 (count_text bpe call.name) in
      let n3 = add_u64 n2 (count_text bpe call.arguments) in
      count_calls bpe (add_u64 n3 tool_call_overhead) calls

  -- One round of the loop over the messages. An absent `tool_call_id` adds nothing.
  unfoldable pub count_message : Bpe → ℕ → ChatMessage → ℕ
  unfolding count_text count_calls
  count_message bpe n m =
      let n1 = add_u64 n tokens_per_message in
      let n2 = add_u64 n1 (count_text bpe m.role) in
      let n3 = add_u64 n2 (count_text bpe m.content) in
      let n4 = add_option bpe n3 m.tool_call_id in
      let n5 = count_calls bpe n4 m.tool_calls in
      add_u64 n5 ((length m.images * image_tokens) % 2 ^ 64)

  unfoldable pub count_messages : Bpe → ℕ → List ChatMessage → ℕ
  unfolding count_message
  count_messages bpe n [] = n
  count_messages bpe n (m ∷ ms) = count_messages bpe (count_message bpe n m) ms

  unfoldable pub count_tool : Bpe → ℕ → ToolDef V → ℕ
  unfolding count_text
  count_tool bpe n t =
      let n1 = add_u64 n (count_text bpe t.name) in
      let n2 = add_option bpe n1 t.description in
      let n3 = add_u64 n2 (count_text bpe (to_string t.input_schema)) in add_u64 n3 3

  unfoldable pub count_tools : Bpe → ℕ → List (ToolDef V) → ℕ
  unfolding count_tool
  count_tools bpe n [] = n
  count_tools bpe n (t ∷ ts) = count_tools bpe (count_tool bpe n t) ts

  unfoldable pub count_prompt : {F : Type 0} → Bpe → LlmParams F V → ℕ
  unfolding count_messages count_tools
  count_prompt bpe params =
      let n = count_messages bpe reply_priming params.messages in
      if is_empty params.tools then n else count_tools bpe (add_u64 n tools_preamble) params.tools

  unfoldable pub measure :
      {F : Type 0} → LlmParams F V → Option Text → Option Text → List ToolCall → TokenUsage
  unfolding count_prompt
  measure params reply thinking calls =
      let bpe = encoding_for params.model_id in
      let prompt = count_prompt bpe params in
      let reasoning = count_option bpe thinking in
      let completion = add_option bpe reasoning reply in
      record {
        prompt = prompt;
        completion = count_calls bpe completion calls;
        cached = 0;
        reasoning = reasoning;
      }

  -- The bill in closed form, with no machine arithmetic.
  unfoldable pub calls_tokens : Bpe → List ToolCall → ℕ
  calls_tokens bpe [] = 0
  calls_tokens bpe (c ∷ cs) =
      count_text bpe c.id
      + count_text bpe c.name
      + count_text bpe c.arguments
      + 1
      + calls_tokens bpe cs

  unfoldable pub messages_tokens : Bpe → List ChatMessage → ℕ
  messages_tokens bpe [] = 0
  messages_tokens bpe (m ∷ ms) =
      3
      + count_text bpe m.role
      + count_text bpe m.content
      + count_option bpe m.tool_call_id
      + calls_tokens bpe m.tool_calls
      + 765 * length m.images
      + messages_tokens bpe ms

  unfoldable pub tools_tokens : Bpe → List (ToolDef V) → ℕ
  tools_tokens bpe [] = 0
  tools_tokens bpe (t ∷ ts) =
      count_text bpe t.name
      + count_option bpe t.description
      + count_text bpe (to_string t.input_schema)
      + 3
      + tools_tokens bpe ts

  unfoldable pub completion_tokens : Bpe → Option Text → Option Text → List ToolCall → ℕ
  completion_tokens bpe reply thinking calls =
      count_option bpe thinking + count_option bpe reply + calls_tokens bpe calls

  unfoldable pub prompt_tokens : {F : Type 0} → Bpe → LlmParams F V → ℕ
  prompt_tokens bpe params =
      3
      + messages_tokens bpe params.messages
      + (if is_empty params.tools then 0 else 9 + tools_tokens bpe params.tools)
