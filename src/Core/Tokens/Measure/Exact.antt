-- ===== src/Core/Tokens/Measure/Exact.antt =====
-- The counting loops of tokens.rs against their closed forms, modulo 2 ^ 64.
use rootmode.Prelude.{
  ℕ, ◌+◌, ◌%◌, ◌^◌, ◌≤◌, ◌<◌, ◌≡◌, ◌∙◌, Option, none, some, List, [], ◌∷◌, arith, u64_max,
}
use rootmode.Prelude.Text.{Text}
use rootmode.Core.Job.{ToolCall, ChatMessage, ToolDef, LlmParams}
use rootmode.Core.Tokens.Measure.{
  Tokenizer, count_text, count_option, add_option, add_u64, count_calls, count_message,
  count_messages, count_tool, count_tools, count_prompt, measure, calls_tokens, messages_tokens,
  tools_tokens, prompt_tokens, completion_tokens,
}

module _ {V : Type 0} (T : Tokenizer V) where
  open T use {Bpe, encoding_for}

  add_option-mod :
      (bpe : Bpe) (n : ℕ) (o : Option Text)
      → add_option T bpe n o % 2 ^ 64 ≡ (n + count_option T bpe o) % 2 ^ 64
  add_option-mod bpe n none = omega arith
  add_option-mod bpe n (some t) = omega arith

  count_calls-mod :
      (bpe : Bpe) (n : ℕ) (cs : List ToolCall)
      → count_calls T bpe n cs % 2 ^ 64 ≡ (n + calls_tokens T bpe cs) % 2 ^ 64
  unfolding count_calls calls_tokens
  count_calls-mod bpe n [] = omega arith
  count_calls-mod bpe n (c ∷ cs) =
      let n3 =
        add_u64 (add_u64 (add_u64 n (count_text T bpe c.id)) (count_text T bpe c.name))
          (count_text T bpe c.arguments) in
      count_calls-mod bpe (add_u64 n3 1) cs ∙ omega arith

  count_messages-mod :
      (bpe : Bpe) (n : ℕ) (ms : List ChatMessage)
      → count_messages T bpe n ms % 2 ^ 64 ≡ (n + messages_tokens T bpe ms) % 2 ^ 64
  unfolding count_messages count_message messages_tokens
  count_messages-mod bpe n [] = omega arith
  count_messages-mod bpe n (m ∷ ms) =
      let n3 =
        add_u64 (add_u64 (add_u64 n 3) (count_text T bpe m.role)) (count_text T bpe m.content) in
      let n4 = add_option T bpe n3 m.tool_call_id in
      count_messages-mod bpe (count_message T bpe n m) ms
      ∙ omega (arith, add_option-mod bpe n3 m.tool_call_id, count_calls-mod bpe n4 m.tool_calls)

  count_tools-mod :
      (bpe : Bpe) (n : ℕ) (ts : List (ToolDef V))
      → count_tools T bpe n ts % 2 ^ 64 ≡ (n + tools_tokens T bpe ts) % 2 ^ 64
  unfolding count_tools count_tool tools_tokens
  count_tools-mod bpe n [] = omega arith
  count_tools-mod bpe n (t ∷ ts) =
      let n1 = add_u64 n (count_text T bpe t.name) in
      count_tools-mod bpe (count_tool T bpe n t) ts
      ∙ omega (arith, add_option-mod bpe n1 t.description)

  count_calls-lt :
      (bpe : Bpe) (n : ℕ) (cs : List ToolCall) → n < 2 ^ 64 → count_calls T bpe n cs < 2 ^ 64
  unfolding count_calls
  count_calls-lt bpe n [] h = h
  count_calls-lt bpe n (c ∷ cs) h =
      let n3 =
        add_u64 (add_u64 (add_u64 n (count_text T bpe c.id)) (count_text T bpe c.name))
          (count_text T bpe c.arguments) in
      count_calls-lt bpe (add_u64 n3 1) cs (omega arith)

  count_messages-lt :
      (bpe : Bpe) (n : ℕ) (ms : List ChatMessage) → n < 2 ^ 64 → count_messages T bpe n ms < 2 ^ 64
  unfolding count_messages count_message
  count_messages-lt bpe n [] h = h
  count_messages-lt bpe n (m ∷ ms) h =
      count_messages-lt bpe (count_message T bpe n m) ms (omega arith)

  count_tools-lt :
      (bpe : Bpe) (n : ℕ) (ts : List (ToolDef V)) → n < 2 ^ 64 → count_tools T bpe n ts < 2 ^ 64
  unfolding count_tools count_tool
  count_tools-lt bpe n [] h = h
  count_tools-lt bpe n (t ∷ ts) h = count_tools-lt bpe (count_tool T bpe n t) ts (omega arith)

  -- Whatever its length, a prompt is counted as the closed form says, modulo 2 ^ 64.
  count_prompt-mod :
      {F : Type 0} (bpe : Bpe) (p : LlmParams F V)
      → count_prompt T bpe p ≡ prompt_tokens T bpe p % 2 ^ 64
  unfolding count_prompt prompt_tokens
  count_prompt-mod bpe p =
      let ms = p.messages in
      let ts = p.tools in
      let n = count_messages T bpe 3 ms in
      ground (
        arith,
        count_messages-mod bpe 3 ms,
        count_messages-lt bpe 3 ms (omega arith),
        count_tools-mod bpe (add_u64 n 9) ts,
        count_tools-lt bpe (add_u64 n 9) ts (omega arith),
      )

  -- When the sums over the whole conversation fit a u64, measure, whose loops add modulo 2^64,
  -- returns the plain sums over the messages, their tool calls, the tool definitions, the reply
  -- and the thinking text, with nothing cached and the reasoning counted from the thinking
  -- text.
  pub measure-exact :
      {F : Type 0} (p : LlmParams F V) (reply thinking : Option Text) (calls : List ToolCall)
      → prompt_tokens T (encoding_for p.model_id) p ≤ u64_max
      → completion_tokens T (encoding_for p.model_id) reply thinking calls ≤ u64_max
      → let bpe = encoding_for p.model_id in
        measure T p reply thinking calls ≡ record {
          prompt = prompt_tokens T bpe p;
          completion = completion_tokens T bpe reply thinking calls;
          cached = 0;
          reasoning = count_option T bpe thinking;
        }
  unfolding measure completion_tokens
  measure-exact p reply thinking calls hp hc =
      let bpe = encoding_for p.model_id in
      let n = add_option T bpe (count_option T bpe thinking) reply in
      ground (
        arith,
        count_prompt-mod bpe p,
        add_option-mod bpe (count_option T bpe thinking) reply,
        count_calls-mod bpe n calls,
        count_calls-lt bpe n calls,
      )
