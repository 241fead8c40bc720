-- ===== src/Provider/Gemini/Streams.antt =====
-- internal/relay/provider/gemini/streaming.go: chunks of `streamGenerateContent`, converted to chunks
-- of the Chat Completions API.
use cli_relay.Prelude.{
  ℕ, suc, String, Bool, true, false, Option, none, some, List, [], ◌∷◌, ◌++◌, if◌then◌else◌, ◌==◌,
  ◌||◌, length,
}
use cli_relay.Prelude.Int.{pos, ◌+ℤ◌, int64}
use cli_relay.Prelude.Text.{
  append, trim_space, split_lines, split_blocks, trim_newlines, strip_prefix?,
}
use cli_relay.Json.{Json, number, text, array, object, Fields, end, field, of_int}
use cli_relay.Provider.Codec.{Codec, RandomHex, decoded_map}
use cli_relay.Provider.Internal.{InternalUsage}
use cli_relay.Provider.Values.{
  as_text, as_text?, as_int, as_object, as_object?, as_list, objects, elements, read, put, put_some,
  items,
}
use cli_relay.Provider.Chunks.{data_line}
use cli_relay.Provider.Anthropic.Streams.{build_open_ai_chunk, buffer_of}
use cli_relay.Provider.Gemini.Responses.{finish_of}

-- `geminiStreamState`; `drawn` counts the random names.
pub record GeminiStreamState : Type 0 where
  pub resp_id : String
  pub model : String
  pub role_id : String
  pub role_sent : Bool
  pub drawn : ℕ

abbrev pub new_gemini_stream_state : GeminiStreamState
new_gemini_stream_state = record {
  resp_id = "";
  model = "";
  role_id = "";
  role_sent = false;
  drawn = 0;
}

abbrev pub chunk_usage : InternalUsage → Json
chunk_usage usage = object (
    field "prompt_tokens" (number (of_int usage.prompt_tokens)) (
      field "completion_tokens" (number (of_int usage.completion_tokens)) (
        field "total_tokens"
          (number (of_int (int64 (usage.prompt_tokens +ℤ usage.completion_tokens)))) end)))

-- `buildGeminiChunk` builds what the function `buildOpenAIChunk` of the other package does.
unfoldable pub build_gemini_chunk_with_usage : GeminiStreamState → String → InternalUsage → Fields
unfolding build_open_ai_chunk put
build_gemini_chunk_with_usage s finish_reason usage =
    put "usage" (chunk_usage usage) (build_open_ai_chunk s.role_id s.model end finish_reason)

-- The first chunk names the stream.
abbrev pub name_stream : String → GeminiStreamState → GeminiStreamState
name_stream model s =
    if s.role_id == "" then record s { role_id = "chatcmpl-gemini"; model = model } else s

-- What the loop over the parts gathers: the draws, the text and the tool calls.
pub record GatheredParts : Type 0 where
  pub drawn : ℕ
  pub content_text : String
  pub tool_calls : List Json

abbrev streamed_usage : Fields → InternalUsage
streamed_usage um = record {
  prompt_tokens = as_int (read "promptTokenCount" um);
  completion_tokens = as_int (read "candidatesTokenCount" um);
}

abbrev pub usage_chunk : GeminiStreamState → String → Option Fields → List Fields
usage_chunk s finish_reason none = []
usage_chunk s finish_reason (some um) =
    build_gemini_chunk_with_usage s finish_reason (streamed_usage um) ∷ []

-- The usage of the last chunk.
unfoldable pub final_usage : GeminiStreamState → String → Fields → List Fields
unfolding build_gemini_chunk_with_usage
final_usage s finish_reason chunk =
    if finish_reason == ""
    then []
    else usage_chunk s finish_reason (as_object? (read "usageMetadata" chunk))

abbrev pub role_chunk : GeminiStreamState → List Fields
role_chunk s =
    if s.role_sent
    then []
    else build_open_ai_chunk s.role_id s.model (field "role" (text "assistant") end) "" ∷ []

abbrev calls_value : List Json → Option Json
calls_value [] = none
calls_value (v ∷ vs) = some (array (items (v ∷ vs)))

abbrev pub calls_reason : List Json → String → String
calls_reason [] finish_reason = finish_reason
calls_reason (v ∷ vs) finish_reason = "tool_calls"

abbrev pub delta_of : GatheredParts → Fields
delta_of g =
    put_some "tool_calls" (calls_value g.tool_calls)
      (if g.content_text == "" then end else field "content" (text g.content_text) end)

module _ (codec : Codec) (random_hex : RandomHex) where
  abbrev pub streamed_call : ℕ → ℕ → Fields → Json
  streamed_call drawn index fc = object (
      field "index" (number (of_int (pos index))) (
        field "id" (text (append "call_" (random_hex drawn 12))) (
          field "type" (text "function") (
            field "function"
              (object (
                field "name" (text (as_text (read "name" fc)))
                  (field "arguments" (text (codec.marshal (read "args" fc))) end)))
              end))))

  abbrev pub gather_text : Option String → GatheredParts → GatheredParts
  gather_text none g = g
  gather_text (some words) g = record g { content_text = append g.content_text words }

  abbrev pub gather_call : Option Fields → GatheredParts → GatheredParts
  gather_call none g = g
  gather_call (some fc) g = record {
    drawn = suc g.drawn;
    content_text = g.content_text;
    tool_calls = g.tool_calls ++ streamed_call g.drawn (length g.tool_calls) fc ∷ [];
  }

  unfoldable pub gather_parts : List Fields → GatheredParts → GatheredParts
  unfolding append
  gather_parts [] g = g
  gather_parts (part ∷ parts) g = gather_parts parts (
      gather_call (as_object? (read "functionCall" part))
        (gather_text (as_text? (read "text" part)) g))

  abbrev pub start_gathering : GeminiStreamState → GatheredParts
  start_gathering s = record { drawn = s.drawn; content_text = ""; tool_calls = [] }

  unfoldable pub convert_candidate :
      GeminiStreamState → Fields → Fields → GeminiStreamState × List Fields
  unfolding gather_parts build_open_ai_chunk final_usage put_some items
  convert_candidate s chunk cand =
      let parts = objects (as_list (read "parts" (as_object (read "content" cand)))) in
      let g = gather_parts parts (start_gathering s) in
      let finish_reason =
        calls_reason g.tool_calls (finish_of (as_text? (read "finishReason" cand))) in
      (
        record s { role_sent = true; drawn = g.drawn },
        role_chunk s
            ++ build_open_ai_chunk s.role_id s.model (delta_of g) finish_reason
              ∷ final_usage s finish_reason chunk,
      )

  abbrev pub convert_candidates :
      GeminiStreamState → Fields → List Json → GeminiStreamState × List Fields
  convert_candidates s chunk [] = (s, usage_chunk s "" (as_object? (read "usageMetadata" chunk)))
  convert_candidates s chunk (cand ∷ cands) = convert_candidate s chunk (as_object cand)

  unfoldable pub convert_chunk :
      String → GeminiStreamState → Fields → GeminiStreamState × List Fields
  unfolding convert_candidate build_gemini_chunk_with_usage
  convert_chunk model s chunk =
      convert_candidates (name_stream model s) chunk (as_list (read "candidates" chunk))

  -- The loop over the chunks of a wrapped response.
  unfoldable pub convert_chunks :
      String → GeminiStreamState → List Fields → GeminiStreamState × List Fields
  unfolding convert_chunk
  convert_chunks model s [] = (s, [])
  convert_chunks model s (chunk ∷ chunks) =
      let (next, converted) = convert_chunk model s chunk in
      let (last, others) = convert_chunks model next chunks in (last, converted ++ others)

  abbrev convert_unwrapped :
      String → GeminiStreamState → Fields → Json → GeminiStreamState × List Fields
  convert_unwrapped model s chunk (array vs) = convert_chunks model s (objects (elements vs))
  convert_unwrapped model s chunk _ = convert_chunk model s chunk

  -- A chunk, or the chunks that it wraps.
  unfoldable pub convert_wrapped :
      String → GeminiStreamState → Fields → GeminiStreamState × List Fields
  unfolding convert_chunks elements
  convert_wrapped model s chunk = convert_unwrapped model s chunk (read "response" chunk)

  unfoldable print_chunks : List Fields → String
  unfolding data_line append
  print_chunks [] = ""
  print_chunks (chunk ∷ chunks) = append (data_line codec chunk) (print_chunks chunks)

  abbrev printed : GeminiStreamState × List Fields → GeminiStreamState × Option String
  printed (s, []) = (s, none)
  printed (s, chunk ∷ chunks) = (s, some (print_chunks (chunk ∷ chunks)))

  abbrev convert_map :
      String → GeminiStreamState → Option Fields → GeminiStreamState × Option String
  convert_map model s none = (s, none)
  convert_map model s (some chunk) = printed (convert_wrapped model s chunk)

  abbrev without_prefix : Option String → String → String
  without_prefix none line = line
  without_prefix (some written) line = written

  -- The prefix `data: ` may be missing.
  unfoldable pub convert_gemini_line :
      String → GeminiStreamState → String → GeminiStreamState × Option String
  unfolding trim_space strip_prefix? convert_wrapped print_chunks
  convert_gemini_line model s line =
      let line_str = trim_space line in
      let written = without_prefix (strip_prefix? "data: " line_str) line_str in
      if line_str == "" || written == "[DONE]"
      then (s, none)
      else convert_map model s (decoded_map (codec.unmarshal written))

  abbrev cons_block : String → List String → List String
  cons_block block rest = if block == "" then rest else block ∷ rest

  unfoldable cons_blocks : List String → List String → List String
  cons_blocks [] rest = rest
  cons_blocks (block ∷ blocks) rest = cons_block block (cons_blocks blocks rest)

  abbrev blocks_of : Option String → List String → List String
  blocks_of none rest = rest
  blocks_of (some converted) rest = cons_blocks (split_blocks (trim_newlines converted)) rest

  unfoldable pub convert_gemini_lines : GeminiStreamState → List String → List String
  unfolding convert_gemini_line cons_blocks trim_newlines split_blocks
  convert_gemini_lines s [] = []
  convert_gemini_lines s (line ∷ lines) =
      let (next, converted) = convert_gemini_line "" s line in
      blocks_of converted (convert_gemini_lines next lines)

  -- A body that holds no chunk is handed on as it is.
  unfoldable pub convert_gemini_sse_buffer : String → String
  unfolding convert_gemini_lines split_lines append
  convert_gemini_sse_buffer sse_body =
      buffer_of sse_body (convert_gemini_lines new_gemini_stream_state (split_lines sse_body))
