-- ===== src/Provider/Chunks.antt =====
-- internal/relay/provider/anthropic/streaming.go and gemini/streaming.go: a chunk of a stream of the
-- Chat Completions API, decoded into a struct, and the lines of a stream.
use cli_relay.Prelude.{String, Option, none, some, List, [], ◌∷◌}
use cli_relay.Prelude.Int.{ℤ}
use cli_relay.Prelude.Text.{append, trim_space, strip_prefix?}
use cli_relay.Prelude.Results.{Result, ok, err, ◌>>=◌}
use cli_relay.Json.{Json, null, text, array, object, Items, nil, cons, Fields}
use cli_relay.Provider.Codec.{Codec}
use cli_relay.Provider.Values.{read, decode_text, decode_struct, decode_int}

pub record ChunkChoice : Type 0 where
  pub index : ℤ
  pub delta : Fields
  pub finish_reason : Option String

pub record Chunk : Type 0 where
  pub model : String
  pub choices : List ChunkChoice
  pub usage : Option (ℤ × ℤ)

-- `*string`, which `null` leaves nil.
abbrev pub decode_reason : Json → Result (Option String)
decode_reason null = ok none
decode_reason (text s) = ok (some s)
decode_reason _ = err "chunk"

abbrev pub decode_choice : Json → Result ChunkChoice
decode_choice v = decode_struct "chunk" v >>= λ fs.
    decode_int "chunk" (read "index" fs) >>= λ index.
    decode_struct "chunk" (read "delta" fs) >>= λ delta.
    decode_reason (read "finish_reason" fs) >>= λ reason.
    ok (record { index = index; delta = delta; finish_reason = reason })

unfoldable pub decode_choices : Items → Result (List ChunkChoice)
unfolding read
decode_choices nil = ok []
decode_choices (cons v vs) =
    let others = decode_choices vs in
    decode_choice v >>= λ choice. others >>= λ choices. ok (choice ∷ choices)

abbrev pub decode_list : Json → Result (List ChunkChoice)
decode_list null = ok []
decode_list (array vs) = decode_choices vs
decode_list _ = err "chunk"

-- A pointer to the counts.
abbrev pub decode_usage : Json → Result (Option (ℤ × ℤ))
decode_usage null = ok none
decode_usage (object usage) = decode_int "chunk" (read "prompt_tokens" usage) >>= λ prompt.
    decode_int "chunk" (read "completion_tokens" usage) >>= λ completion.
    ok (some (prompt, completion))
decode_usage _ = err "chunk"

unfoldable pub decode_chunk : Fields → Result Chunk
unfolding read decode_choices
decode_chunk fs = decode_text "chunk" (read "model" fs) >>= λ model.
    decode_list (read "choices" fs) >>= λ choices. decode_usage (read "usage" fs) >>= λ usage.
    ok (record { model = model; choices = choices; usage = usage })

-- What stands behind `data: `, if the line has it.
unfoldable pub data_of : String → Option String
unfolding strip_prefix? trim_space
data_of line = strip_prefix? "data: " (trim_space line)

-- `"data: " + string(b) + "\n\n"`
unfoldable pub data_line : Codec → Fields → String
unfolding append
data_line codec chunk = append "data: " (append (codec.marshal (object chunk)) "\n\n")
