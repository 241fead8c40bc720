-- ===== src/Provider/Contents.antt =====
-- internal/relay/provider/gemini/streaming.go: what a chunk of the Chat Completions API says, as it is
-- decoded and as it is written.
use cli_relay.Prelude.{String, List, [], ◌∷◌, ◌≡◌, refl, sym, ap, ◌∙◌}
use cli_relay.Prelude.Results.{Result, ok, err, ◌>>=◌, ok_inj}
use cli_relay.Json.{Json, null, boolean, number, text, array, object, Items, nil, cons, Fields}
use cli_relay.Provider.Values.{
  as_text, as_object, as_list, elements, read, decode_text, decode_struct, decode_int,
}
use cli_relay.Provider.Chunks.{
  Chunk, ChunkChoice, decode_choice, decode_choices, decode_list, decode_reason, decode_usage,
  decode_chunk,
}

abbrev pub first_content : List Json → String
first_content [] = ""
first_content (choice ∷ choices) =
    as_text (read "content" (as_object (read "delta" (as_object choice))))

-- The content of the first choice of a chunk, as it is written.
unfoldable pub chunk_content : Fields → String
unfolding read as_list
chunk_content chunk = first_content (as_list (read "choices" chunk))

-- The content of the first choice that was decoded.
abbrev pub said_by : List ChunkChoice → String
said_by [] = ""
said_by (choice ∷ choices) = as_text (read "content" choice.delta)

-- What a successful call was built from.
bind_ok :
    {A B : Type 0} (r : Result A) (f : A → Result B) {b : B}
    → (r >>= f) ≡ ok b
    → (a : A) × (r ≡ ok a) × (f a ≡ ok b)
bind_ok (ok a) f e = (a, refl, e)
bind_ok (err m) f e = cc

as_object-decode_struct :
    (v : Json) (fs : Fields) → decode_struct "chunk" v ≡ ok fs → as_object v ≡ fs
as_object-decode_struct (object fs') fs e = ok_inj e
as_object-decode_struct null fs e = ok_inj e
as_object-decode_struct (boolean b) fs e = cc
as_object-decode_struct (number x) fs e = cc
as_object-decode_struct (text s) fs e = cc
as_object-decode_struct (array vs) fs e = cc

choice-content :
    (v : Json) (choice : ChunkChoice)
    → decode_choice v ≡ ok choice
    → as_text (read "content" choice.delta)
      ≡ as_text (read "content" (as_object (read "delta" (as_object v))))
choice-content v choice e =
    let (fs, struct, e1) = bind_ok (decode_struct "chunk" v) _ e in
    let (index, _, e2) = bind_ok (decode_int "chunk" (read "index" fs)) _ e1 in
    let (delta, inner, e3) = bind_ok (decode_struct "chunk" (read "delta" fs)) _ e2 in
    let (reason, _, e4) = bind_ok (decode_reason (read "finish_reason" fs)) _ e3 in
    sym (ap (λ (c : ChunkChoice). as_text (read "content" c.delta)) (ok_inj e4))
    ∙ sym (
        ap (λ fs. as_text (read "content" fs))
          (ap (λ fs. as_object (read "delta" fs)) (as_object-decode_struct v fs struct)
            ∙ as_object-decode_struct (read "delta" fs) delta inner))

choices-content :
    (vs : Items) (choices : List ChunkChoice)
    → decode_choices vs ≡ ok choices
    → said_by choices ≡ first_content (elements vs)
unfolding decode_choices elements
choices-content nil choices e = sym (ap said_by (ok_inj e))
choices-content (cons v vs) choices e =
    let (choice, first, e1) = bind_ok (decode_choice v) _ e in
    let (others, _, e2) = bind_ok (decode_choices vs) _ e1 in
    sym (ap said_by (ok_inj e2)) ∙ choice-content v choice first

list-content :
    (v : Json) (choices : List ChunkChoice)
    → decode_list v ≡ ok choices
    → said_by choices ≡ first_content (as_list v)
unfolding as_list
list-content null choices e = sym (ap said_by (ok_inj e))
list-content (array vs) choices e = choices-content vs choices e
list-content (boolean b) choices e = cc
list-content (number x) choices e = cc
list-content (text s) choices e = cc
list-content (object fs) choices e = cc

-- What is decoded says what is written.
pub decode_chunk-content :
    (fs : Fields) (chunk : Chunk)
    → decode_chunk fs ≡ ok chunk
    → said_by chunk.choices ≡ chunk_content fs
unfolding decode_chunk chunk_content
decode_chunk-content fs chunk e =
    let (model, _, e1) = bind_ok (decode_text "chunk" (read "model" fs)) _ e in
    let (choices, listed, e2) = bind_ok (decode_list (read "choices" fs)) _ e1 in
    let (usage, _, e3) = bind_ok (decode_usage (read "usage" fs)) _ e2 in
    sym (ap (λ (c : Chunk). said_by c.choices) (ok_inj e3))
    ∙ list-content (read "choices" fs) choices listed
