-- ===== src/Provider/Gemini/Words.antt =====
-- internal/relay/provider/gemini/streaming.go: what the chunks of `streamGenerateContent` say, and what
-- the chunks of the Chat Completions API say.
use cli_relay.Prelude.{String, Option, none, some, List, [], ◌∷◌, ◌++◌, ◌≡◌, refl, sym, ap, ◌∙◌}
use cli_relay.Prelude.Text.{append, append-append}
use cli_relay.Json.{Json, Fields}
use cli_relay.Provider.Values.{as_text?, as_object, as_list, objects, read}
use cli_relay.Provider.Contents.{chunk_content}

abbrev pub text_or_empty : Option String → String
text_or_empty none = ""
text_or_empty (some s) = s

-- The texts of the parts.
unfoldable pub parts_text : List Fields → String
unfolding append
parts_text [] = ""
parts_text (part ∷ parts) = append (text_or_empty (as_text? (read "text" part))) (parts_text parts)

abbrev pub candidate_text : List Json → String
candidate_text [] = ""
candidate_text (cand ∷ cands) =
    parts_text (objects (as_list (read "parts" (as_object (read "content" (as_object cand))))))

-- What the first candidate of a chunk says.
unfoldable pub chunk_text : Fields → String
unfolding parts_text
chunk_text chunk = candidate_text (as_list (read "candidates" chunk))

unfoldable pub all_text : List Fields → String
unfolding append chunk_text
all_text [] = ""
all_text (chunk ∷ chunks) = append (chunk_text chunk) (all_text chunks)

-- What the chunks of the Chat Completions API say, one after the other.
unfoldable pub all_content : List Fields → String
unfolding append chunk_content
all_content [] = ""
all_content (chunk ∷ chunks) = append (chunk_content chunk) (all_content chunks)

pub all_content-append :
    (a b : List Fields) → all_content (a ++ b) ≡ append (all_content a) (all_content b)
unfolding all_content
all_content-append [] b = unfold append in refl
all_content-append (chunk ∷ a) b =
    ap (append (chunk_content chunk)) (all_content-append a b)
    ∙ sym (append-append (chunk_content chunk) (all_content a) (all_content b))
