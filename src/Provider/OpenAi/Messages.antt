-- ===== src/Provider/OpenAi/Messages.antt =====
-- internal/relay/provider/openai/to_internal.go: a message that is written for the Chat Completions
-- API and read back.
use cli_relay.Prelude.{
  ℕ, suc, String, true, false, none, some, List, [], ◌∷◌, map, ◌==◌, ◌≡◌, ◌⊎◌, inl, inr, refl, ap₂,
  All,
}
use cli_relay.Json.{Json, null, text}
use cli_relay.Provider.Internal.{
  InternalMessage, InternalContentPart, InternalToolCall, InternalToolResult,
}
use cli_relay.Provider.Values
use cli_relay.Provider.OpenAi.Parse
use cli_relay.Provider.OpenAi.Build

abbrev pub image_part : String → InternalContentPart
image_part url = record { type = "image_url"; content = ""; image_url = some url }

-- A text without an image, or an image without a text.
abbrev pub IsPart : InternalContentPart → Type 0
IsPart p = ((s : String) × (p ≡ Parse.text_part s)) ⊎ ((url : String) × (p ≡ image_part url))

-- No empty text stands alone.
abbrev pub IsContent : List InternalContentPart → Type 0
IsContent [] = Unit
IsContent (p ∷ []) =
    ((s : String) × (p ≡ Parse.text_part s) × ((s == "") ≡ false))
    ⊎ ((url : String) × (p ≡ image_part url))
IsContent (p ∷ q ∷ ps) = All IsPart (p ∷ q ∷ ps)

parse_part-text :
    (s : String)
    → Parse.parse_part (Build.build_open_ai_part (Parse.text_part s)) ≡ Parse.text_part s
unfolding Build.build_open_ai_part Values.read
parse_part-text s = refl

parse_part-image :
    (url : String) → Parse.parse_part (Build.build_open_ai_part (image_part url)) ≡ image_part url
unfolding Build.build_open_ai_part Values.read
parse_part-image url = refl

pub parse_part-build :
    (p : InternalContentPart) → IsPart p → Parse.parse_part (Build.build_open_ai_part p) ≡ p
parse_part-build p (inl (s, e)) = rw e (parse_part-text s)
parse_part-build p (inr (url, e)) = rw e (parse_part-image url)

pub map-parse-build :
    (ps : List InternalContentPart)
    → All IsPart ps
    → map Parse.parse_part (map Build.build_open_ai_part ps) ≡ ps
map-parse-build [] h = refl
map-parse-build (p ∷ ps) (hp, h) =
    ap₂ (λ q qs. q ∷ qs) (parse_part-build p hp) (map-parse-build ps h)

parse-part_array :
    (ps : List InternalContentPart)
    → All IsPart ps
    → Parse.parse_open_ai_content (Build.part_array ps) ≡ ps
unfolding Parse.parse_open_ai_content
parse-part_array ps h =
    rw (Values.elements-items, Values.objects-map Build.build_open_ai_part) (map-parse-build ps h)

parse-text :
    (s : String) → (s == "") ≡ false → Parse.parse_open_ai_content (text s) ≡ Parse.text_part s ∷ []
unfolding Parse.parse_open_ai_content
parse-text s h = rw h refl

pub parse-open_ai_content :
    (p : InternalContentPart) (ps : List InternalContentPart)
    → IsContent (p ∷ ps)
    → Parse.parse_open_ai_content (Build.open_ai_content p ps) ≡ p ∷ ps
parse-open_ai_content p (q ∷ ps) h = parse-part_array (p ∷ q ∷ ps) h
parse-open_ai_content p [] (inl (s, e, h)) = rw e (parse-text s h)
parse-open_ai_content p [] (inr (url, e)) =
    rw e (parse-part_array (image_part url ∷ []) (inr (url, refl), tt))

-- The arguments and names of tool calls.
tool_call : (i : ℕ) (c : InternalToolCall) → Parse.parse_tool_call (Build.build_tool_call i c) ≡ c
unfolding Values.read
tool_call i c = refl

pub tool_calls :
    (i : ℕ) (cs : List InternalToolCall)
    → map Parse.parse_tool_call (Values.objects (Build.build_tool_calls i cs)) ≡ cs
unfolding Build.build_tool_calls Values.objects
tool_calls i [] = refl
tool_calls i (c ∷ cs) = ap₂ (λ d ds. d ∷ ds) (tool_call i c) (tool_calls (suc i) cs)

pub as_list-some_array :
    (vs : List Json) → Values.as_list (Values.or_json (Build.some_array vs) null) ≡ vs
unfolding Build.some_array Values.as_list
as_list-some_array [] = refl
as_list-some_array (v ∷ vs) = Values.elements-items (v ∷ vs)

abbrev pub answer : String → String → InternalToolResult
answer id s = record { tool_call_id = id; name = ""; content = s; is_error = false }

-- What parsing gives of a tool's answer.
abbrev pub IsAnswer : InternalMessage → Type 0
IsAnswer im =
    (id : String) × (s : String) × (im.tool_result ≡ some (answer id s))
    × (im.content ≡ Parse.text_content s)

abbrev pub IsMessage : InternalMessage → Type 0
IsMessage im =
    (((im.role == "tool") ≡ true) × IsAnswer im)
    ⊎ (((im.role == "tool") ≡ false) × (im.tool_result ≡ none) × IsContent im.content)

pub message_ext :
    {a b : InternalMessage}
    → a.role ≡ b.role
    → a.content ≡ b.content
    → a.tool_calls ≡ b.tool_calls
    → a.tool_result ≡ b.tool_result
    → a ≡ b
message_ext e f g h = λ i. record { role = e i; content = f i; tool_calls = g i; tool_result = h i }

module _ (role : String) (calls : List InternalToolCall) where
  answered :
      (id s : String)
      → (role == "tool") ≡ true
      → let im : InternalMessage = record {
        role = role;
        content = Parse.text_content s;
        tool_calls = calls;
        tool_result = some (answer id s);
      } in
        Parse.parse_open_ai_message (Build.build_open_ai_message im) ≡ im
  unfolding Parse.parse_open_ai_message Build.build_open_ai_message
  answered id s e =
      message_ext (simp Values.fields)
        (simp Values.fields (unfold Parse.parse_open_ai_content in refl))
        (simp (Values.fields, as_list-some_array) (tool_calls 0 calls)) (simp (Values.fields, e))

  -- The content of a message that is no tool's answer.
  content-none :
      (parts : List InternalContentPart)
      → (role == "tool") ≡ false
      → IsContent parts
      → Parse.parse_open_ai_content (Values.or_json (Build.content_field role parts) null) ≡ parts
  content-none [] e h = rw e (unfold Parse.parse_open_ai_content in refl)
  content-none (p ∷ ps) e h = parse-open_ai_content p ps h

  said :
      (parts : List InternalContentPart)
      → (role == "tool") ≡ false
      → IsContent parts
      → let im : InternalMessage = record {
        role = role;
        content = parts;
        tool_calls = calls;
        tool_result = none;
      } in
        Parse.parse_open_ai_message (Build.build_open_ai_message im) ≡ im
  unfolding Parse.parse_open_ai_message Build.build_open_ai_message
  said parts e h =
      message_ext (simp Values.fields) (simp Values.fields (content-none parts e h))
        (simp (Values.fields, as_list-some_array) (tool_calls 0 calls)) (simp (Values.fields, e))

pub parse_message-build :
    (im : InternalMessage)
    → IsMessage im
    → Parse.parse_open_ai_message (Build.build_open_ai_message im) ≡ im
parse_message-build im (inl (e, (id, s, f, g))) = rw (f, g) (answered im.role im.tool_calls id s e)
parse_message-build im (inr (e, f, h)) = rw f (said im.role im.tool_calls im.content e h)
