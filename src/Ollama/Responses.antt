-- ===== src/Ollama/Responses.antt =====
-- src/ollama.rs: the answer of a server to the unloading of a model, `unload_response_outcome`, and
-- the request for it. Line ends are written as their codes, 13 and 10.
use tellm.Base.{
  ◌^◌, ◌-◌, ◌⊎◌, inl, inr, ℕ, Bool, false, ◌&&◌, ◌||◌, Option, none, some, is_some, List, [], ◌∷◌,
  ◌++◌, ◌==◌, leb, ltb, if◌then◌else◌, unwrap_or, Text, codes, str_len, split_whitespace,
  to_ascii_lowercase,
}
use tellm.Base.Decimal.{decimal, parse_nonempty}
use tellm.Telegram.Strings.{find}
use tellm.Ollama.{
  LoadedModel, local_addr, UnloadAnswer, unloaded_answer, not_loaded_answer, unload_error,
}

abbrev pub line_end : Text
line_end = 13 ∷ 10 ∷ []

-- The text up to the first line feed, and a carriage return in front of it dropped.
unfoldable pub line_of : Text → Text
line_of [] = []
line_of (c ∷ s) =
    let rest = line_of s in
    if c == 10
    then []
    else if c == 13
    then elim s [ [] ↦ c ∷ [] | d ∷ _ ↦ if d == 10 then [] else c ∷ rest ]
    else c ∷ rest

-- `response.lines().next()`
unfoldable pub first_line : Text → Option Text
unfolding line_of
first_line [] = none
first_line (c ∷ s) = some (line_of (c ∷ s))

unfoldable pub second : List Text → Option Text
second (a ∷ b ∷ rest) = some b
second (a ∷ []) = none
second [] = none

-- `str::parse::<u16>`, which takes a leading `+`.
parse_u16 : Text → Option ℕ
parse_u16 [] = none
parse_u16 (c ∷ s) =
    if c == b'+' then parse_nonempty (2 ^ 16 - 1) s else parse_nonempty (2 ^ 16 - 1) (c ∷ s)

status_of : Option Text → Option ℕ
unfolding parse_u16
status_of none = none
status_of (some code) = parse_u16 code

word_of : Option Text → Option Text
unfolding second
word_of none = none
word_of (some line) = second (split_whitespace line)

unfoldable pub response_status_code : Text → Option ℕ
unfolding status_of word_of first_line
response_status_code response = status_of (word_of (first_line response))

is_success : Option ℕ → Bool
is_success none = false
is_success (some code) = leb 200 code && ltb code 300

is_missing : Option ℕ → Bool
is_missing none = false
is_missing (some code) = code == 404

unfoldable pub response_is_success : Text → Bool
unfolding is_success
response_is_success response = is_success (response_status_code response)

body_of : Option (Text × Text) → Text
body_of none = []
body_of (some (head, body)) = body

unfoldable pub unload_response_outcome : Text → UnloadAnswer
unfolding body_of is_missing
unload_response_outcome response =
    let body = body_of (find (line_end ++ line_end) response) in
    if response_is_success response
    then unloaded_answer
    else if is_missing (response_status_code response)
        || is_some (find (codes "not found") (to_ascii_lowercase body))
    then not_loaded_answer
    else unload_error (
        codes "Ollama unload returned "
        ++ unwrap_or (first_line response) (codes "an empty HTTP response"))

-- `unload_request`, for the JSON text of its body.
unfoldable pub unload_request : Text → Text → Text
unload_request addr body =
    codes "POST /api/generate HTTP/1.1"
    ++ line_end
    ++ codes "Host: "
    ++ addr
    ++ line_end
    ++ codes "Content-Type: application/json"
    ++ line_end
    ++ codes "Content-Length: "
    ++ decimal (str_len body)
    ++ line_end
    ++ codes "Connection: close"
    ++ line_end
    ++ line_end
    ++ body

outcome_of : Text ⊎ Text → UnloadAnswer
unfolding unload_response_outcome
outcome_of (inl error) = unload_error error
outcome_of (inr response) = unload_response_outcome response

unload_at : (Text → Text → Text ⊎ Text) → (Text → Text) → LoadedModel → Option Text → UnloadAnswer
unfolding outcome_of unload_request
unload_at exchange body m none = unload_error (codes "not a local Ollama endpoint: " ++ m.base_url)
unload_at exchange body m (some addr) =
    outcome_of (exchange addr (unload_request addr (body m.model)))

-- `unload_model`: `exchange` sends a request to an address, and has its error or the response;
-- `body` is the JSON text for a model.
unfoldable pub unload_model :
    (Text → Text → Text ⊎ Text) → (Text → Text) → LoadedModel → UnloadAnswer
unfolding unload_at
unload_model exchange body m = unload_at exchange body m (local_addr m.base_url)
