-- ===== src/Ollama/Examples.antt =====
-- Two remembered models, one of which the server fails to unload.
use tellm.Base.{
  ◌≡◌, ◌++◌, inl, inr, refl, true, ◌&&◌, Option, some, none, List, [], ◌∷◌, length, Text, codes,
  text_eq, if◌then◌else◌,
}
use tellm.Telegram.Strings.{strip}
use tellm.Ollama.{
  LoadedModel, UnloadAnswer, unloaded_answer, not_loaded_answer, unload_error, unload_models,
  contains, local_addr, split_host_port, rsplit_colon, unload_reply, remember_model,
}
use tellm.Ollama.Responses.{
  line_end, second, line_of, first_line, response_status_code, response_is_success,
  unload_response_outcome, unload_model,
}
use tellm.Ollama.Unloading.{is_failure, reported, unload_models_lem}

abbrev two_models : List LoadedModel
two_models =
    record { base_url = codes "http://localhost:11434/v1"; model = codes "llama3.3:70b" }
    ∷ record { base_url = codes "http://localhost:11434/v1"; model = codes "qwen3:32b" }
    ∷ []

abbrev server : LoadedModel → UnloadAnswer
server m =
    if text_eq m.model (codes "qwen3:32b")
    then unload_error (codes "connection refused")
    else unloaded_answer

unload_models_example :
    ((m : LoadedModel)
      → contains m (unload_models server two_models).1
        ≡ (contains m two_models && is_failure (server m)))
    × (reported (unload_models server two_models).0 ≡ length two_models)
    × ((unload_models server two_models).0.attempted ≡ length two_models)
unload_models_example = unload_models_lem server two_models

local_addr_test : local_addr (codes "http://localhost:11434/v1") ≡ some (codes "localhost:11434")
unfolding local_addr split_host_port rsplit_colon strip text_eq tellm.Base.is_one_of
local_addr_test = refl

bracketed_test : local_addr (codes "http://[::1]:11434") ≡ some (codes "[::1]:11434")
unfolding local_addr split_host_port rsplit_colon strip text_eq tellm.Base.is_one_of
    tellm.Telegram.Strings.find
bracketed_test = refl

other_port_test : local_addr (codes "http://localhost:8000/v1") ≡ none
unfolding local_addr split_host_port rsplit_colon strip text_eq tellm.Base.is_one_of
other_port_test = refl

unload_reply_test :
    unload_reply (unload_models server two_models).0
    ≡ codes
        "Unloaded local Ollama model: llama3.3:70b. Failed to unload local Ollama model: qwen3:32b (connection refused)."
unfolding unload_reply unload_models text_eq tellm.Ollama.unload_each
unload_reply_test = refl

unloaded_test :
    unload_response_outcome (codes "HTTP/1.1 200 OK" ++ line_end ++ line_end ++ codes "{}")
    ≡ unloaded_answer
unfolding unload_response_outcome response_is_success response_status_code first_line line_of second
    tellm.Base.split_whitespace tellm.Base.is_whitespace tellm.Base.to_ascii_lowercase
    tellm.Base.lower tellm.Telegram.Strings.find strip tellm.Base.Decimal.parse_nonempty
    tellm.Base.Decimal.parse_digits
unloaded_test = refl

missing_test :
    unload_response_outcome (codes "HTTP/1.1 404 Not Found" ++ line_end ++ line_end ++ codes "{}")
    ≡ not_loaded_answer
unfolding unload_response_outcome response_is_success response_status_code first_line line_of second
    tellm.Base.split_whitespace tellm.Base.is_whitespace tellm.Base.to_ascii_lowercase
    tellm.Base.lower tellm.Telegram.Strings.find strip tellm.Base.Decimal.parse_nonempty
    tellm.Base.Decimal.parse_digits
missing_test = refl

not_found_test :
    unload_response_outcome
      (codes "HTTP/1.1 400 Bad Request" ++ line_end ++ line_end ++ codes "model bad Not Found")
    ≡ not_loaded_answer
unfolding unload_response_outcome response_is_success response_status_code first_line line_of second
    tellm.Base.split_whitespace tellm.Base.is_whitespace tellm.Base.to_ascii_lowercase
    tellm.Base.lower tellm.Telegram.Strings.find strip tellm.Base.Decimal.parse_nonempty
    tellm.Base.Decimal.parse_digits
not_found_test = refl

server_error_test :
    unload_response_outcome
      (codes "HTTP/1.1 500 Server Error" ++ line_end ++ line_end ++ codes "{}")
    ≡ unload_error (codes "Ollama unload returned HTTP/1.1 500 Server Error")
unfolding unload_response_outcome response_is_success response_status_code first_line line_of second
    tellm.Base.split_whitespace tellm.Base.is_whitespace tellm.Base.to_ascii_lowercase
    tellm.Base.lower tellm.Telegram.Strings.find strip tellm.Base.Decimal.parse_nonempty
    tellm.Base.Decimal.parse_digits
server_error_test = refl

empty_response_test :
    unload_response_outcome ([])
    ≡ unload_error (codes "Ollama unload returned an empty HTTP response")
unfolding unload_response_outcome response_is_success response_status_code first_line line_of second
    tellm.Base.split_whitespace tellm.Base.is_whitespace tellm.Base.to_ascii_lowercase
    tellm.Base.lower tellm.Telegram.Strings.find strip tellm.Base.Decimal.parse_nonempty
    tellm.Base.Decimal.parse_digits
empty_response_test = refl

unload_model_test :
    unload_model
      (λ addr request. inl addr)
      (λ m. m)
      (record { base_url = codes "http://localhost:11434/v1"; model = codes "a" })
    ≡ unload_error (codes "localhost:11434")
unfolding unload_model local_addr split_host_port rsplit_colon strip text_eq tellm.Base.is_one_of
unload_model_test = refl
