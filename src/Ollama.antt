-- ===== src/Ollama.antt =====
-- src/ollama.rs: which endpoints are local Ollama servers, the models that were used there, and
-- their unloading. The server's answers are a parameter.
pub mod Unloading
pub mod Responses
mod Examples
use tellm.Base.{
  ℕ, zero, suc, ◌+◌, Bool, true, false, not, ◌&&◌, ◌||◌, Option, none, some, List, [], ◌∷◌, ◌++◌,
  length, ◌==◌, if◌then◌else◌, unwrap_or, Text, codes, text_eq, text_lt, is_one_of,
}
use mathlib.Core.List.{reverse}
use tellm.Base.IdMap.{map_option}
use tellm.Telegram.Strings.{strip, find}

-- The text before the first `/`, or all of it.
before_slash : Text → Text
before_slash [] = []
before_slash (c ∷ s) = let rest = before_slash s in if c == b'/' then [] else c ∷ rest

-- `str::rsplit_once(':')`: the texts around the last colon.
extend : ℕ → Text → Option (Text × Text) → Option (Text × Text)
extend c s (some (front, back)) = some (c ∷ front, back)
extend c s none = if c == b':' then some ([], s) else none

unfoldable pub rsplit_colon : Text → Option (Text × Text)
unfolding extend
rsplit_colon [] = none
rsplit_colon (c ∷ s) = extend c s (rsplit_colon s)

-- `[host]:port`, whose host keeps its brackets.
bracketed : Option (Text × Text) → Option (Text × Text)
bracketed none = none
bracketed (some (inside, rest)) =
    map_option (λ (port : Text). (b'[' ∷ (inside ++ b']' ∷ []), port)) (strip (codes ":") rest)

unfoldable pub split_host_port : Text → Option (Text × Text)
unfolding bracketed
split_host_port [] = rsplit_colon []
split_host_port (c ∷ s) = if c == b'[' then bracketed (find (codes "]") s) else rsplit_colon (c ∷ s)

-- `trim_start_matches('[')`
trim_open : Text → Text
trim_open [] = []
trim_open (c ∷ s) = let rest = trim_open s in if c == b'[' then rest else c ∷ s

trim_close_reversed : Text → Text
trim_close_reversed [] = []
trim_close_reversed (c ∷ s) = let rest = trim_close_reversed s in if c == b']' then rest else c ∷ s

-- The host without its brackets.
normalized : Text → Text
unfolding trim_open trim_close_reversed
normalized host = reverse (trim_close_reversed (reverse (trim_open host)))

local_host : Option (Text × Text) → Option Text
unfolding normalized
local_host none = none
local_host (some (host, port)) =
    if text_eq port (codes "11434")
      && is_one_of (codes "localhost" ∷ codes "127.0.0.1" ∷ codes "::1" ∷ []) (normalized host)
    then some (host ++ codes ":" ++ port)
    else none

at_authority : Option Text → Option Text
unfolding local_host before_slash
at_authority none = none
at_authority (some rest) = local_host (split_host_port (before_slash rest))

-- The address of a local Ollama server, for a base URL that is one.
unfoldable pub local_addr : Text → Option Text
unfolding at_authority
local_addr base_url = at_authority (strip (codes "http://") base_url)

pub record LoadedModel : Type 0 where
  pub base_url : Text
  pub model : Text

unfoldable pub same_model : LoadedModel → LoadedModel → Bool
same_model a b = text_eq a.base_url b.base_url && text_eq a.model b.model

-- The derived order of `LoadedModel`.
model_lt : LoadedModel → LoadedModel → Bool
model_lt a b =
    text_lt a.base_url b.base_url || (text_eq a.base_url b.base_url && text_lt a.model b.model)

-- `BTreeSet<LoadedModel>`, in order.
unfoldable pub insert : LoadedModel → List LoadedModel → List LoadedModel
unfolding model_lt
insert m [] = m ∷ []
insert m (n ∷ ns) =
    let rest = insert m ns in
    if same_model m n then n ∷ ns else if model_lt m n then m ∷ n ∷ ns else n ∷ rest

unfoldable pub remove : LoadedModel → List LoadedModel → List LoadedModel
remove m [] = []
remove m (n ∷ ns) = let rest = remove m ns in if same_model m n then rest else n ∷ rest

unfoldable pub contains : LoadedModel → List LoadedModel → Bool
contains m [] = false
contains m (n ∷ ns) = same_model m n || contains m ns

unfoldable pub remember_model : Text → Text → List LoadedModel → List LoadedModel
remember_model base_url model loaded = elim (local_addr base_url) [
  | none ↦ loaded
  | some addr ↦ insert (record { base_url = base_url; model = model }) loaded
]

pub data UnloadAnswer : Type 0 where
  unloaded_answer not_loaded_answer : UnloadAnswer
  unload_error : Text → UnloadAnswer

pub record UnloadSummary : Type 0 where
  pub attempted : ℕ
  pub unloaded : List Text
  pub not_loaded : List Text
  pub failed : List (Text × Text)

unloaded_step :
    UnloadAnswer → LoadedModel → UnloadSummary × List LoadedModel → UnloadSummary × List LoadedModel
unloaded_step unloaded_answer m (s, loaded) =
    (record s { unloaded = s.unloaded ++ m.model ∷ [] }, remove m loaded)
unloaded_step not_loaded_answer m (s, loaded) =
    (record s { not_loaded = s.not_loaded ++ m.model ∷ [] }, remove m loaded)
unloaded_step (unload_error error) m (s, loaded) =
    (record s { failed = s.failed ++ (m.model, error) ∷ [] }, loaded)

unfoldable pub unload_each :
    (LoadedModel → UnloadAnswer)
    → List LoadedModel
    → UnloadSummary × List LoadedModel
    → UnloadSummary × List LoadedModel
unfolding unloaded_step
unload_each answer [] r = r
unload_each answer (m ∷ ms) r = unload_each answer ms (unloaded_step (answer m) m r)

-- `unload_models_blocking`, while no other task remembers a model.
unfoldable pub unload_models :
    (LoadedModel → UnloadAnswer) → List LoadedModel → UnloadSummary × List LoadedModel
unfolding unload_each
unload_models answer loaded =
    unload_each answer loaded
      (record { attempted = length loaded; unloaded = []; not_loaded = []; failed = [] }, loaded)

plural : ℕ → Text
plural n = if n == 1 then [] else codes "s"

-- `slice::join`
join_with : Text → List Text → Text
join_with sep [] = []
join_with sep (t ∷ []) = t
join_with sep (t ∷ s ∷ ts) = t ++ sep ++ join_with sep (s ∷ ts)

failures : List (Text × Text) → List Text
failures [] = []
failures ((model, error) ∷ rest) = (model ++ codes " (" ++ error ++ codes ")") ∷ failures rest

part : Text → List Text → List Text
unfolding plural join_with
part label [] = []
part label (t ∷ ts) =
    (label
      ++ plural (length (t ∷ ts))
      ++ codes ": "
      ++ join_with (codes ", ") (t ∷ ts)
      ++ codes ".")
    ∷ []

unfoldable pub unload_reply : UnloadSummary → Text
unfolding join_with part failures
unload_reply summary =
    if summary.attempted == 0
    then codes "No local Ollama models have been used by this tellm session."
    else join_with (codes " ") (
        part (codes "Unloaded local Ollama model") summary.unloaded
        ++ (part (codes "Already not loaded local Ollama model") summary.not_loaded
            ++ part (codes "Failed to unload local Ollama model") (failures summary.failed)))
