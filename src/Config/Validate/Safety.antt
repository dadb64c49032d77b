-- ===== src/Config/Validate/Safety.antt =====
-- What the models of a valid configuration have.
use tellm.Base.{
  is_blank, ◌≡◌, refl, Bool, true, false, not, ◌||◌, ◌&&◌, Option, none, some, List, [], ◌∷◌, ◌++◌,
  All, Text, codes, is_some, inl, inr, ◌⊎◌, text_eq, arith, Bool-cases, Option-cases,
}
use tellm.Base.IdMap.{IdMap}
use tellm.Config.{ModelConfig, Config}
use tellm.Config.Validate.{
  Url, Problem, has_whitespace, is_reserved_name, is_compat, is_loopback_http_url, report_if,
  key_problems, check_secret, has_credentials, url_problems, pin_chats, parse_base_url,
  model_problems, models_problems, validate, missing_base_url, missing_secret, empty_model_name,
  embedded_credentials,
}

pub empty_front : {A : Type 0} (xs ys : List A) → xs ++ ys ≡ [] → (xs ≡ []) × (ys ≡ [])
empty_front [] ys h = (refl, h)
empty_front (x ∷ xs) ys h = absurd cc

report_if_lem : (b : Bool) (p : Problem) → report_if b p ≡ [] → b ≡ false
unfolding report_if
report_if_lem true p h = absurd cc
report_if_lem false p h = refl

-- A usable secret, or none for a compat endpoint.
abbrev pub IsAuthorised : ModelConfig → Option Text → Type 0
IsAuthorised model none = is_compat model.wire_format ≡ true
IsAuthorised model (some s) = (is_blank s ≡ false) × (is_reserved_name s ≡ false)

-- TLS, or a compat endpoint without a secret over HTTP that is on this host or explicitly permitted.
abbrev pub IsProtected : ModelConfig → Url → Type 0
IsProtected model url =
    (text_eq (codes "https") url.scheme ≡ true)
    ⊎ ((model.api_key_secret ≡ none)
        × (is_compat model.wire_format ≡ true)
        × (text_eq (codes "http") url.scheme ≡ true)
        × ((is_loopback_http_url url || model.allow_insecure_http) ≡ true))

pub cons_not_nil : {A : Type 0} {x : A} {xs : List A} → x ∷ xs ≡ [] → ⊥
cons_not_nil h = absurd cc

key_problems_lem :
    (key : Text) → key_problems key ≡ [] → (is_blank key ≡ false) × (has_whitespace key ≡ false)
unfolding key_problems report_if
key_problems_lem key h = ground arith

secret_lem :
    (key : Text) (model : ModelConfig) (secret : Option Text)
    → (check_secret key secret).1 ≡ []
    → report_if
        (not (is_compat model.wire_format)
          && not (check_secret key secret).0
          && not (is_some secret))
        (missing_secret key)
      ≡ []
    → ((check_secret key secret).0 ≡ is_some secret) × IsAuthorised model secret
unfolding check_secret report_if
secret_lem key model none h missing = ground arith
secret_lem key model (some s) h missing = elim (Bool-cases (is_blank s)) [
  | inl blank ↦ absurd (cons_not_nil (rw blank at h))
  | inr filled ↦ elim (Bool-cases (is_reserved_name s)) [
    | inl reserved ↦ absurd (cons_not_nil (rw (filled, reserved) at h))
    | inr free ↦ (rw (filled, free) refl, (filled, free))
  ]
]

scheme_lem :
    (key : Text) (model : ModelConfig) (url : Url)
    → url_problems key model (is_some model.api_key_secret) (some url) ≡ []
    → (has_credentials url ≡ false) × IsProtected model url
unfolding url_problems
scheme_lem key model url h =
    let (no_credentials, scheme) = empty_front _ _ h in
    (
      report_if_lem (has_credentials url) (embedded_credentials key) no_credentials,
      unfold report_if in ground arith,
    )

module _ (parse_url : Text → Option Url) where
  abbrev pub HasSafeUrl : ModelConfig → Option Text → Type 0
  HasSafeUrl model none = is_compat model.wire_format ≡ false
  HasSafeUrl model (some base_url) =
      (url : Url) × (parse_url base_url ≡ some url)
      × (has_credentials url ≡ false)
      × IsProtected model url

  abbrev pub IsSafe : Text × ModelConfig → Type 0
  IsSafe (key, model) =
      (is_blank key ≡ false)
      × (has_whitespace key ≡ false)
      × (is_blank model.model_name ≡ false)
      × IsAuthorised model model.api_key_secret
      × HasSafeUrl model model.base_url

  parsed_url :
      (key : Text) (model : ModelConfig) (base_url : Option Text)
      → report_if (is_compat model.wire_format && not (is_some base_url)) (missing_base_url key)
        ≡ []
      → (parse_base_url parse_url key base_url).1 ≡ []
      → url_problems key model
          (is_some model.api_key_secret)
          (parse_base_url parse_url key base_url).0
        ≡ []
      → HasSafeUrl model base_url
  unfolding parse_base_url
  parsed_url key model none missing problems safe =
      ground
        (arith, report_if_lem (is_compat model.wire_format && true) (missing_base_url key) missing)
  parsed_url key model (some base_url) missing problems safe =
      elim (Bool-cases (is_blank base_url)) [
        | inl blank ↦ absurd (cons_not_nil (rw blank at problems))
        | inr filled ↦ elim (Option-cases (parse_url base_url)) [
          | inl refused ↦ absurd (cons_not_nil (rw (filled, refused) at problems))
          | inr (url, parsed) ↦
              let (plain, protected) = scheme_lem key model url (rw (filled, parsed) at safe) in
              (url, parsed, plain, protected)
        ]
      ]

  model_problems-IsSafe :
      (key : Text) (model : ModelConfig)
      → model_problems parse_url key model ≡ []
      → IsSafe (key, model)
  unfolding model_problems
  model_problems-IsSafe key model h =
      let (h6, url) = empty_front _ _ h in
      let (h5, missing_s) = empty_front _ _ h6 in
      let (h4, secret) = empty_front _ _ h5 in
      let (h3, base) = empty_front _ _ h4 in
      let (h2, missing_u) = empty_front _ _ h3 in
      let (key_ok, name) = empty_front _ _ h2 in
      let (filled, plain) = key_problems_lem key key_ok in
      let (usable, authorised) = secret_lem key model model.api_key_secret secret missing_s in
      (
        filled,
        plain,
        report_if_lem _ (empty_model_name key) name,
        authorised,
        parsed_url key model model.base_url missing_u base (rw usable at url),
      )

  models_problems-IsSafe :
      (models : List (Text × ModelConfig)) (pinned : IdMap Text)
      → models_problems parse_url models pinned ≡ []
      → All IsSafe models
  unfolding models_problems
  models_problems-IsSafe [] pinned h = tt
  models_problems-IsSafe ((key, model) ∷ models) pinned h =
      let (h1, rest) = empty_front _ _ h in
      let (own, _) = empty_front _ _ h1 in
      (
        model_problems-IsSafe key model own,
        models_problems-IsSafe models (pin_chats key model.telegram_chat_ids pinned).1 rest,
      )

  -- If the validation reports no problem, each model has a key of one word, a model name, a usable
  -- secret unless its endpoint is a compat one, and a base URL, if any, that can be parsed, has no
  -- credentials in it and uses HTTPS, or HTTP for a compat endpoint without a secret that is on this
  -- host or explicitly permitted; a compat model has a base URL.
  pub validate-IsSafe :
      (config : Config) → validate parse_url config ≡ [] → All IsSafe config.models
  unfolding validate
  validate-IsSafe config h =
      let (_, problems) = empty_front _ _ h in models_problems-IsSafe config.models [] problems
