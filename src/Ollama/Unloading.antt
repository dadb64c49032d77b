-- ===== src/Ollama/Unloading.antt =====
-- What an unloading leaves remembered, and what it reports.
use tellm.Base.{
  ℕ, ◌+◌, ◌≡◌, ◌∙◌, refl, sym, Bool, true, false, not, ◌&&◌, ◌||◌, List, [], ◌∷◌, length, arith,
  inl, inr, Bool-cases, if◌then◌else◌, text_eq_sound, text_eq_refl, length-append,
}
use tellm.Ollama.{
  LoadedModel, same_model, remove, contains, UnloadAnswer, unloaded_answer, not_loaded_answer,
  unload_error, UnloadSummary, unloaded_step, unload_each, unload_models,
}

abbrev pub is_failure : UnloadAnswer → Bool
is_failure (unload_error e) = true
is_failure _ = false

same_model_sound : (a b : LoadedModel) → same_model a b ≡ true → a ≡ b
unfolding same_model
same_model_sound a b h =
    let u = text_eq_sound a.base_url b.base_url (ground arith) in
    let v = text_eq_sound a.model b.model (ground arith) in cc

same_model_refl : (a : LoadedModel) → same_model a a ≡ true
unfolding same_model
same_model_refl a = rw (text_eq_refl a.base_url, text_eq_refl a.model) refl

same_model-sym : (a b : LoadedModel) → same_model a b ≡ same_model b a
same_model-sym a b = elim (Bool-cases (same_model a b)) [
  | inl e ↦ rw (same_model_sound a b e) refl
  | inr e ↦ elim (Bool-cases (same_model b a)) [
    | inl f ↦ rw (same_model_sound b a f) refl
    | inr f ↦ e ∙ sym f
  ]
]

contains-remove :
    (k m : LoadedModel) (ms : List LoadedModel)
    → contains m (remove k ms) ≡ (if same_model k m then false else contains m ms)
unfolding contains remove
contains-remove k m [] = ground arith
contains-remove k m (n ∷ ns) = elim (Bool-cases (same_model k n)) [
  | inl e ↦
      let same : same_model k m ≡ same_model m n =
        rw (same_model_sound k n e) (same_model-sym n m) in
      ground (arith, contains-remove k m ns, same, e)
  | inr e ↦ elim (Bool-cases (same_model k m)) [
    | inl f ↦
        let other : same_model m n ≡ false = rw (← same_model_sound k m f) e in
        ground (arith, contains-remove k m ns, other, e, f)
    | inr f ↦ ground (arith, contains-remove k m ns, e, f)
  ]
]

-- What a step leaves of a model.
step_own :
    (a : UnloadAnswer) (n : LoadedModel) (s : UnloadSummary) (loaded : List LoadedModel)
    → contains n (unloaded_step a n (s, loaded)).1 ≡ (contains n loaded && is_failure a)
unfolding unloaded_step
step_own unloaded_answer n s loaded = ground (arith, contains-remove n n loaded, same_model_refl n)
step_own not_loaded_answer n s loaded =
    ground (arith, contains-remove n n loaded, same_model_refl n)
step_own (unload_error e) n s loaded = ground arith

step_other :
    (a : UnloadAnswer) (n m : LoadedModel) (s : UnloadSummary) (loaded : List LoadedModel)
    → same_model n m ≡ false
    → contains m (unloaded_step a n (s, loaded)).1 ≡ contains m loaded
unfolding unloaded_step
step_other unloaded_answer n m s loaded h = rw (contains-remove, h) refl
step_other not_loaded_answer n m s loaded h = rw (contains-remove, h) refl
step_other (unload_error e) n m s loaded h = refl

contains-step :
    (answer : LoadedModel → UnloadAnswer) (n m : LoadedModel) (s : UnloadSummary)
    (loaded : List LoadedModel)
    → contains m (unloaded_step (answer n) n (s, loaded)).1
      ≡ (contains m loaded && (not (same_model m n) || is_failure (answer m)))
contains-step answer n m s loaded = elim (Bool-cases (same_model m n)) [
  | inl e ↦ rw (same_model_sound m n e) (rw same_model_refl (step_own (answer n) n s loaded))
  | inr e ↦ ground (arith, step_other (answer n) n m s loaded (same_model-sym n m ∙ e))
]

contains-unload_each :
    (answer : LoadedModel → UnloadAnswer) (m : LoadedModel) (ms : List LoadedModel)
    (s : UnloadSummary) (loaded : List LoadedModel)
    → contains m (unload_each answer ms (s, loaded)).1
      ≡ (contains m loaded && (not (contains m ms) || is_failure (answer m)))
unfolding unload_each contains
contains-unload_each answer m [] s loaded = ground arith
contains-unload_each answer m (n ∷ ns) s loaded =
    let (s', loaded') = unloaded_step (answer n) n (s, loaded) in
    ground (arith, contains-unload_each answer m ns s' loaded', contains-step answer n m s loaded)

-- How many models a summary names.
abbrev pub reported : UnloadSummary → ℕ
reported s = length s.unloaded + length s.not_loaded + length s.failed

reported-step :
    (a : UnloadAnswer) (m : LoadedModel) (s : UnloadSummary) (loaded : List LoadedModel)
    → (reported (unloaded_step a m (s, loaded)).0 ≡ reported s + 1)
      × ((unloaded_step a m (s, loaded)).0.attempted ≡ s.attempted)
unfolding unloaded_step
reported-step unloaded_answer m s loaded =
    (omega (arith, length-append s.unloaded (m.model ∷ [])), refl)
reported-step not_loaded_answer m s loaded =
    (omega (arith, length-append s.not_loaded (m.model ∷ [])), refl)
reported-step (unload_error e) m s loaded =
    (omega (arith, length-append s.failed ((m.model, e) ∷ [])), refl)

reported-unload_each :
    (answer : LoadedModel → UnloadAnswer) (ms : List LoadedModel) (s : UnloadSummary)
    (loaded : List LoadedModel)
    → (reported (unload_each answer ms (s, loaded)).0 ≡ reported s + length ms)
      × ((unload_each answer ms (s, loaded)).0.attempted ≡ s.attempted)
unfolding unload_each
reported-unload_each answer [] s loaded = (omega arith, refl)
reported-unload_each answer (m ∷ ms) s loaded =
    let (s', loaded') = unloaded_step (answer m) m (s, loaded) in
    let (count, same) = reported-step (answer m) m s loaded in
    let (counts, sames) = reported-unload_each answer ms s' loaded' in
    (omega (arith, count, counts), sames ∙ same)

-- Unloading the remembered models, whatever the server answers for each: a model stays remembered
-- exactly when it was and its unloading failed, and the summary names as many models, as unloaded,
-- not loaded or failed together, as were remembered and as it says were attempted.
pub unload_models_lem :
    (answer : LoadedModel → UnloadAnswer) (loaded : List LoadedModel)
    → ((m : LoadedModel)
        → contains m (unload_models answer loaded).1 ≡ (contains m loaded && is_failure (answer m)))
      × (reported (unload_models answer loaded).0 ≡ length loaded)
      × ((unload_models answer loaded).0.attempted ≡ length loaded)
unfolding unload_models
unload_models_lem answer loaded =
    let s : UnloadSummary = record {
      attempted = length loaded;
      unloaded = [];
      not_loaded = [];
      failed = [];
    } in
    let (counts, same) = reported-unload_each answer loaded s loaded in
    (λ m. ground (arith, contains-unload_each answer m loaded s loaded), counts ∙ omega arith, same)
