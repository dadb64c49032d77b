-- ===== src/Runtime/Messages/Agreement.antt =====
-- A turn, run alone, touches neither the access control nor the configuration.
use tellm.Base.{
  ◌⊎◌, inl, inr, refl, ℕ, Bool, true, false, Option, none, some, List, [], ◌∷◌, Text, I64, arith,
  Bool-cases, not, ◌||◌, is_blank,
}
use tellm.Core.{ChatResponse, ChatRequest, ContentPart, GeneratedImage}
use tellm.Config.{ModelConfig}
use tellm.Rooms.{RoomState}
use tellm.Turn.{PreparedChatRequest}
use tellm.Runtime.World.{World, alone, worker_can_reply, send_command_reply, send_photo}
use tellm.Runtime.World.Agreement.{SameAccess, SameAccess-trans, SameAccess-refl}
use tellm.Runtime.Messages.{
  put_back, committed_answer, failed_answer, after_photo, decoded, send_photos, no_images,
  send_response, after_call, with_model, built, build_chat_request, notice, called,
  handle_model_message,
}

put_back-access : (k : I64) (o : Option RoomState) (w : World) → SameAccess w (put_back k o w)
unfolding put_back
put_back-access k none w = SameAccess-refl w
put_back-access k (some room) w = record {
  same_config = refl;
  same_access = refl;
  same_file = refl;
}

notice-access :
    (k : I64) (worker_id : ℕ) (o : Option Text) (w : World)
    → SameAccess w (notice alone k worker_id o w)
unfolding notice send_command_reply
notice-access k worker_id none w = SameAccess-refl w
notice-access k worker_id (some t) w = record {
  same_config = ground arith;
  same_access = ground arith;
  same_file = ground arith;
}

failed-access :
    (k : I64) (worker_id : ℕ) (e : Text) (w : World) (done : Bool) (o : Option RoomState)
    → SameAccess w (failed_answer alone k worker_id e w (done, o)).1
unfolding failed_answer send_command_reply
failed-access k worker_id e w done o =
    let p = put_back-access k o w in
    record {
      same_config = ground (arith, p.same_config);
      same_access = ground (arith, p.same_access);
      same_file = ground (arith, p.same_file);
    }

build-access :
    (k : I64) (input : List ContentPart) (w : World)
    → SameAccess w (build_chat_request alone k input w).1
unfolding build_chat_request with_model built
build-access k input w = record {
  same_config = ground arith;
  same_access = ground arith;
  same_file = ground arith;
}

after_photo-access :
    (rest : World → Option Text × World) (r : Option Text × World)
    → ((w : World) → SameAccess w (rest w).1)
    → SameAccess r.1 (after_photo rest r).1
unfolding after_photo
after_photo-access rest (some e, w) h = SameAccess-refl w
after_photo-access rest (none, w) h = h w

module _ (decode : Text → Text ⊎ List ℕ) where
  decoded-access :
      (k : I64) (image : GeneratedImage) (rest : World → Option Text × World) (o : Text ⊎ List ℕ)
      (w : World)
      → ((w' : World) → SameAccess w' (rest w').1)
      → SameAccess w (decoded decode k image rest o w).1
  unfolding decoded send_photo
  decoded-access k image rest (inl e) w h = SameAccess-refl w
  decoded-access k image rest (inr bytes) w h =
      let a = after_photo-access rest (send_photo k bytes image.media_type w) h in
      record { same_config = a.same_config; same_access = a.same_access; same_file = a.same_file }

  photos-access :
      (k : I64) (images : List GeneratedImage) (w : World)
      → SameAccess w (send_photos decode k images w).1
  unfolding send_photos
  photos-access k [] w = SameAccess-refl w
  photos-access k (image ∷ images) w =
      decoded-access k image (send_photos decode k images) (decode image.base64) w
        (λ w'. photos-access k images w')

  response-access :
      (k : I64) (response : ChatResponse) (w : World)
      → SameAccess w (send_response decode k response w).1
  unfolding send_response send_command_reply
  response-access k response w =
      let texted =
        after_photo-access (send_photos decode k response.images)
          (send_command_reply k response.text w) (λ w'. photos-access k response.images w') in
      elim (Bool-cases (not (is_blank response.text) || no_images response.images)) [
        | inl yes_text ↦ rw yes_text (record {
          same_config = texted.same_config;
          same_access = texted.same_access;
          same_file = texted.same_file;
        })
        | inr no_text ↦ rw no_text (photos-access k response.images w)
      ]

  committed-access :
      (k : I64) (worker_id : ℕ) (response : ChatResponse) (w : World)
      (o : Option (Bool × Option RoomState))
      → SameAccess w (committed_answer decode alone k worker_id response w o).1
  unfolding committed_answer
  committed-access k worker_id response w none = SameAccess-refl w
  committed-access k worker_id response w (some (false, room)) = put_back-access k room w
  committed-access k worker_id response w (some (true, room)) =
      let w1 = put_back k room w in
      elim (Bool-cases (worker_can_reply k worker_id w1)) [
        | inl can ↦
            rw can
              (SameAccess-trans w w1 _ (put_back-access k room w) (response-access k response w1))
        | inr silent ↦ rw silent (put_back-access k room w)
      ]

  after_call-access :
      (k : I64) (worker_id : ℕ) (prepared : PreparedChatRequest) (o : Text ⊎ ChatResponse)
      (w : World)
      → SameAccess w (after_call decode alone k worker_id prepared o w).1
  unfolding after_call
  after_call-access k worker_id prepared (inl error) w = failed-access k worker_id error w _ _
  after_call-access k worker_id prepared (inr response) w =
      elim (Bool-cases (worker_can_reply k worker_id w)) [
        | inl can ↦ rw can (committed-access k worker_id response w _)
        | inr silent ↦ rw silent (SameAccess-refl w)
      ]

  called-access :
      (k : I64) (worker_id : ℕ) (dispatch : ModelConfig → ChatRequest → Text ⊎ ChatResponse)
      (r : (Text ⊎ PreparedChatRequest) × World)
      → SameAccess r.1 (called decode alone k worker_id dispatch r).1
  unfolding called
  called-access k worker_id dispatch (inl error, w) = SameAccess-refl w
  called-access k worker_id dispatch (inr prepared, w) =
      SameAccess-trans w _ _ (notice-access k worker_id prepared.reset_notice w)
        (after_call-access k worker_id prepared _ _)

  pub handle_model_message-SameAccess :
      (k : I64) (worker_id : ℕ) (dispatch : ModelConfig → ChatRequest → Text ⊎ ChatResponse)
      (input : Text ⊎ List ContentPart) (w : World)
      → SameAccess w (handle_model_message decode alone k worker_id dispatch input w).1
  unfolding handle_model_message
  handle_model_message-SameAccess k worker_id dispatch (inl e) w = SameAccess-refl w
  handle_model_message-SameAccess k worker_id dispatch (inr []) w = SameAccess-refl w
  handle_model_message-SameAccess k worker_id dispatch (inr (part ∷ parts)) w =
      elim (Bool-cases (worker_can_reply k worker_id w)) [
        | inl can ↦ rw can (
            SameAccess-trans w _ _ (build-access k (part ∷ parts) w)
              (called-access k worker_id dispatch (build_chat_request alone k (part ∷ parts) w)))
        | inr silent ↦ rw silent (SameAccess-refl w)
      ]
