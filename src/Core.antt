-- ===== src/Core.antt =====
-- crates/tellm-core/src/lib.rs: the types that the runtime and the provider crates share.
mod Json
pub use Json.*
use tellm.Base.{Text, Bool, Option, List}

pub data ThinkingLevel : Type 0 where
  off low medium high max : ThinkingLevel

-- The fields of a struct variant stand in the order of the source.
pub data ContentPart : Type 0 where
  text : Text → ContentPart
  image : Text → Text → ContentPart
  document : Text → Text → Option Text → ContentPart

pub record ChatRequest : Type 0 where
  pub model : Text
  pub system : Option Text
  pub history : List Value
  pub input : List ContentPart
  pub thinking : ThinkingLevel
  pub web_search : Bool
  pub image_generation : Bool

pub record GeneratedImage : Type 0 where
  pub media_type : Text
  pub base64 : Text

pub record ChatResponse : Type 0 where
  pub text : Text
  pub images : List GeneratedImage
  pub turn_items : List Value
