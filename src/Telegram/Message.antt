-- ===== src/Telegram/Message.antt =====
-- crates/tellm-telegram/src/lib.rs: what the bot reads of a message.
use tellm.Base.{Bool, Option, List, Text, I64}

pub record Chat : Type 0 where
  pub id : I64
  pub title : Option Text

pub record User : Type 0 where
  pub id : I64
  pub is_bot : Bool
  pub first_name : Text
  pub username : Option Text

pub record PhotoSize : Type 0 where
  pub file_id : Text
  pub width : I64
  pub height : I64
  pub file_size : Option I64

pub record Document : Type 0 where
  pub file_id : Text
  pub file_name : Option Text
  pub mime_type : Option Text
  pub file_size : Option I64

pub record IncomingMessage : Type 0 where
  pub chat : Chat
  pub from : Option User
  pub date : I64
  pub text : Option Text
  pub caption : Option Text
  pub photo : Option (List PhotoSize)
  pub document : Option Document
