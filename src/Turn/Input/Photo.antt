-- ===== src/Turn/Input/Photo.antt =====
-- The photo that is sent is the largest one.
use tellm.Base.{◌≡◌, true, List, [], ◌∷◌, All, ◌⊎◌}
use tellm.Telegram.Message.{PhotoSize}
use tellm.Turn.Input.{leb_signed, pixels}

abbrev pub IsOneOf : PhotoSize → List PhotoSize → Type 0
IsOneOf p [] = ⊥
IsOneOf p (q ∷ qs) = (p ≡ q) ⊎ IsOneOf p qs

-- No photo has more pixels than this one.
abbrev pub IsLargest : PhotoSize → List PhotoSize → Type 0
IsLargest p = All (λ q. leb_signed (pixels q) (pixels p) ≡ true)
