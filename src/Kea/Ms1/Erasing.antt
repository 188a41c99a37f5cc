-- ===== src/Kea/Ms1/Erasing.antt =====
-- What the answer to an erase request says.
use uptiny.Base.{ℕ, ◌==◌, if◌then◌else◌, List, [], ◌∷◌, Option, none, some}
use uptiny.Kea.Uds.{Response}

-- The third byte of an error response, and 0 for any other.
abbrev pub code_of : List ℕ → ℕ
code_of [] = 0
code_of (b ∷ []) = 0
code_of (b ∷ c ∷ []) = 0
code_of (b ∷ c ∷ nrc ∷ rest) = if b == 0x7F then nrc else 0

abbrev pub error_code : Option Response → ℕ
error_code none = 0
error_code (some r) = code_of r.payload
