-- ===== src/Text.antt =====
-- Texts as lists of bytes.
use Prim.Native.Char.{code}
use Prim.Native.String.{String}
use edgevision_rv1126b.Prelude.{ℕ, List, [], ◌∷◌}

-- The bytes of an ASCII literal.
abbrev pub ascii : String → List ℕ
ascii String.[] = []
ascii (String.◌∷◌ letter text) = code letter ∷ ascii text
