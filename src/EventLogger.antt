-- ===== src/EventLogger.antt =====
-- event/src/EventLogger.cpp: the escaping of the texts that go into a line of JSON.
pub mod Escapes
pub mod Lines
pub mod Framing
mod Tests
use edgevision_rv1126b.Prelude.{ℕ, List, [], ◌∷◌, ◌++◌, ◌==◌, if◌then◌else◌}

-- The branches of the `switch` on a character.
abbrev pub escape_char : ℕ → List ℕ
escape_char ch =
    if ch == b'\\'
    then b'\\' ∷ b'\\' ∷ []
    else if ch == 34
    then b'\\' ∷ 34 ∷ []
    else if ch == 10
    then b'\\' ∷ b'n' ∷ []
    else if ch == 13
    then b'\\' ∷ b'r' ∷ []
    else if ch == 9
    then b'\\' ∷ b't' ∷ []
    else ch ∷ []

unfoldable pub escape_json : List ℕ → List ℕ
escape_json [] = []
escape_json (ch ∷ input) = escape_char ch ++ escape_json input
