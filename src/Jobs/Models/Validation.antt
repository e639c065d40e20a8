-- ===== src/Jobs/Models/Validation.antt =====
-- The `Token` pattern of documents/jobs/models.py.
use Prim.Native.Char.{code}
use estudio_polymind_llm_orc.Prelude.{
  ℕ, String, Bool, ◌&&◌, ◌||◌, List, [], ◌∷◌, leb, ◌==◌, length, all,
}

abbrev codes : String → List ℕ
codes String.[] = []
codes (String.◌∷◌ c s) = code c ∷ codes s

-- [a-zA-Z0-9_./:-]
abbrev token_char : ℕ → Bool
token_char c =
    leb b'a' c && leb c b'z' || leb b'A' c && leb c b'Z' || leb b'-' c && leb c b':' || c == b'_'

-- `Token`: 1 to 128 characters of the pattern
unfoldable pub is_token : String → Bool
is_token s = let cs = codes s in leb 1 (length cs) && leb (length cs) 128 && all token_char cs
