-- ===== src/External/Regex.antt =====
-- regex, for one pattern.
use mpc_server.Common.{ℕ, ◌≡◌, Option, some, ◌∷◌, ◌++◌, Text, true, ◌&&◌, ◌||◌, leb, ◌==◌, All}

pub record Regex : Type 0 where
  -- The first group of `^\{"(\w+)".*`
  pub captures : Text → Option Text

-- A letter, a digit or an underscore of ASCII.
abbrev pub IsWord : Text → Type 0
IsWord word =
    All
      (λ c.
        (leb 48 c && leb c 57 || leb 65 c && leb c 90 || c == 95 || leb 97 c && leb c 122) ≡ true)
      word

-- What regex documents of the pattern, for words of ASCII: a brace is 123, and a quote
-- 34.
pub record RegexLaws ⦃regex : Regex⦄ : Type 0 where
  pub captures_word :
      (c : ℕ) (word rest : Text)
      → IsWord (c ∷ word)
      → regex.captures (123 ∷ 34 ∷ ((c ∷ word) ++ (34 ∷ rest))) ≡ some (c ∷ word)
