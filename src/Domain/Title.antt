-- ===== src/Domain/Title.antt =====
-- crates/journal-domain/src/lib.rs: `normalize_title` and `validate_title`, with what they use of
-- the standard library: `str::trim`, `char::is_whitespace` and `char::is_control`.
use mathlib.Core.List.{reverse}
use agent_journal.Prelude.{
  ℕ, Text, Option, none, some, [], ◌∷◌, Bool, ◌&&◌, ◌||◌, ltb, leb, ◌==◌, if◌then◌else◌, length,
  is_empty, any, Result, ◌>>◌, fail_if,
}
use agent_journal.Domain.Types.{
  ValidationError, invalid_title, title_control_characters, max_title_chars,
}

-- The property White_Space of Unicode.
unfoldable pub is_whitespace : ℕ → Bool
is_whitespace c =
    (leb 9 c && leb c 13)
    || c == 32
    || c == 0x85
    || c == 0xa0
    || c == 0x1680
    || (leb 0x2000 c && leb c 0x200a)
    || c == 0x2028
    || c == 0x2029
    || c == 0x202f
    || c == 0x205f
    || c == 0x3000

-- The general category Cc.
unfoldable pub is_control : ℕ → Bool
is_control c = ltb c 32 || (leb 127 c && leb c 159)

unfoldable pub trim_start : Text → Text
trim_start [] = []
trim_start (c ∷ s) = let rest = trim_start s in if is_whitespace c then rest else c ∷ s

unfoldable pub trim_end : Text → Text
trim_end s = reverse (trim_start (reverse s))

unfoldable pub trim : Text → Text
trim s = trim_end (trim_start s)

unfoldable pub normalize_title : Option Text → Option Text
normalize_title none = none
normalize_title (some title) = if is_empty (trim title) then none else some (trim title)

unfoldable pub validate_title : Text → Result ValidationError (Unit {0})
validate_title title = do
  fail_if (ltb max_title_chars (length title)) invalid_title
  fail_if (any is_control title) title_control_characters
