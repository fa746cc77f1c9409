-- ===== src/Sanitize.antt =====
-- internal/server/server.go: `sanitizeInputWithLimit` and `sanitizeInput`, with the tag pattern
-- `<[^>]*>` of `htmlTagRe`. The pattern matches from a `<` to the next `>`, whatever stands between.
pub mod Tags
pub mod Limit
mod Tests
use im_system.Common.{
  ℕ, zero, suc, Bool, true, false, ◌&&◌, ◌||◌, not, Option, none, some, [], ◌∷◌, ◌++◌, ltb, ◌==◌,
  if◌then◌else◌, Text, text_eq, length, take, any,
}
use im_system.Text.Trim.{trim_space}

abbrev pub is_gt : ℕ → Bool
is_gt c = c == b'>'

-- Whether a tag begins with the byte `c` before `s`: a `<` that some `>` closes.
abbrev pub opens_tag : ℕ → Text → Bool
opens_tag c s = c == b'<' && any is_gt s

-- htmlTagRe.ReplaceAllString(s, ""); the flag says that the scan stands inside a tag.
unfoldable pub remove_tags : Bool → Text → Text
unfolding any
remove_tags inside [] = []
remove_tags true (c ∷ s) = remove_tags (not (is_gt c)) s
remove_tags false (c ∷ s) =
    let rest = remove_tags (opens_tag c s) s in if opens_tag c s then rest else c ∷ rest

-- `for { stripped := ...; if stripped == input { break }; input = stripped }`; `none` means that the
-- rounds ran out.
unfoldable pub strip_loop : ℕ → Text → Option Text
unfolding remove_tags text_eq
strip_loop zero input = none
strip_loop (suc rounds) input =
    let stripped = remove_tags false input in
    elim (text_eq stripped input) [ true ↦ some input | false ↦ strip_loop rounds stripped ]

abbrev pub ellipsis : Text
ellipsis = b'.' ∷ b'.' ∷ b'.' ∷ []

-- `if len(input) > maxLen { input = input[:maxLen] + "..." }`
unfoldable pub truncate : Text → ℕ → Text
truncate input max_len =
    if ltb max_len (length input) then take max_len input ++ ellipsis else input

-- The rounds given to the loop; Sanitize/Tags counts those that it needs.
abbrev pub strip_rounds : ℕ
strip_rounds = 2

unfoldable pub sanitize_input_with_limit : Text → ℕ → Text
unfolding truncate strip_loop trim_space
sanitize_input_with_limit input max_len = elim (strip_loop strip_rounds input) [
  | none ↦ input
  | some stripped ↦ trim_space (truncate stripped max_len)
]

unfoldable pub sanitize_input : Text → Text
unfolding sanitize_input_with_limit
sanitize_input input = sanitize_input_with_limit input 500
