-- ===== src/Db/Messages/Like.antt =====
-- SQLite's LIKE: `%` stands for any text, `_` for one character, ASCII letters match in either case.
use im_system.Common.{
  ℕ, ◌≡◌, refl, Bool, true, false, ◌&&◌, ◌||◌, not, [], ◌∷◌, ◌++◌, arith, leb, ltb, ◌==◌,
  if◌then◌else◌, Text,
}
use im_system.Text.{to_lower_byte}

-- A byte inside a character of UTF-8.
abbrev pub is_continuation : ℕ → Bool
is_continuation c = leb 0x80 c && ltb c 0xC0

abbrev at_boundary : Text → Bool
at_boundary [] = true
at_boundary (c ∷ s) = not (is_continuation c)

-- Whether `f` holds at the front of the text or at a later character.
unfoldable pub later_matches : (Text → Bool) → Text → Bool
later_matches f [] = false
later_matches f (c ∷ s) = (at_boundary s && f s) || later_matches f s

unfoldable pub some_tail : (Text → Bool) → Text → Bool
unfolding later_matches
some_tail f s = f s || later_matches f s

drop_continuation : Text → Text
drop_continuation [] = []
drop_continuation (c ∷ s) = if is_continuation c then drop_continuation s else c ∷ s

one_character : (Text → Bool) → Text → Bool
unfolding drop_continuation
one_character f [] = false
one_character f (c ∷ s) = f (drop_continuation s)

unfoldable pub same_letter : ℕ → (Text → Bool) → Text → Bool
unfolding to_lower_byte
same_letter p f [] = false
same_letter p f (c ∷ s) = to_lower_byte p == to_lower_byte c && f s

abbrev is_empty : Text → Bool
is_empty [] = true
is_empty (c ∷ s) = false

-- What one byte of the pattern asks, before the rest of it.
abbrev like_step : ℕ → (Text → Bool) → Text → Bool
like_step p rest s =
    if p == b'%'
    then some_tail rest s
    else if p == b'_'
    then one_character rest s
    else same_letter p rest s

unfoldable pub like : Text → Text → Bool
unfolding some_tail one_character same_letter
like [] s = is_empty s
like (p ∷ ps) s = like_step p (like ps) s

-- The text begins with the query, in either case of its letters.
unfoldable pub begins : Text → Text → Bool
unfolding same_letter
begins [] s = true
begins (q ∷ qs) s = same_letter q (begins qs) s

-- A query without wildcards.
unfoldable pub is_plain : Text → Bool
is_plain [] = true
is_plain (q ∷ qs) = not (q == b'%') && not (q == b'_') && is_plain qs

later-is_empty : (c : ℕ) (s : Text) → later_matches is_empty (c ∷ s) ≡ true
unfolding later_matches
later-is_empty c [] = refl
later-is_empty c (d ∷ s) = ground (arith, later-is_empty d s)

trailing_percent : (s : Text) → some_tail is_empty s ≡ true
unfolding some_tail
trailing_percent [] = refl
trailing_percent (c ∷ s) = later-is_empty c s

like-begins :
    (query s : Text) → is_plain query ≡ true → like (query ++ b'%' ∷ []) s ≡ begins query s
unfolding like begins is_plain
like-begins [] s h = trailing_percent s
like-begins (q ∷ qs) [] h = ground arith
like-begins (q ∷ qs) (c ∷ s) h = ground (arith, like-begins qs s)

later-cong :
    (f g : Text → Bool)
    → ((s : Text) → f s ≡ g s)
    → (s : Text) → later_matches f s ≡ later_matches g s
unfolding later_matches
later-cong f g h [] = refl
later-cong f g h (c ∷ s) = ground (arith, h s, later-cong f g h s)

-- A query without wildcards is searched for as it stands: the text matches just where the query
-- begins at some character of it, in either case of its letters.
pub like_plain :
    (query s : Text)
    → is_plain query ≡ true
    → like (b'%' ∷ query ++ b'%' ∷ []) s ≡ some_tail (begins query) s
unfolding like some_tail
like_plain query s h =
    let same : (t : Text) → like (query ++ b'%' ∷ []) t ≡ begins query t =
      λ t. like-begins query t h in
    ground (arith, same s, later-cong (like (query ++ b'%' ∷ [])) (begins query) same s)
