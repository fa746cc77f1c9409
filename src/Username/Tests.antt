-- ===== src/Username/Tests.antt =====
-- A name of letters and Chinese characters.
use im_system.Common.{◌≡◌, ◌≤◌, refl, true, Text, length}
use im_system.Text.{bytes}
use im_system.Username.{runes, is_valid_username}
use im_system.Username.Safe.{all_word_bytes, valid_username_safe}

abbrev name : Text
unfolding bytes
name = bytes "ann_小明"

valid_username_safe_example :
    (2 ≤ length (runes 0 name)) × (length (runes 0 name) ≤ 20) × (all_word_bytes name ≡ true)
unfolding is_valid_username name
valid_username_safe_example = valid_username_safe name refl
