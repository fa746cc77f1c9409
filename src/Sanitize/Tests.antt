-- ===== src/Sanitize/Tests.antt =====
-- Runs of the sanitiser of internal/server/server.go.
use im_system.Common.{◌≡◌, refl, false, some, ◌≤◌, ◌+◌, Text, length}
use im_system.Text.{bytes}
use im_system.Text.Trim.{space_width}
use im_system.Sanitize.{remove_tags, strip_loop, sanitize_input_with_limit}
use im_system.Sanitize.Tags.{has_tag, sanitize_removes_tags, strip_loop_total}
use im_system.Sanitize.Limit.{length-sanitize-le, sanitize_twice}

abbrev nested : Text
nested = bytes "<<b>script> hi <i>there"

sanitize_nested :
    sanitize_input_with_limit (bytes "<<b>script> hi <i>there") 500 ≡ bytes "script> hi there"
unfolding sanitize_input_with_limit bytes
sanitize_nested = refl

sanitize_cuts : sanitize_input_with_limit (bytes "hello") 2 ≡ bytes "he..."
unfolding sanitize_input_with_limit bytes
sanitize_cuts = refl

-- Behind a leading space the second pass cuts the ellipsis of the first.
sanitize_drifts :
    sanitize_input_with_limit (sanitize_input_with_limit (bytes " abcd") 3) 3 ≡ bytes "ab...."
    × (sanitize_input_with_limit (bytes " abcd") 3 ≡ bytes "ab...")
unfolding sanitize_input_with_limit bytes
sanitize_drifts = (refl, refl)

sanitize_removes_tags_example : has_tag (sanitize_input_with_limit nested 4) ≡ false
sanitize_removes_tags_example = sanitize_removes_tags nested 4

length-sanitize-le_example : length (sanitize_input_with_limit nested 4) ≤ 4 + 3
length-sanitize-le_example = length-sanitize-le nested 4

sanitize_twice_example :
    sanitize_input_with_limit (sanitize_input_with_limit nested 4) 4
    ≡ sanitize_input_with_limit nested 4
unfolding bytes remove_tags space_width
sanitize_twice_example = sanitize_twice nested 4 refl

strip_loop_total_example : strip_loop 2 nested ≡ some (remove_tags false nested)
strip_loop_total_example = strip_loop_total 0 nested
