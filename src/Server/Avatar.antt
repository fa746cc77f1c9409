-- ===== src/Server/Avatar.antt =====
-- internal/server/avatar.go, with `UpdateAvatar` of server.go. The directory of avatars is the map from
-- a file's name to its content; it holds no directories, and the failures of the file system are left
-- out. A user name is UTF-8 and comes from a session.
pub mod Files
mod Tests
use im_system.Common.{
  true, false, ℕ, Bool, ◌*◌, ◌&&◌, ◌||◌, not, Option, none, some, [], ◌∷◌, ◌++◌, map, ltb, ◌==◌,
  if◌then◌else◌, Text, Assoc, insert, retain, length,
}
use im_system.Text.{bytes, has_prefix, contains, cut}
use im_system.Text.Base64.{decode_string}
use im_system.Db.Users.{update_user_avatar}
use im_system.Server.{Server}

abbrev pub max_avatar_size : ℕ
max_avatar_size = 2 * 1024 * 1024

pub data AvatarError : Type 0 where
  invalid_data_uri decode_failed too_large : AvatarError
  unsupported_type : Text → AvatarError

-- `(string, error)`
pub data Saved : Type 0 where
  saved : Text → Saved
  failed : AvatarError → Saved

-- `err.Error()`; the position that base64 adds is left out.
unfoldable pub avatar_error_text : AvatarError → Text
unfolding bytes
avatar_error_text invalid_data_uri = bytes "invalid data URI"
avatar_error_text decode_failed = bytes "failed to decode image data"
avatar_error_text too_large = bytes "avatar too large: 2097152 bytes max"
avatar_error_text (unsupported_type mime) = bytes "unsupported image type: " ++ mime

unfoldable pub extension : Text → Option Text
unfolding contains bytes
extension mime =
    if contains mime (bytes "image/png")
    then some (bytes ".png")
    else if contains mime (bytes "image/jpeg")
    then some (bytes ".jpg")
    else if contains mime (bytes "image/gif")
    then some (bytes ".gif")
    else if contains mime (bytes "image/webp")
    then some (bytes ".webp")
    else none

abbrev pub is_unsafe : ℕ → Bool
is_unsafe c = c == b'/' || c == b'\\' || c == b':' || c == b'.'

abbrev pub safe_byte : ℕ → ℕ
safe_byte c = if is_unsafe c then b'_' else c

unfoldable pub safe_name : Text → Text
safe_name username = map safe_byte username

-- The files that `cleanupOldAvatars` takes for older avatars of the user.
unfoldable pub is_old_avatar : Text → Text → Bool
unfolding has_prefix safe_name
is_old_avatar username name =
    has_prefix name (safe_name username ++ b'.' ∷ [])
    || has_prefix name (safe_name username ++ b'_' ∷ [])

unfoldable pub cleanup_old_avatars : Assoc Text → Text → Assoc Text
unfolding is_old_avatar retain
cleanup_old_avatars files username = retain (λ name _. not (is_old_avatar username name)) files

-- With padding, then without.
unfoldable pub decode_image : Text → Option Text
unfolding decode_string
decode_image data_part = elim (decode_string true data_part) [
  | some image ↦ some image
  | none ↦ decode_string false data_part
]

unfoldable pub write_avatar : Assoc Text → Text → Text → Text → Assoc Text × Saved
unfolding cleanup_old_avatars safe_name insert bytes
write_avatar files username ext image =
    let filename = safe_name username ++ ext in
    if ltb max_avatar_size (length image) then (files, failed too_large) else (
      insert filename image (cleanup_old_avatars files username),
      saved (bytes "/uploads/avatars/" ++ filename),
    )

unfoldable pub save_avatar_file : Assoc Text → Text → Text → Assoc Text × Saved
unfolding has_prefix cut extension decode_image write_avatar bytes
save_avatar_file files username avatar_data =
    if has_prefix avatar_data (b'/' ∷ [])
    then (files, saved avatar_data)
    else if not (has_prefix avatar_data (bytes "data:"))
    then (files, saved avatar_data)
    else elim (cut b',' avatar_data) [
      | none ↦ (files, failed invalid_data_uri)
      | some (mime, encoded) ↦ elim (extension mime) [
        | none ↦ (files, failed (unsupported_type mime))
        | some ext ↦ elim (decode_image encoded) [
          | none ↦ (files, failed decode_failed)
          | some image ↦ write_avatar files username ext image
        ]
      ]
    ]

-- The path is stored where there is one.
unfoldable pub store_path : Server → Text → Assoc Text × Saved → Server × Saved
unfolding update_user_avatar
store_path s username (files, result) = elim result [
  | failed e ↦ (record s { avatar_files = files }, failed e)
  | saved path ↦
      (record s { avatar_files = files; db = update_user_avatar s.db username path }, saved path)
]

unfoldable pub update_avatar : Server → Text → Text → Server × Saved
unfolding save_avatar_file store_path
update_avatar s username avatar =
    store_path s username (save_avatar_file s.avatar_files username avatar)
