-- ===== src/Server/Avatar/Tests.antt =====
-- Ann uploads three bytes as a PNG, while a file of the user `ann_b` is there.
use im_system.Common.{refl, [], ◌∷◌, Text, Assoc, lookup, Distinct, text_eq}
use im_system.Text.{bytes, has_prefix}
use im_system.Db.Samples.{ann}
use im_system.Server.Avatar.{save_avatar_file}
use im_system.Server.Avatar.Files.{Uploaded, save_avatar_file-Uploaded}

abbrev files : Assoc Text
files = (bytes "ann_b.png", 7 ∷ []) ∷ (bytes "ann.jpg", 8 ∷ []) ∷ (bytes "bob.gif", 9 ∷ []) ∷ []

abbrev picture : Text
picture = bytes "data:image/png;base64,AAEC"

save_avatar_file-Uploaded_example :
    Uploaded files ann picture
      (bytes "/uploads/avatars/ann.png")
      (save_avatar_file files ann picture).0
unfolding Distinct lookup text_eq bytes has_prefix save_avatar_file
save_avatar_file-Uploaded_example =
    save_avatar_file-Uploaded files ann picture (bytes "/uploads/avatars/ann.png")
      (refl, (refl, (refl, tt))) refl refl
