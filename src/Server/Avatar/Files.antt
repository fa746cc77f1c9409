-- ===== src/Server/Avatar/Files.antt =====
-- internal/server/avatar.go: the directory of avatars after an upload.
use im_system.Common.{
  ℕ, ◌+◌, ◌≤◌, ◌≡◌, refl, sym, ap, ◌∙◌, subst, Bool, true, false, ◌||◌, not, Option, none, some, [],
  ◌∷◌, ◌++◌, ltb, ◌==◌, arith, if◌then◌else◌, Text, text_eq, Assoc, lookup, insert, Distinct,
  lookup-insert, lookup-retain, any, any-append, select, length, Bool-cases, Option-cases, inl, inr,
}
use im_system.Text.{bytes, has_prefix, contains, cut}
use im_system.Server.Avatar.{
  max_avatar_size, Saved, saved, extension, safe_name, is_old_avatar, cleanup_old_avatars,
  decode_image, write_avatar, save_avatar_file,
}

-- What `filepath.Join` or the operating system could read as more than a name.
abbrev pub is_separator : ℕ → Bool
is_separator c = c == b'/' || c == b'\\' || c == b':'

abbrev pub dots : Text → ℕ
dots name = length (select (λ c. c == b'.') name)

safe_name-separators : (username : Text) → any is_separator (safe_name username) ≡ false
unfolding safe_name any
safe_name-separators [] = refl
safe_name-separators (c ∷ s) = ground (arith, safe_name-separators s)

safe_name-dots : (username : Text) → dots (safe_name username) ≡ 0
unfolding safe_name select
safe_name-dots [] = refl
safe_name-dots (c ∷ s) = ground (arith, safe_name-dots s)

-- The four extensions.
pub record Plain (ext : Text) : Type 0 where
  pub no_separators : any is_separator ext ≡ false
  pub one_dot : dots ext ≡ 1

record AllPlain (found : Option Text) : Type 0 where
  pub all : (ext : Text) → found ≡ some ext → Plain ext

if-AllPlain :
    (c : Bool) {q r : Option Text} → AllPlain q → AllPlain r → AllPlain (if c then q else r)
if-AllPlain true v w = v
if-AllPlain false v w = w

one-AllPlain : (e : Text) → any is_separator e ≡ false → dots e ≡ 1 → AllPlain (some e)
one-AllPlain e a b = record {
  all = λ ext h.
      let same : e ≡ ext = cc in subst Plain same (record { no_separators = a; one_dot = b });
}

extension-Plain : (mime : Text) → AllPlain (extension mime)
unfolding extension bytes any select
extension-Plain mime =
    if-AllPlain (contains mime (bytes "image/png")) (one-AllPlain (bytes ".png") refl refl) (
      if-AllPlain (contains mime (bytes "image/jpeg")) (one-AllPlain (bytes ".jpg") refl refl) (
        if-AllPlain (contains mime (bytes "image/gif")) (one-AllPlain (bytes ".gif") refl refl) (
          if-AllPlain (contains mime (bytes "image/webp")) (one-AllPlain (bytes ".webp") refl refl)
            (record { all = λ ext h. cc }))))

dots-append : (s t : Text) → dots (s ++ t) ≡ dots s + dots t
unfolding select
dots-append [] t = omega arith
dots-append (c ∷ s) t = ground (arith, dots-append s t)

-- The name of an upload stays a name, with the dot of its extension.
filename-Plain : (username ext : Text) → Plain ext → Plain (safe_name username ++ ext)
filename-Plain username ext p = record {
  no_separators =
      rw (any-append is_separator (safe_name username) ext, safe_name-separators username)
        p.no_separators;
  one_dot = omega (arith, dots-append (safe_name username) ext, safe_name-dots username, p.one_dot);
}

-- What an upload leaves in the directory: the image is what the part behind the comma decodes to, and the
-- extension is that of the part before it.
pub record Uploaded (files : Assoc Text) (username avatar_data path : Text) (after : Assoc Text)
    : Type 0 where
  pub mime : Text
  pub encoded : Text
  pub ext : Text
  pub image : Text
  pub parts : cut b',' avatar_data ≡ some (mime, encoded)
  pub ext_of : extension mime ≡ some ext
  pub image_of : decode_image encoded ≡ some image
  pub path_of : path ≡ bytes "/uploads/avatars/" ++ safe_name username ++ ext
  pub plain : Plain (safe_name username ++ ext)
  pub small : length image ≤ max_avatar_size
  pub files_after :
      (name : Text)
      → lookup name after ≡ (
          if text_eq (safe_name username ++ ext) name
          then some image
          else if is_old_avatar username name
          then none
          else lookup name files)

lookup-cleanup :
    (files : Assoc Text) (username name : Text)
    → Distinct files
    → lookup name (cleanup_old_avatars files username)
      ≡ (if is_old_avatar username name then none else lookup name files)
unfolding cleanup_old_avatars
lookup-cleanup files username name v =
    lookup-retain (λ k _. not (is_old_avatar username k)) name files v
    ∙ (elim (Option-cases (lookup name files)) [
      | inl absent ↦ rw absent (elim (Bool-cases (is_old_avatar username name)) [
        | inl old ↦ rw old refl
        | inr young ↦ rw young refl
      ])
      | inr (image, present) ↦ rw present (elim (Bool-cases (is_old_avatar username name)) [
        | inl old ↦ rw old refl
        | inr young ↦ rw young refl
      ])
    ])

write_avatar-Uploaded :
    (files : Assoc Text) (username avatar_data mime encoded ext image path : Text)
    → Distinct files
    → cut b',' avatar_data ≡ some (mime, encoded)
    → extension mime ≡ some ext
    → decode_image encoded ≡ some image
    → (write_avatar files username ext image).1 ≡ saved path
    → Uploaded files username avatar_data path (write_avatar files username ext image).0
unfolding write_avatar
write_avatar-Uploaded files username avatar_data mime encoded ext image path v parts known whole h =
    elim (Bool-cases (ltb max_avatar_size (length image))) [
      | inl large ↦ ground (arith, large, h)
      | inr fits ↦
          let stored : write_avatar files username ext image ≡ (
            insert (safe_name username ++ ext) image (cleanup_old_avatars files username),
            saved (bytes "/uploads/avatars/" ++ (safe_name username ++ ext)),
          ) =
            rw (write_avatar, fits) refl in
          record {
            mime = mime;
            encoded = encoded;
            ext = ext;
            image = image;
            parts = parts;
            ext_of = known;
            image_of = whole;
            path_of = ground (arith, stored, h);
            plain = filename-Plain username ext ((extension-Plain mime).all ext known);
            small = ground (arith, fits);
            files_after = λ name.
                ap (λ (r : Assoc Text × Saved). lookup name r.0) stored
                ∙ lookup-insert (safe_name username ++ ext) name image
                    (cleanup_old_avatars files username)
                ∙ rw (lookup-cleanup files username name v) refl;
          }
    ]

not_url :
    (avatar_data : Text)
    → has_prefix avatar_data (bytes "data:") ≡ true
    → has_prefix avatar_data (b'/' ∷ []) ≡ false
unfolding has_prefix bytes
not_url [] h = refl
not_url (c ∷ s) h = ground (arith, h)

-- After an upload of an image that was accepted, the file under the path that is answered has what the
-- part of the URI behind its first comma decodes to, of at most 2 MB; its name is the user's safe name
-- with the extension of the image type before the comma, and has no separator and one dot; every other
-- file whose name begins with the user's safe name and a dot or an underscore is gone; and all other
-- files are what they were.
pub save_avatar_file-Uploaded :
    (files : Assoc Text) (username avatar_data path : Text)
    → Distinct files
    → has_prefix avatar_data (bytes "data:") ≡ true
    → (save_avatar_file files username avatar_data).1 ≡ saved path
    → Uploaded files username avatar_data path (save_avatar_file files username avatar_data).0
unfolding save_avatar_file
save_avatar_file-Uploaded files username avatar_data path v uri h =
    elim (Option-cases (cut b',' avatar_data)) [
      | inl whole ↦ ground (arith, not_url avatar_data uri, uri, whole, h)
      | inr ((mime, encoded), parts) ↦ elim (Option-cases (extension mime)) [
        | inl unknown ↦ ground (arith, not_url avatar_data uri, uri, parts, unknown, h)
        | inr (ext, known) ↦ elim (Option-cases (decode_image encoded)) [
          | inl broken ↦ ground (arith, not_url avatar_data uri, uri, parts, known, broken, h)
          | inr (image, whole) ↦
              let same : save_avatar_file files username avatar_data
                  ≡ write_avatar files username ext image =
                rw (save_avatar_file, not_url avatar_data uri, uri, parts, known, whole) refl in
              subst (λ (r : Assoc Text × Saved). Uploaded files username avatar_data path r.0)
                (sym same)
                (write_avatar-Uploaded files username avatar_data mime encoded ext image path v
                  parts known whole (ap (λ (r : Assoc Text × Saved). r.1) (sym same) ∙ h))
        ]
      ]
    ]
