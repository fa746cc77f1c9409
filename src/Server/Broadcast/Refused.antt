-- ===== src/Server/Broadcast/Refused.antt =====
-- internal/server/server.go: when `sendPrivate` refuses a message.
use im_system.Common.{
  ◌≡◌, ◌≢◌, ◌↔◌, ◌⊎◌, ap, refl, Bool, true, false, none, List, [], ◌∷◌, arith, Text, text_eq, any,
  find, is_some, Option, inl, inr,
}
use im_system.Model.{DbUser, UserPublic}
use im_system.Db.{Database, DbError, ok, err}
use im_system.Db.Users.{get_user_by_username, select_user}
use im_system.Db.Groups.Rows.{Result-cases}
use im_system.Server.{Server, Env}
use im_system.Server.Broadcast.{send_private, SendError}
use im_system.Server.Broadcast.Private.{send_private_known}

-- Whether a row of the table `users` has the name.
abbrev pub is_account : Database → Text → Bool
is_account db name = any (λ (u : DbUser). text_eq u.username name) db.users

any-eq-find : (p : DbUser → Bool) (us : List DbUser) → any p us ≡ is_some (find p us)
unfolding any find
any-eq-find p [] = refl
any-eq-find p (u ∷ us) = ground (arith, any-eq-find p us)

found_account :
    (db : Database) (name : Text) (u : UserPublic)
    → get_user_by_username db name ≡ ok u
    → is_account db name ≡ true
unfolding get_user_by_username select_user
found_account db name u h =
    ground (arith, any-eq-find (λ (u : DbUser). text_eq u.username name) db.users)

missing_account :
    (db : Database) (name : Text) (e : DbError)
    → get_user_by_username db name ≡ err e
    → is_account db name ≡ false
unfolding get_user_by_username select_user
missing_account db name e h =
    ground (arith, any-eq-find (λ (u : DbUser). text_eq u.username name) db.users)

-- A private message is refused exactly when a row of the table `users` is missing for the sender's or
-- for the receiver's name, and where it is refused, nothing of the server changes.
pub send_private_refused :
    (env : Env) (s : Server) (from to raw avatar : Text)
    → (((send_private env s from to raw avatar).1 ≢ none)
        ↔ ((is_account s.db from ≡ false) ⊎ (is_account s.db to ≡ false)))
      × (((send_private env s from to raw avatar).1 ≡ none)
          ⊎ ((send_private env s from to raw avatar).0 ≡ s))
unfolding send_private
send_private_refused env s from to raw avatar =
    elim (Result-cases (get_user_by_username s.db from)) [
      | inr (e, unknown) ↦
          let missing = missing_account s.db from e unknown in
          rw (unknown, send_private) ((λ h. inl missing, λ h k. cc), inr refl)
      | inl (sender, known) ↦ elim (Result-cases (get_user_by_username s.db to)) [
        | inr (e, unknown) ↦
            let missing = missing_account s.db to e unknown in
            rw (known, unknown, send_private) ((λ h. inr missing, λ h k. cc), inr refl)
        | inl (receiver, there) ↦
            let sent : (send_private env s from to raw avatar).1 ≡ none =
              ap (λ (r : Server × Option SendError). r.1)
                (send_private_known env s from to raw avatar sender receiver known there) in
            let one = found_account s.db from sender known in
            let other = found_account s.db to receiver there in
            ((λ h. absurd (h sent), λ h. ground arith), inl sent)
      ]
    ]
