-- ===== src/Server/Web/Friends/Seen.antt =====
-- internal/server/web.go: what `handleCheckFriend` tells both users after a request of `handleFriend`.
use im_system.Common.{
  ℕ, ◌≡◌, refl, ap, ◌∙◌, Bool, true, false, Option, none, some, arith, Text, text_eq,
}
use im_system.Text.{bytes}
use im_system.Session.{get_username}
use im_system.Model.{UserPublic}
use im_system.Db.{Database, DbError, ok}
use im_system.Db.Users.{get_user_by_username, select_user}
use im_system.Db.Friends.{add_friend, remove_friend, is_friend}
use im_system.Db.Friends.Symmetric.{FriendsOk, is_friend-add_friend, is_friend-remove_friend}
use im_system.Server.{Server, Env}
use im_system.Server.Web.{
  Reply, bad_request, unauthorized, not_found, success, friendship, is_blank,
}
use im_system.Server.Web.Cases.{if_answer, result_answer}
use im_system.Server.Web.Groups.{answered}
use im_system.Server.Web.Friends.{FriendBody, friend_action, handle_friend, handle_check_friend}

-- The users are not touched.
add_friend-users : (db : Database) (a b : ℕ) → (add_friend db a b).0.users ≡ db.users
unfolding add_friend
add_friend-users db a b = ground arith

remove_friend-users : (db : Database) (a b : ℕ) → (remove_friend db a b).0.users ≡ db.users
unfolding remove_friend
remove_friend-users db a b = ground arith

abbrev BothAre : Database → ℕ → ℕ → Bool → Type 0
BothAre db a b friends = (is_friend db a b ≡ friends) × (is_friend db b a ≡ friends)

added-BothAre :
    (db : Database) (v : FriendsOk db) (a b : ℕ)
    → (add_friend db a b).1 ≡ none
    → BothAre (add_friend db a b).0 a b true
added-BothAre db v a b h = (
  ground (arith, is_friend-add_friend db v a b h a b),
  ground (arith, is_friend-add_friend db v a b h b a),
)

removed-BothAre :
    (db : Database) (v : FriendsOk db) (a b : ℕ)
    → (remove_friend db a b).1 ≡ none
    → BothAre (remove_friend db a b).0 a b false
removed-BothAre db v a b h = (
  ground (arith, is_friend-remove_friend db v a b h a b),
  ground (arith, is_friend-remove_friend db v a b h b a),
)

-- A request that succeeds has found both users, and changed their friendship.
record Done (db : Database) (username : Text) (body : FriendBody) (r : Server × Reply)
    : Type 0 where
  pub done :
      r.1 ≡ success
      → (u : UserPublic) × (f : UserPublic) × (get_user_by_username db username ≡ ok u)
        × (get_user_by_username db body.friend ≡ ok f)
        × (is_blank body.friend ≡ false)
        × (r.0.db.users ≡ db.users)
        × BothAre r.0.db u.id f.id (text_eq body.action (bytes "add"))

module _ {db : Database} {username : Text} {body : FriendBody} where
  refused : (s : Server) (why : Text) → Done db username body (s, bad_request why)
  refused s why = record { done = λ h. cc }

  no_login : (s : Server) (why : Text) → Done db username body (s, unauthorized why)
  no_login s why = record { done = λ h. cc }

  missing : (s : Server) (why : Text) → Done db username body (s, not_found why)
  missing s why = record { done = λ h. cc }

  changed :
      (s : Server) (u f : UserPublic) (r : Database × Option DbError)
      → get_user_by_username db username ≡ ok u
      → get_user_by_username db body.friend ≡ ok f
      → is_blank body.friend ≡ false
      → r.0.users ≡ db.users
      → (r.1 ≡ none → BothAre r.0 u.id f.id (text_eq body.action (bytes "add")))
      → Done db username body (answered s success r)
  unfolding answered
  changed s u f (db', none) a b c d e = record { done = λ h. (u, f, a, b, c, d, e refl) }
  changed s u f (db', some _) a b c d e = record { done = λ h. cc }

friend_action-Done :
    (s : Server) (username : Text) (body : FriendBody)
    → FriendsOk s.db
    → Done s.db username body (friend_action s username body)
unfolding friend_action
friend_action-Done s username body v =
    let P = Done s.db username body in
    result_answer P (get_user_by_username s.db username) (λ e _. no_login s _)
      (λ (u : UserPublic) a.
        if_answer P (is_blank body.friend) (λ _. refused s _)
          (λ c.
            result_answer P (get_user_by_username s.db body.friend) (λ e _. missing s _)
              (λ (f : UserPublic) b.
                if_answer P (text_eq body.action (bytes "add"))
                  (λ add.
                    changed s u f _ a b c (add_friend-users s.db u.id f.id)
                      (λ h. rw add (added-BothAre s.db v u.id f.id h)))
                  (λ other.
                    if_answer P (text_eq body.action (bytes "remove"))
                      (λ _.
                        changed s u f _ a b c (remove_friend-users s.db u.id f.id)
                          (λ h. rw other (removed-BothAre s.db v u.id f.id h)))
                      (λ _. refused s _)))))

handle_friend-Done :
    (env : Env) (s : Server) (body : FriendBody) (username : Text)
    → FriendsOk s.db
    → (get_username s.sessions env.now body.token).1 ≡ some username
    → Done s.db username body (handle_friend env s (some body))
unfolding handle_friend
handle_friend-Done env s body username v known =
    let P = Done s.db username body in
    if_answer P (is_blank body.token) (λ _. refused s _)
      (λ _. rw known (friend_action-Done _ username body v))

same_user :
    (db db' : Database) (name : Text)
    → db'.users ≡ db.users
    → get_user_by_username db' name ≡ get_user_by_username db name
unfolding get_user_by_username select_user
same_user db db' name e = rw e refl

told :
    (s : Server) (me other : Text) (u f : UserPublic)
    → is_blank other ≡ false
    → get_user_by_username s.db me ≡ ok u
    → get_user_by_username s.db other ≡ ok f
    → (handle_check_friend (bytes "GET") other s me).1 ≡ friendship (is_friend s.db u.id f.id)
unfolding handle_check_friend text_eq bytes
told s me other u f filled a b = rw (handle_check_friend, filled, a, b) refl

-- After a request of `handleFriend` that succeeds, `handleCheckFriend` tells both users that they are
-- friends if the action was `add`, and that they are not if it was `remove`.
pub friend_request_seen :
    (env : Env) (s : Server) (body : FriendBody) (username : Text)
    → FriendsOk s.db
    → (get_username s.sessions env.now body.token).1 ≡ some username
    → is_blank username ≡ false
    → (handle_friend env s (some body)).1 ≡ success
    → ((handle_check_friend
          (bytes "GET")
          body.friend
          (handle_friend env s (some body)).0
          username).1
        ≡ friendship (text_eq body.action (bytes "add")))
      × ((handle_check_friend
            (bytes "GET")
            username
            (handle_friend env s (some body)).0
            body.friend).1
          ≡ friendship (text_eq body.action (bytes "add")))
friend_request_seen env s body username v known filled answer =
    let (u, f, me, other, friend_filled, users, both) =
      (handle_friend-Done env s body username v known).done answer in
    let after = (handle_friend env s (some body)).0 in
    let mine = same_user s.db after.db username users ∙ me in
    let theirs = same_user s.db after.db body.friend users ∙ other in
    (
      told after username body.friend u f friend_filled mine theirs ∙ ap friendship both.0,
      told after body.friend username f u filled theirs mine ∙ ap friendship both.1,
    )
