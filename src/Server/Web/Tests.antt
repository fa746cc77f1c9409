-- ===== src/Server/Web/Tests.antt =====
-- A login over HTTP, and the renaming of a session that has a socket.
use im_system.Db.Groups.{create_group}
use im_system.Db.Friends.{add_friend}
use im_system.Db.Messages.{save_message}
use im_system.Common.{
  ◌+◌, ◌≡◌, refl, false, arith, none, some, [], ◌∷◌, Text, if◌then◌else◌, leb, lookup, text_eq,
  insert, without,
}
use im_system.Session.{create, get_username, new_memory_session_store}
use im_system.Session.Lookup.{holder}
use im_system.Model.{DbUser}
use im_system.Db.{ok}
use im_system.Db.Users.{authenticate_user, register_user, get_user_by_username}
use im_system.Db.Samples.{plain_bcrypt, bob, ann, secret, start, history, salted, matches}
use im_system.Server.{Server}
use im_system.Server.Samples.{idle, at_ten}
use im_system.Server.Presence.{is_name_taken}
use im_system.Server.Socket.{ws_connect}
use im_system.Server.Web.{handle_login, handle_rename}
use im_system.Server.Web.Sessions.{login_token, rename_session}

abbrev tok : Text
tok = b't' ∷ []

login_token_example :
    ((account : DbUser) × (authenticate_user plain_bcrypt start ann secret ≡ ok account))
    × ((get_username
          (handle_login plain_bcrypt at_ten idle [] (some (ann, secret)) (some tok)).0.sessions
          20
          tok).1
        ≡ (if leb 20 (10 + 86400) then some ann else none))
unfolding idle handle_login lookup text_eq history save_message add_friend create_group
    register_user salted matches
login_token_example =
    login_token plain_bcrypt at_ten idle [] ann secret (some tok) tok [] [] [] 20 refl

abbrev with_session : Server
unfolding idle create
with_session = record idle { sessions = (create new_memory_session_store (some tok) 0 bob 100).0 }

abbrev with_socket : Server
unfolding ws_connect with_session
with_socket = (ws_connect at_ten with_session (some tok) []).0

rename_session_example :
    (is_name_taken with_socket ann ≡ false)
    × ((handle_rename at_ten with_socket (some (tok, ann))).0.db ≡ with_socket.db)
    × (holder (handle_rename at_ten with_socket (some (tok, ann))).0.sessions 20 tok ≡ (
        if text_eq tok tok
        then elim (holder with_socket.sessions 20 tok) [ none ↦ none | some _ ↦ some ann ]
        else holder with_socket.sessions 20 tok))
unfolding handle_rename text_eq lookup with_socket insert get_user_by_username history save_message
    add_friend create_group register_user salted without
rename_session_example = rename_session at_ten with_socket tok ann tok 20 refl (omega arith)
