-- ===== src/Server/Broadcast.antt =====
-- internal/server/server.go: how a message reaches its receivers. Public messages go to everybody,
-- private ones to one name, group messages to the members; each is first saved.
pub mod Fanout
pub mod Written
pub mod Private
pub mod Refused
pub mod Group
use im_system.Common.{
  ℕ, Bool, true, false, ◌&&◌, ◌||◌, not, Option, none, some, List, [], ◌∷◌, ◌++◌, ◌==◌,
  if◌then◌else◌, Text, text_eq, Assoc, lookup,
}
use im_system.Text.{bytes}
use im_system.Sanitize.{sanitize_input_with_limit}
use im_system.Model.{UserPublic, DbGroup}
use im_system.Db.{Database, DbError, Result, ok, err}
use im_system.Db.Users.{get_user_by_username}
use im_system.Db.Groups.{get_group_members, get_group_by_name}
use im_system.Db.Messages.{save_message, public_kind, private_kind, group_kind}
use im_system.Server.{User, WsOutgoing, BusMessage, Server, Env, send_msg, fanout_one, write_ws}

-- The values of a map, in the order in which `range` visits them.
unfoldable pub pointers : Assoc ℕ → List ℕ
pointers [] = []
pointers ((_, p) ∷ m) = p ∷ pointers m

unfoldable pub fanout_each : Text → Server → List ℕ → Server
unfolding fanout_one
fanout_each msg s [] = s
fanout_each msg s (p ∷ ps) = fanout_each msg (fanout_one s p msg) ps

unfoldable pub fanout_tcp : Server → Text → Server
unfolding fanout_each pointers
fanout_tcp s msg = fanout_each msg s (pointers s.online_map)

unfoldable pub write_each : WsOutgoing → Server → List ℕ → Server
unfolding write_ws
write_each msg s [] = s
write_each msg s (c ∷ cs) = write_each msg (write_ws s c msg) cs

unfoldable pub write_all : Server → WsOutgoing → Server
unfolding write_each pointers
write_all s msg = write_each msg s (pointers s.ws_conns)

-- `s.bus.Publish`, which puts in the server's own id.
unfoldable pub publish : Server → BusMessage → Server
publish s msg =
    if s.has_bus
    then record s { published = s.published ++ record msg { origin_id = s.server_id } ∷ [] }
    else s

abbrev pub ws_system : Text → WsOutgoing
ws_system content = record {
  kind = bytes "system";
  mode = [];
  from = [];
  to = [];
  group = [];
  avatar = [];
  content = content;
  time = [];
}

abbrev pub ws_public : Text → Text → Text → Text → WsOutgoing
ws_public from avatar content time = record {
  kind = bytes "message";
  mode = bytes "public";
  from = from;
  to = [];
  group = [];
  avatar = avatar;
  content = content;
  time = time;
}

abbrev pub ws_group : Text → Text → Text → Text → Text → WsOutgoing
ws_group group from avatar content time = record {
  kind = bytes "message";
  mode = bytes "group";
  from = from;
  to = [];
  group = group;
  avatar = avatar;
  content = content;
  time = time;
}

abbrev pub ws_private : Text → Text → Text → Text → Text → WsOutgoing
ws_private from to avatar content time = record {
  kind = bytes "message";
  mode = bytes "private";
  from = from;
  to = to;
  group = [];
  avatar = avatar;
  content = content;
  time = time;
}

abbrev pub bus_message : Text → Text → Text → Text → Text → BusMessage
bus_message kind from avatar content time = record {
  origin_id = [];
  kind = kind;
  from = from;
  to = [];
  avatar = avatar;
  content = content;
  time = time;
}

-- A failure to save is logged and nothing else.
unfoldable pub save_public : Database → ℕ → Text → Text → Database
save_public db now name msg = elim (get_user_by_username db name) [
  | err _ ↦ db
  | ok u ↦ (save_message db now u.id none none msg public_kind).0
]

unfoldable pub broadcast_public : Env → Server → Text → Text → Text → Bool → Server
unfolding save_public fanout_tcp write_all publish
broadcast_public env s name raw avatar is_system =
    let msg = sanitize_input_with_limit raw s.max_msg_length in
    let saved = record s { db = save_public s.db env.now name msg } in
    let fanned = fanout_tcp saved (name ++ (bytes ": " ++ msg)) in
    if is_system
    then publish (write_all fanned (ws_system (name ++ (bytes " " ++ msg))))
        (bus_message (bytes "system") name [] (name ++ (bytes " " ++ msg)) [])
    else publish (write_all fanned (ws_public name avatar msg env.label))
        (bus_message (bytes "public") name avatar msg env.label)

unfoldable pub sys_online : Text
unfolding bytes
sys_online = bytes "已上线"

unfoldable pub sys_offline : Text
unfolding bytes
sys_offline = bytes "已下线"

-- `BroadCast`: a text that reads like a system notice is one.
unfoldable pub broadcast : Env → Server → User → Text → Server
unfolding broadcast_public
broadcast env s u msg =
    broadcast_public env s u.name msg u.avatar (text_eq msg sys_online || text_eq msg sys_offline)

-- `BroadCastFromWeb` and `BroadCastFromWS`
unfoldable pub broadcast_from_web : Env → Server → Text → Text → Text → Server
unfolding broadcast_public
broadcast_from_web env s name msg avatar = broadcast_public env s name msg avatar false

-- The line that a member's terminal shows.
abbrev pub group_line : Text → Text → Text → Text
group_line group_name from msg =
    bytes "[群聊 " ++ (group_name ++ (bytes "] " ++ (from ++ (bytes ": " ++ (msg ++ bytes "\n")))))

unfoldable pub deliver_to_group_members_tcp : Server → Text → Text → Text → List UserPublic → Server
unfolding send_msg
deliver_to_group_members_tcp s group_name from msg [] = s
deliver_to_group_members_tcp s group_name from msg (m ∷ ms) =
    deliver_to_group_members_tcp
      (elim (lookup m.username s.online_map) [
        | none ↦ s
        | some p ↦ send_msg s p (group_line group_name from msg)
      ])
      group_name from msg ms

unfoldable pub deliver_to_group_members_ws :
    Env → Server → Text → Text → Text → Text → List UserPublic → Server
unfolding write_ws
deliver_to_group_members_ws env s group_name from msg avatar [] = s
deliver_to_group_members_ws env s group_name from msg avatar (m ∷ ms) =
    deliver_to_group_members_ws env
      (elim (lookup m.username s.ws_conns) [
        | none ↦ s
        | some c ↦ write_ws s c (ws_group group_name from avatar msg env.label)
      ])
      group_name from msg avatar ms

unfoldable pub deliver_private_ws : Env → Server → Text → Text → Text → Text → Server
unfolding write_ws
deliver_private_ws env s from to content avatar = elim (lookup to s.ws_conns) [
  | none ↦ s
  | some c ↦ write_ws s c (ws_private from to avatar content env.label)
]

abbrev pub private_line : Text → Text → Text
private_line from content = bytes "[私聊] " ++ (from ++ (bytes ": " ++ (content ++ bytes "\n")))

unfoldable pub deliver_private_tcp : Server → Text → Text → Text → Server
unfolding send_msg
deliver_private_tcp s from to content = elim (lookup to s.online_map) [
  | none ↦ s
  | some p ↦ send_msg s p (private_line from content)
]

-- The errors of `broadcastToGroup` and `sendPrivate`.
pub data SendError : Type 0 where
  sender_missing receiver_missing group_id_failed : DbError → SendError
  group_missing : SendError

unfoldable pub is_nil : List UserPublic → Bool
is_nil [] = true
is_nil (m ∷ ms) = false

unfoldable pub broadcast_to_group :
    Env → Server → Text → Text → Text → Text → Server × Option SendError
unfolding deliver_to_group_members_tcp deliver_to_group_members_ws is_nil
broadcast_to_group env s group_name from raw avatar =
    let msg = sanitize_input_with_limit raw s.max_msg_length in
    elim (get_user_by_username s.db from) [
      | err e ↦ (s, some (sender_missing e))
      | ok from_user ↦
          let members = get_group_members s.db group_name in
          if is_nil members
          then (s, some group_missing)
          else elim (get_group_by_name s.db group_name) [
            | err e ↦ (s, some (group_id_failed e))
            | ok group ↦
                let saved = record s {
                  db =
                      (save_message s.db env.now from_user.id none (some group.id) msg
                        group_kind).0;
                } in
                (
                  deliver_to_group_members_ws env
                      (deliver_to_group_members_tcp saved group_name from msg members) group_name
                      from msg avatar members,
                  none,
                )
          ]
    ]

unfoldable pub send_private : Env → Server → Text → Text → Text → Text → Server × Option SendError
unfolding deliver_private_tcp deliver_private_ws
send_private env s from to raw avatar =
    let content = sanitize_input_with_limit raw s.max_msg_length in
    elim (get_user_by_username s.db from) [
      | err e ↦ (s, some (sender_missing e))
      | ok from_user ↦ elim (get_user_by_username s.db to) [
        | err e ↦ (s, some (receiver_missing e))
        | ok to_user ↦
            let saved = record s {
              db =
                  (save_message s.db env.now from_user.id (some to_user.id) none content
                    private_kind).0;
            } in
            (
              deliver_private_ws env (deliver_private_tcp saved from to content) from to content
                  avatar,
              none,
            )
      ]
    ]
