-- ===== src/Server/Live/Deliveries.antt =====
-- internal/server/server.go: the invariant of a running server, and the private and group messages.
use im_system.Common.{List, [], ◌∷◌, Text, lookup, Bool-cases, Option-cases, inl, inr}
use im_system.Model.{UserPublic}
use im_system.Db.Invariant.{save-DbOk}
use im_system.Server.{Server, Env, send_msg, write_ws}
use im_system.Server.Broadcast.{
  deliver_to_group_members_tcp, deliver_to_group_members_ws, deliver_private_tcp,
  deliver_private_ws, broadcast_to_group, send_private, is_nil, ws_private, ws_group, private_line,
  group_line,
}
use im_system.Db.Users.{get_user_by_username}
use im_system.Db.Groups.{get_group_members, get_group_by_name}
use im_system.Db.Groups.Rows.{Result-cases}
use im_system.Server.Live.{Live, saved-Live, send_msg-Live, write_ws-Live}

deliver_private_tcp-Live :
    (s : Server) (from to content : Text) → Live s → Live (deliver_private_tcp s from to content)
unfolding deliver_private_tcp
deliver_private_tcp-Live s from to content v = elim (Option-cases (lookup to s.online_map)) [
  | inl absent ↦ rw (absent, deliver_private_tcp) v
  | inr (p, present) ↦
      rw (present, deliver_private_tcp) (send_msg-Live s p (private_line from content) v)
]

deliver_private_ws-Live :
    (env : Env) (s : Server) (from to content avatar : Text)
    → Live s
    → Live (deliver_private_ws env s from to content avatar)
unfolding deliver_private_ws
deliver_private_ws-Live env s from to content avatar v =
    elim (Option-cases (lookup to s.ws_conns)) [
      | inl absent ↦ rw (absent, deliver_private_ws) v
      | inr (c, present) ↦
          rw (present, deliver_private_ws)
            (write_ws-Live s c (ws_private from to avatar content env.label) v)
    ]

deliver_group_tcp-Live :
    (s : Server) (group_name from msg : Text) (members : List UserPublic)
    → Live s
    → Live (deliver_to_group_members_tcp s group_name from msg members)
unfolding deliver_to_group_members_tcp
deliver_group_tcp-Live s group_name from msg [] v = v
deliver_group_tcp-Live s group_name from msg (m ∷ ms) v =
    elim (Option-cases (lookup m.username s.online_map)) [
      | inl absent ↦ rw absent (deliver_group_tcp-Live s group_name from msg ms v)
      | inr (p, present) ↦
          let line = group_line group_name from msg in
          rw present (
            deliver_group_tcp-Live (send_msg s p line) group_name from msg ms
              (send_msg-Live s p line v))
    ]

deliver_group_ws-Live :
    (env : Env) (s : Server) (group_name from msg avatar : Text) (members : List UserPublic)
    → Live s
    → Live (deliver_to_group_members_ws env s group_name from msg avatar members)
unfolding deliver_to_group_members_ws
deliver_group_ws-Live env s group_name from msg avatar [] v = v
deliver_group_ws-Live env s group_name from msg avatar (m ∷ ms) v =
    let out = ws_group group_name from avatar msg env.label in
    elim (Option-cases (lookup m.username s.ws_conns)) [
      | inl absent ↦ rw absent (deliver_group_ws-Live env s group_name from msg avatar ms v)
      | inr (c, present) ↦ rw present (
          deliver_group_ws-Live env (write_ws s c out) group_name from msg avatar ms
            (write_ws-Live s c out v))
    ]

pub send_private-Live :
    (env : Env) (s : Server) (from to raw avatar : Text)
    → Live s
    → Live (send_private env s from to raw avatar).0
unfolding send_private
send_private-Live env s from to raw avatar v =
    elim (Result-cases (get_user_by_username s.db from)) [
      | inr (e, bad) ↦ rw (bad, send_private) v
      | inl (u, found) ↦ elim (Result-cases (get_user_by_username s.db to)) [
        | inr (e, bad) ↦ rw (found, bad, send_private) v
        | inl (t, there) ↦
            rw (found, there, send_private)
              (deliver_private_ws-Live env _ from to _ avatar (
                deliver_private_tcp-Live _ from to _
                  (saved-Live s _ (save-DbOk s.db _ _ _ _ _ _ v.db_ok) v)))
      ]
    ]

pub broadcast_to_group-Live :
    (env : Env) (s : Server) (group_name from raw avatar : Text)
    → Live s
    → Live (broadcast_to_group env s group_name from raw avatar).0
unfolding broadcast_to_group
broadcast_to_group-Live env s group_name from raw avatar v =
    elim (Result-cases (get_user_by_username s.db from)) [
      | inr (e, bad) ↦ rw (bad, broadcast_to_group) v
      | inl (u, found) ↦ elim (Bool-cases (is_nil (get_group_members s.db group_name))) [
        | inl none_there ↦ rw (found, none_there, broadcast_to_group) v
        | inr some_there ↦ elim (Result-cases (get_group_by_name s.db group_name)) [
          | inr (e, bad) ↦ rw (found, some_there, bad, broadcast_to_group) v
          | inl (g, there) ↦
              rw (found, some_there, there, broadcast_to_group)
                (deliver_group_ws-Live env _ group_name from _ avatar
                  (get_group_members s.db group_name)
                  (deliver_group_tcp-Live _ group_name from _ (get_group_members s.db group_name)
                    (saved-Live s _ (save-DbOk s.db _ _ _ _ _ _ v.db_ok) v)))
        ]
      ]
    ]
