-- ===== src/Server/Broadcast/Group.antt =====
-- internal/server/server.go: `broadcastToGroup` and the queues of those who are no members.
use im_system.Common.{
  ℕ, ◌≡◌, refl, ◌∙◌, Bool, false, none, some, List, [], ◌∷◌, arith, ◌==◌, get_elem?, any, Text,
  Assoc, lookup, Bool-cases, Option-cases, inl, inr,
}
use im_system.Sanitize.{sanitize_input_with_limit}
use im_system.Model.{UserPublic}
use im_system.Db.{Database}
use im_system.Db.Users.{get_user_by_username}
use im_system.Db.Groups.{get_group_members, get_group_by_name}
use im_system.Db.Groups.Rows.{Result-cases}
use im_system.Db.Messages.{save_message, group_kind}
use im_system.Server.{WsOutgoing, Server, Env, send_msg, write_ws}
use im_system.Server.Broadcast.{
  deliver_to_group_members_tcp, deliver_to_group_members_ws, broadcast_to_group, is_nil, group_line,
  ws_group,
}
use im_system.Server.Broadcast.Private.{
  addressed, addressed_absent, addressed_present, get-send_msg, get-write_ws,
}

-- The object is that of some member.
abbrev pub reached : Assoc ℕ → ℕ → List UserPublic → Bool
reached m q members = any (λ (u : UserPublic). addressed u.username m q) members

-- Neither the queue of the user `q` nor that of the client `c` has changed.
pub record Untouched (q c : ℕ) (s t : Server) : Type 0 where
  pub same_user : get_elem? t.users q ≡ get_elem? s.users q
  pub same_client : get_elem? t.clients c ≡ get_elem? s.clients c
  pub same_map : t.online_map ≡ s.online_map
  pub same_conns : t.ws_conns ≡ s.ws_conns

untouched : (q c : ℕ) (s : Server) → Untouched q c s s
untouched q c s = record {
  same_user = refl;
  same_client = refl;
  same_map = refl;
  same_conns = refl;
}

Untouched-trans :
    {q c : ℕ} {s t u : Server} → Untouched q c s t → Untouched q c t u → Untouched q c s u
Untouched-trans a b = record {
  same_user = b.same_user ∙ a.same_user;
  same_client = b.same_client ∙ a.same_client;
  same_map = b.same_map ∙ a.same_map;
  same_conns = b.same_conns ∙ a.same_conns;
}

send_msg-Untouched :
    (q c : ℕ) (s : Server) (p : ℕ) (msg : Text)
    → (p == q) ≡ false
    → Untouched q c s (send_msg s p msg)
unfolding send_msg
send_msg-Untouched q c s p msg h = record {
  same_user = get-send_msg s p q msg ∙ rw h refl;
  same_client = refl;
  same_map = refl;
  same_conns = refl;
}

write_ws-Untouched :
    (q c : ℕ) (s : Server) (p : ℕ) (msg : WsOutgoing)
    → (p == c) ≡ false
    → Untouched q c s (write_ws s p msg)
unfolding write_ws
write_ws-Untouched q c s p msg h = record {
  same_user = refl;
  same_client = get-write_ws s p c msg ∙ rw h refl;
  same_map = refl;
  same_conns = refl;
}

deliver_tcp-Untouched :
    (q c : ℕ) (group_name from msg : Text) (ms : List UserPublic) (s : Server)
    → reached s.online_map q ms ≡ false
    → Untouched q c s (deliver_to_group_members_tcp s group_name from msg ms)
unfolding deliver_to_group_members_tcp any
deliver_tcp-Untouched q c group_name from msg [] s h = untouched q c s
deliver_tcp-Untouched q c group_name from msg (m ∷ ms) s h =
    elim (Option-cases (lookup m.username s.online_map)) [
      | inl absent ↦ rw absent (
          deliver_tcp-Untouched q c group_name from msg ms s
            (ground (arith, h, addressed_absent m.username s.online_map q absent)))
      | inr (p, present) ↦
          let line = group_line group_name from msg in
          let one = addressed_present m.username s.online_map p q present in
          let sent = send_msg-Untouched q c s p line (ground (arith, h, one)) in
          rw present (
            Untouched-trans sent (
              deliver_tcp-Untouched q c group_name from msg ms (send_msg s p line)
                (rw sent.same_map (ground (arith, h)))))
    ]

deliver_ws-Untouched :
    (q c : ℕ) (env : Env) (group_name from msg avatar : Text) (ms : List UserPublic) (s : Server)
    → reached s.ws_conns c ms ≡ false
    → Untouched q c s (deliver_to_group_members_ws env s group_name from msg avatar ms)
unfolding deliver_to_group_members_ws any
deliver_ws-Untouched q c env group_name from msg avatar [] s h = untouched q c s
deliver_ws-Untouched q c env group_name from msg avatar (m ∷ ms) s h =
    elim (Option-cases (lookup m.username s.ws_conns)) [
      | inl absent ↦ rw absent (
          deliver_ws-Untouched q c env group_name from msg avatar ms s
            (ground (arith, h, addressed_absent m.username s.ws_conns c absent)))
      | inr (p, present) ↦
          let out = ws_group group_name from avatar msg env.label in
          let one = addressed_present m.username s.ws_conns p c present in
          let sent = write_ws-Untouched q c s p out (ground (arith, h, one)) in
          rw present (
            Untouched-trans sent (
              deliver_ws-Untouched q c env group_name from msg avatar ms (write_ws s p out)
                (rw sent.same_conns (ground (arith, h)))))
    ]

saved-Untouched : (q c : ℕ) (s : Server) (db : Database) → Untouched q c s (record s { db = db })
saved-Untouched q c s db = record {
  same_user = refl;
  same_client = refl;
  same_map = refl;
  same_conns = refl;
}

-- Whether a group message is sent or refused, the queue of a TCP user and that of a WebSocket client
-- who hold no name of a member of the group are what they were.
pub group_message_private :
    (env : Env) (s : Server) (group_name from raw avatar : Text) (q c : ℕ)
    → reached s.online_map q (get_group_members s.db group_name) ≡ false
    → reached s.ws_conns c (get_group_members s.db group_name) ≡ false
    → Untouched q c s (broadcast_to_group env s group_name from raw avatar).0
unfolding broadcast_to_group
group_message_private env s group_name from raw avatar q c off_tcp off_ws =
    elim (Result-cases (get_user_by_username s.db from)) [
      | inr (e, bad) ↦ rw (bad, broadcast_to_group) (untouched q c s)
      | inl (u, found) ↦ elim (Bool-cases (is_nil (get_group_members s.db group_name))) [
        | inl none_there ↦ rw (found, none_there, broadcast_to_group) (untouched q c s)
        | inr some_there ↦ elim (Result-cases (get_group_by_name s.db group_name)) [
          | inr (e, bad) ↦ rw (found, some_there, bad, broadcast_to_group) (untouched q c s)
          | inl (g, there) ↦
              let members = get_group_members s.db group_name in
              let msg = sanitize_input_with_limit raw s.max_msg_length in
              let saved : Server = record s {
                db = (save_message s.db env.now u.id none (some g.id) msg group_kind).0;
              } in
              let tcp = deliver_tcp-Untouched q c group_name from msg members saved off_tcp in
              rw (found, some_there, there, broadcast_to_group)
                (Untouched-trans (saved-Untouched q c s saved.db) (
                  Untouched-trans tcp (
                    deliver_ws-Untouched q c env group_name from msg avatar members
                      (deliver_to_group_members_tcp saved group_name from msg members)
                      (rw tcp.same_conns off_ws))))
        ]
      ]
    ]
