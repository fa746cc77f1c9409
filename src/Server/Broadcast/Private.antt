-- ===== src/Server/Broadcast/Private.antt =====
-- internal/server/server.go: `sendPrivate`, its receivers and its errors.
use im_system.Common.{
  ℕ, ◌≡◌, refl, sym, ap, ◌∙◌, Bool, false, Option, none, some, List, ◌==◌, if◌then◌else◌, get_elem?,
  Text, Assoc, lookup, Option-cases, inl, inr, subst,
}
use im_system.Sanitize.{sanitize_input_with_limit}
use im_system.Text.Trim.{trim_right_newlines}
use im_system.Model.{UserPublic}
use im_system.Db.{ok}
use im_system.Db.Users.{get_user_by_username}
use im_system.Db.Messages.{save_message, private_kind}
use im_system.Server.{User, WsOutgoing, Server, Env, receive, accept, send_msg, write_ws}
use im_system.Server.Objects.{applied, get_elem?-modify}
use im_system.Server.Broadcast.{
  private_line, ws_private, deliver_private_tcp, deliver_private_ws, send_private, SendError,
}

-- The name points to the object.
abbrev pub addressed : Text → Assoc ℕ → ℕ → Bool
addressed name m q = elim (lookup name m) [ none ↦ false | some p ↦ p == q ]

pub addressed_absent :
    (name : Text) (m : Assoc ℕ) (q : ℕ) → lookup name m ≡ none → addressed name m q ≡ false
addressed_absent name m q h = rw (h, addressed) refl

pub addressed_present :
    (name : Text) (m : Assoc ℕ) (p q : ℕ) → lookup name m ≡ some p → addressed name m q ≡ (p == q)
addressed_present name m p q h = rw (h, addressed) refl

pub get-send_msg :
    (s : Server) (p q : ℕ) (msg : Text)
    → get_elem? (send_msg s p msg).users q ≡ (
        if p == q
        then applied (receive (trim_right_newlines msg)) (get_elem? s.users q)
        else get_elem? s.users q)
unfolding send_msg
get-send_msg s p q msg = get_elem?-modify p q (receive (trim_right_newlines msg)) s.users

pub get-write_ws :
    (s : Server) (p q : ℕ) (msg : WsOutgoing)
    → get_elem? (write_ws s p msg).clients q
      ≡ (if p == q then applied (accept msg) (get_elem? s.clients q) else get_elem? s.clients q)
unfolding write_ws
get-write_ws s p q msg = get_elem?-modify p q (accept msg) s.clients

tcp_absent :
    (s : Server) (from to content : Text)
    → lookup to s.online_map ≡ none
    → deliver_private_tcp s from to content ≡ s
unfolding deliver_private_tcp
tcp_absent s from to content h = rw (h, deliver_private_tcp) refl

tcp_present :
    (s : Server) (from to content : Text) (p : ℕ)
    → lookup to s.online_map ≡ some p
    → deliver_private_tcp s from to content ≡ send_msg s p (private_line from content)
unfolding deliver_private_tcp
tcp_present s from to content p h = rw (h, deliver_private_tcp) refl

ws_absent :
    (env : Env) (s : Server) (from to content avatar : Text)
    → lookup to s.ws_conns ≡ none
    → deliver_private_ws env s from to content avatar ≡ s
unfolding deliver_private_ws
ws_absent env s from to content avatar h = rw (h, deliver_private_ws) refl

ws_present :
    (env : Env) (s : Server) (from to content avatar : Text) (c : ℕ)
    → lookup to s.ws_conns ≡ some c
    → deliver_private_ws env s from to content avatar
      ≡ write_ws s c (ws_private from to avatar content env.label)
unfolding deliver_private_ws
ws_present env s from to content avatar c h = rw (h, deliver_private_ws) refl

get-deliver_private_tcp :
    (s : Server) (from to content : Text) (q : ℕ)
    → get_elem? (deliver_private_tcp s from to content).users q ≡ (
        if addressed to s.online_map q
        then applied
            (receive (trim_right_newlines (private_line from content)))
            (get_elem? s.users q)
        else get_elem? s.users q)
get-deliver_private_tcp s from to content q = elim (Option-cases (lookup to s.online_map)) [
  | inl absent ↦
      ap (λ (t : Server). get_elem? t.users q) (tcp_absent s from to content absent)
      ∙ rw (addressed_absent to s.online_map q absent) refl
  | inr (p, present) ↦
      ap (λ (t : Server). get_elem? t.users q) (tcp_present s from to content p present)
      ∙ get-send_msg s p q (private_line from content)
      ∙ rw (addressed_present to s.online_map p q present) refl
]

get-deliver_private_ws :
    (env : Env) (s : Server) (from to content avatar : Text) (c : ℕ)
    → get_elem? (deliver_private_ws env s from to content avatar).clients c ≡ (
        if addressed to s.ws_conns c
        then applied (accept (ws_private from to avatar content env.label)) (get_elem? s.clients c)
        else get_elem? s.clients c)
get-deliver_private_ws env s from to content avatar c = elim (Option-cases (lookup to s.ws_conns)) [
  | inl absent ↦
      ap (λ (t : Server). get_elem? t.clients c) (ws_absent env s from to content avatar absent)
      ∙ rw (addressed_absent to s.ws_conns c absent) refl
  | inr (p, present) ↦
      ap (λ (t : Server). get_elem? t.clients c) (ws_present env s from to content avatar p present)
      ∙ get-write_ws s p c (ws_private from to avatar content env.label)
      ∙ rw (addressed_present to s.ws_conns p c present) refl
]

-- The TCP delivery is of no concern to the clients and to the database, nor the other one to the users.
record TcpOnly (s t : Server) : Type 0 where
  same_clients : s.clients ≡ t.clients
  same_conns : s.ws_conns ≡ t.ws_conns
  same_db : s.db ≡ t.db

send_msg-TcpOnly : (s : Server) (p : ℕ) (msg : Text) → TcpOnly s (send_msg s p msg)
unfolding send_msg
send_msg-TcpOnly s p msg = record { same_clients = refl; same_conns = refl; same_db = refl }

deliver_private_tcp-TcpOnly :
    (s : Server) (from to content : Text) → TcpOnly s (deliver_private_tcp s from to content)
deliver_private_tcp-TcpOnly s from to content = elim (Option-cases (lookup to s.online_map)) [
  | inl absent ↦
      subst (TcpOnly s) (sym (tcp_absent s from to content absent))
        (record { same_clients = refl; same_conns = refl; same_db = refl })
  | inr (p, present) ↦
      subst (TcpOnly s) (sym (tcp_present s from to content p present))
        (send_msg-TcpOnly s p (private_line from content))
]

record WsOnly (s t : Server) : Type 0 where
  same_users : s.users ≡ t.users
  same_db : s.db ≡ t.db

write_ws-WsOnly : (s : Server) (c : ℕ) (msg : WsOutgoing) → WsOnly s (write_ws s c msg)
unfolding write_ws
write_ws-WsOnly s c msg = record { same_users = refl; same_db = refl }

deliver_private_ws-WsOnly :
    (env : Env) (s : Server) (from to content avatar : Text)
    → WsOnly s (deliver_private_ws env s from to content avatar)
deliver_private_ws-WsOnly env s from to content avatar =
    elim (Option-cases (lookup to s.ws_conns)) [
      | inl absent ↦
          subst (WsOnly s) (sym (ws_absent env s from to content avatar absent))
            (record { same_users = refl; same_db = refl })
      | inr (c, present) ↦
          subst (WsOnly s) (sym (ws_present env s from to content avatar c present))
            (write_ws-WsOnly s c (ws_private from to avatar content env.label))
    ]

abbrev pub with_saved : Env → Server → UserPublic → UserPublic → Text → Server
with_saved env s sender receiver content = record s {
  db = (save_message s.db env.now sender.id (some receiver.id) none content private_kind).0;
}

pub send_private_known :
    (env : Env) (s : Server) (from to raw avatar : Text) (sender receiver : UserPublic)
    → get_user_by_username s.db from ≡ ok sender
    → get_user_by_username s.db to ≡ ok receiver
    → send_private env s from to raw avatar ≡ (
      deliver_private_ws env
          (deliver_private_tcp
            (with_saved env s sender receiver (sanitize_input_with_limit raw s.max_msg_length))
            from
            to
            (sanitize_input_with_limit raw s.max_msg_length))
          from
          to
          (sanitize_input_with_limit raw s.max_msg_length)
          avatar,
      none,
    )
unfolding send_private
send_private_known env s from to raw avatar sender receiver h k = rw (h, k, send_private) refl

-- A private message between two accounts is cleaned, cut and given to SaveMessage, and it is put into
-- the queue of the TCP user and of the WebSocket client that have the receiver's name, unless that
-- queue is full or closed, and into no other queue.
pub send_private_exact :
    (env : Env) (s : Server) (from to raw avatar : Text) (sender receiver : UserPublic) (q c : ℕ)
    → get_user_by_username s.db from ≡ ok sender
    → get_user_by_username s.db to ≡ ok receiver
    → ((send_private env s from to raw avatar).1 ≡ none)
      × (get_elem? (send_private env s from to raw avatar).0.users q ≡ (
          if addressed to s.online_map q
          then applied
              (receive (
                trim_right_newlines
                  (private_line from (sanitize_input_with_limit raw s.max_msg_length))))
              (get_elem? s.users q)
          else get_elem? s.users q))
      × (get_elem? (send_private env s from to raw avatar).0.clients c ≡ (
          if addressed to s.ws_conns c
          then applied
              (accept (
                ws_private from to avatar
                  (sanitize_input_with_limit raw s.max_msg_length)
                  env.label))
              (get_elem? s.clients c)
          else get_elem? s.clients c))
      × ((send_private env s from to raw avatar).0.db
          ≡ (save_message s.db env.now sender.id
              (some receiver.id)
              none
              (sanitize_input_with_limit raw s.max_msg_length)
              private_kind).0)
send_private_exact env s from to raw avatar sender receiver q c known there =
    let content = sanitize_input_with_limit raw s.max_msg_length in
    let saved = with_saved env s sender receiver content in
    let tcp = deliver_private_tcp saved from to content in
    let sent = send_private_known env s from to raw avatar sender receiver known there in
    let after = ap (λ (r : Server × Option SendError). r.0) sent in
    let tcp_only = deliver_private_tcp-TcpOnly saved from to content in
    let ws_only = deliver_private_ws-WsOnly env tcp from to content avatar in
    (
      ap (λ (r : Server × Option SendError). r.1) sent,
      ap (λ (t : Server). get_elem? t.users q) after
          ∙ ap (λ (us : List User). get_elem? us q) (sym ws_only.same_users)
          ∙ get-deliver_private_tcp saved from to content q,
      ap (λ (t : Server). get_elem? t.clients c) after
          ∙ get-deliver_private_ws env tcp from to content avatar c
          ∙ rw (← tcp_only.same_clients, ← tcp_only.same_conns) refl,
      ap (λ (t : Server). t.db) after ∙ sym ws_only.same_db ∙ sym tcp_only.same_db,
    )
