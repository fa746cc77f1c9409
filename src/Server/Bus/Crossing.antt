-- ===== src/Server/Bus/Crossing.antt =====
-- internal/server/server.go: a public message that one server broadcasts, at the servers that share
-- its bus.
use im_system.Common.{
  ℕ, ◌≡◌, refl, sym, ap, ◌∙◌, true, false, [], ◌∷◌, ◌++◌, if◌then◌else◌, get_elem?, Text, text_eq,
  text_eq_refl,
}
use im_system.Text.{bytes}
use im_system.Sanitize.{sanitize_input_with_limit}
use im_system.Server.{WsOutgoing, BusMessage, Server, Env, receive, accept}
use im_system.Server.Objects.{applied}
use im_system.Server.Live.{Live}
use im_system.Server.Broadcast.{
  fanout_tcp, write_all, pointers, publish, broadcast_public, save_public, bus_message, ws_public,
}
use im_system.Server.Broadcast.Fanout.{mem}
use im_system.Server.Broadcast.Written.{get-write_all, write_all_rest}
use im_system.Server.Presence.Consistent.{OnlineOk, OnlineOk-same, fanout_tcp_exact}
use im_system.Server.Presence.Sockets.{SocketsOk-same}
use im_system.Server.Bus.{deliver_bus_message, receive_from_bus}

-- What the bus is given for a public message.
abbrev pub public_note : Env → Server → Text → Text → Text → BusMessage
public_note env a name raw avatar =
    record (bus_message (bytes "public") name avatar
      (sanitize_input_with_limit raw a.max_msg_length) env.label) { origin_id = a.server_id }

-- What a server spreads among its own changes nothing of its bus.
record SameBus (s t : Server) : Type 0 where
  same_has : t.has_bus ≡ s.has_bus
  same_id : t.server_id ≡ s.server_id
  same_published : t.published ≡ s.published

spread-SameBus :
    (s : Server) (line : Text) (out : WsOutgoing)
    → OnlineOk s
    → SameBus s (write_all (fanout_tcp s line) out)
spread-SameBus s line out v =
    let written = write_all_rest (fanout_tcp s line) out in
    let fanned = (fanout_tcp_exact s line 0 v).1 in
    record {
      same_has = ap (λ (t : Server). t.has_bus) written ∙ ap (λ (t : Server). t.has_bus) fanned;
      same_id = ap (λ (t : Server). t.server_id) written ∙ ap (λ (t : Server). t.server_id) fanned;
      same_published =
          ap (λ (t : Server). t.published) written ∙ ap (λ (t : Server). t.published) fanned;
    }

published-publish :
    (s : Server) (msg : BusMessage)
    → s.has_bus ≡ true
    → ((publish s msg).published ≡ s.published ++ record msg { origin_id = s.server_id } ∷ [])
      × ((publish s msg).server_id ≡ s.server_id)
unfolding publish
published-publish s msg h = (rw h refl, rw h refl)

published_by :
    (env : Env) (a : Server) (name raw avatar : Text)
    → OnlineOk a
    → a.has_bus ≡ true
    → ((broadcast_public env a name raw avatar false).published
        ≡ a.published ++ public_note env a name raw avatar ∷ [])
      × ((broadcast_public env a name raw avatar false).server_id ≡ a.server_id)
unfolding broadcast_public
published_by env a name raw avatar v h =
    let msg = sanitize_input_with_limit raw a.max_msg_length in
    let saved : Server = record a { db = save_public a.db env.now name msg } in
    let same =
      spread-SameBus saved (name ++ (bytes ": " ++ msg)) (ws_public name avatar msg env.label)
        (OnlineOk-same a saved refl (λ p. refl) v) in
    let done =
      published-publish _ (bus_message (bytes "public") name avatar msg env.label)
        (same.same_has ∙ h) in
    (done.0 ∙ rw (same.same_published, same.same_id) refl, done.1 ∙ same.same_id)

delivered_public :
    (b : Server) (msg : BusMessage)
    → msg.kind ≡ bytes "public"
    → deliver_bus_message b msg
      ≡ write_all (fanout_tcp b msg.content) (ws_public msg.from msg.avatar msg.content msg.time)
unfolding deliver_bus_message
delivered_public b msg h = rw (h, text_eq_refl (bytes "public")) refl

-- A line and a frame for all, at the users and the clients of a live server.
spread_exact :
    (b : Server) (line : Text) (out : WsOutgoing) (q c : ℕ)
    → Live b
    → (get_elem? (write_all (fanout_tcp b line) out).users q
        ≡ applied (receive line) (get_elem? b.users q))
      × (get_elem? (write_all (fanout_tcp b line) out).clients c ≡ (
          if mem c (pointers b.ws_conns)
          then applied (accept out) (get_elem? b.clients c)
          else get_elem? b.clients c))
spread_exact b line out q c w =
    let (lines, rest) = fanout_tcp_exact b line q w.online_ok in
    let conns : (fanout_tcp b line).ws_conns ≡ b.ws_conns = ap (λ (t : Server). t.ws_conns) rest in
    let clients : (fanout_tcp b line).clients ≡ b.clients = ap (λ (t : Server). t.clients) rest in
    (
      ap (λ (t : Server). get_elem? t.users q) (write_all_rest (fanout_tcp b line) out) ∙ lines,
      get-write_all (fanout_tcp b line) out c
            (SocketsOk-same (sym conns) (sym clients) w.sockets_ok)
          ∙ rw (conns, clients) refl,
    )

received_elsewhere :
    (b : Server) (msg : BusMessage)
    → text_eq msg.origin_id b.server_id ≡ false
    → msg.kind ≡ bytes "public"
    → receive_from_bus b msg
      ≡ write_all (fanout_tcp b msg.content) (ws_public msg.from msg.avatar msg.content msg.time)
unfolding receive_from_bus
received_elsewhere b msg apart h = rw apart (delivered_public b msg h)

received_at_home :
    (s : Server) (msg : BusMessage) → msg.origin_id ≡ s.server_id → receive_from_bus s msg ≡ s
unfolding receive_from_bus
received_at_home s msg h = rw (h, text_eq_refl s.server_id) refl

-- A public message at a server with a bus goes to the bus once, after what it published before. That
-- server passes it over when it comes back. A live server of another id hands what came, without the
-- name, to every open TCP connection once, and the frame that the first server's own WebSocket clients
-- get to each of its WebSocket clients once, unless a queue is full.
pub public_message_crosses :
    (env : Env) (a b : Server) (name raw avatar : Text) (q c : ℕ)
    → Live a
    → Live b
    → a.has_bus ≡ true
    → text_eq a.server_id b.server_id ≡ false
    → let sent = broadcast_public env a name raw avatar false in
      let note = public_note env a name raw avatar in
      let msg = sanitize_input_with_limit raw a.max_msg_length in
      (sent.published ≡ a.published ++ note ∷ [])
      × (receive_from_bus sent note ≡ sent)
      × (get_elem? (receive_from_bus b note).users q ≡ applied (receive msg) (get_elem? b.users q))
      × (get_elem? (receive_from_bus b note).clients c ≡ (
          if mem c (pointers b.ws_conns)
          then applied (accept (ws_public name avatar msg env.label)) (get_elem? b.clients c)
          else get_elem? b.clients c))
public_message_crosses env a b name raw avatar q c v w h apart =
    let (listed, same_id) = published_by env a name raw avatar v.online_ok h in
    let note = public_note env a name raw avatar in
    let there = received_elsewhere b note apart refl in
    let (lines, frames) =
      spread_exact b note.content (ws_public name avatar note.content env.label) q c w in
    (
      listed,
      received_at_home _ note (sym same_id),
      ap (λ (t : Server). get_elem? t.users q) there ∙ lines,
      ap (λ (t : Server). get_elem? t.clients c) there ∙ frames,
    )
