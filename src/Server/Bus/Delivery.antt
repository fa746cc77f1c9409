-- ===== src/Server/Bus/Delivery.antt =====
-- internal/server/server.go: the messages of the bus and the invariant of a running server.
use im_system.Common.{ℕ, List, [], ◌∷◌, Text, text_eq, lookup}
use im_system.Text.{bytes}
use im_system.Server.{WsOutgoing, BusMessage, Server, send_msg}
use im_system.Server.Live.{Live, send_msg-Live, write_ws-Live}
use im_system.Server.Live.Kept.{Live-Named, Live-Kept, fanout_tcp-Kept, write_all-Kept}
use im_system.Server.Broadcast.{fanout_tcp, write_all, pointers, ws_public, ws_group, ws_system}
use im_system.Server.Bus.{
  send_each, bus_group_line, bus_private_ws, bus_private_tcp, deliver_bus_message, receive_from_bus,
}
use im_system.Server.Commands.Replies.{if-Live, option-Live}

send_each-Live : (msg : Text) (ps : List ℕ) (s : Server) → Live s → Live (send_each msg s ps)
unfolding send_each
send_each-Live msg [] s v = v
send_each-Live msg (p ∷ ps) s v = send_each-Live msg ps (send_msg s p msg) (send_msg-Live s p msg v)

bus_private_ws-Live : (s : Server) (msg : BusMessage) → Live s → Live (bus_private_ws s msg)
unfolding bus_private_ws
bus_private_ws-Live s msg v = option-Live (lookup msg.to s.ws_conns) v (λ c. search write_ws-Live)

bus_private_tcp-Live : (s : Server) (msg : BusMessage) → Live s → Live (bus_private_tcp s msg)
unfolding bus_private_tcp
bus_private_tcp-Live s msg v =
    option-Live (lookup msg.to s.online_map) v (λ p. search send_msg-Live)

write_all-Live : (s : Server) (msg : WsOutgoing) → Live s → Live (write_all s msg)
write_all-Live s msg v = Live-Kept (write_all-Kept s msg) v

deliver_bus_message-Live :
    (s : Server) (msg : BusMessage) → Live s → Live (deliver_bus_message s msg)
unfolding deliver_bus_message
deliver_bus_message-Live s msg v =
    let group_msg = ws_group msg.to msg.from msg.avatar msg.content msg.time in
    if-Live (text_eq msg.kind (bytes "public"))
      (write_all-Live (fanout_tcp s msg.content)
        (ws_public msg.from msg.avatar msg.content msg.time)
        (Live-Kept (fanout_tcp-Kept s msg.content (Live-Named s v)) v))
      (if-Live (text_eq msg.kind (bytes "private"))
        (bus_private_tcp-Live (bus_private_ws s msg) msg (bus_private_ws-Live s msg v))
        (if-Live (text_eq msg.kind (bytes "group"))
          (send_each-Live (bus_group_line msg) (pointers (write_all s group_msg).online_map)
            (write_all s group_msg) (write_all-Live s group_msg v))
          (if-Live (text_eq msg.kind (bytes "system")) (write_all-Live s (ws_system msg.content) v)
            v)))

pub receive_from_bus-Live : (s : Server) (msg : BusMessage) → Live s → Live (receive_from_bus s msg)
unfolding receive_from_bus
receive_from_bus-Live s msg v =
    if-Live (text_eq msg.origin_id s.server_id) v (deliver_bus_message-Live s msg v)
