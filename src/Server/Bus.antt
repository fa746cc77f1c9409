-- ===== src/Server/Bus.antt =====
-- internal/server/server.go: what `startBusReceiver` does with a message of the bus. The server's own
-- messages come back and are skipped; the others are delivered by kind.
pub mod Delivery
pub mod Crossing
pub mod Redis
mod Tests
use im_system.Common.{
  ℕ, Bool, true, false, Option, none, some, List, [], ◌∷◌, ◌++◌, if◌then◌else◌, Text, text_eq,
  Assoc, lookup,
}
use im_system.Text.{bytes}
use im_system.Server.{WsOutgoing, BusMessage, Server, send_msg, write_ws}
use im_system.Server.Broadcast.{
  fanout_tcp, write_all, pointers, ws_public, ws_private, ws_group, ws_system,
}

unfoldable pub send_each : Text → Server → List ℕ → Server
unfolding send_msg
send_each msg s [] = s
send_each msg s (p ∷ ps) = send_each msg (send_msg s p msg) ps

abbrev pub bus_private_line : BusMessage → Text
bus_private_line msg = bytes "[priv] " ++ (msg.from ++ (bytes ": " ++ (msg.content ++ bytes "\n")))

abbrev pub bus_group_line : BusMessage → Text
bus_group_line msg =
    bytes "[group "
    ++ (msg.to ++ (bytes "] " ++ (msg.from ++ (bytes ": " ++ (msg.content ++ bytes "\n")))))

-- The part of the "private" case for the WebSocket client, and the part for the TCP user.
unfoldable pub bus_private_ws : Server → BusMessage → Server
unfolding write_ws
bus_private_ws s msg = elim (lookup msg.to s.ws_conns) [
  | none ↦ s
  | some c ↦ write_ws s c (ws_private msg.from msg.to msg.avatar msg.content msg.time)
]

unfoldable pub bus_private_tcp : Server → BusMessage → Server
unfolding send_msg
bus_private_tcp s msg = elim (lookup msg.to s.online_map) [
  | none ↦ s
  | some p ↦ send_msg s p (bus_private_line msg)
]

unfoldable pub deliver_bus_message : Server → BusMessage → Server
unfolding fanout_tcp write_all bus_private_ws bus_private_tcp send_each pointers
deliver_bus_message s msg =
    if text_eq msg.kind (bytes "public")
    then write_all (fanout_tcp s msg.content) (ws_public msg.from msg.avatar msg.content msg.time)
    else if text_eq msg.kind (bytes "private")
    then bus_private_tcp (bus_private_ws s msg) msg
    else if text_eq msg.kind (bytes "group")
    then (let written = write_all s (ws_group msg.to msg.from msg.avatar msg.content msg.time) in
        send_each (bus_group_line msg) written (pointers written.online_map))
    else if text_eq msg.kind (bytes "system")
    then write_all s (ws_system msg.content)
    else s

-- One round of `startBusReceiver` on a message that was received.
unfoldable pub receive_from_bus : Server → BusMessage → Server
unfolding deliver_bus_message
receive_from_bus s msg = if text_eq msg.origin_id s.server_id then s else deliver_bus_message s msg
