-- ===== src/Server/Bus/Tests.antt =====
-- A public message of one server at another, where one user and one WebSocket client are.
use im_system.Common.{
  ℕ, zero, suc, ◌≡◌, refl, true, false, some, [], ◌∷◌, arith, Text, text_eq, text_eq_iff, get_elem?,
  lookup, Distinct, any,
}
use im_system.Text.{bytes}
use im_system.Db.Samples.{ann, bob}
use im_system.Server.{Server, User, WsClient, receive, accept}
use im_system.Server.Presence.Consistent.{open_name}
use im_system.Server.Live.{Live}
use im_system.Sanitize.{sanitize_input_with_limit}
use im_system.Server.Broadcast.{pointers, broadcast_public, ws_public}
use im_system.Server.Bus.{receive_from_bus}
use im_system.Server.Bus.Crossing.{public_note, public_message_crosses}
use im_system.Server.Samples.{idle, idle-Live, at_ten}

abbrev hello : Text
unfolding bytes
hello = bytes "hello"

abbrev ann_here : User
ann_here = record {
  name = ann;
  addr = [];
  queue = [];
  closed = false;
  is_authenticated = true;
  avatar = [];
}

abbrev bob_here : WsClient
bob_here = record { name = bob; avatar = []; remote_ip = []; queue = []; cancelled = false }

abbrev other : Server
unfolding idle
other = record idle {
  users = ann_here ∷ [];
  online_map = (ann, 0) ∷ [];
  clients = bob_here ∷ [];
  ws_conns = (bob, 0) ∷ [];
  server_id = b'b' ∷ [];
}

listed_one :
    (k : Text) (p : ℕ)
    → open_name (get_elem? other.users p) ≡ some k
    → lookup k other.online_map ≡ some p
unfolding lookup other
listed_one k zero h = ground (arith, text_eq_iff ann k)
listed_one k (suc p) h = ground arith

other-Live : Live other
unfolding Distinct lookup other
other-Live = record {
  online_ok = record {
    distinct = (refl, tt);
    named = λ k p h. ground (arith, text_eq_iff ann k);
    listed = listed_one;
  };
  calm = refl;
  db_ok = idle-Live.db_ok;
  sockets_ok = record { keys = (refl, tt); points = λ k c e. ground (arith, text_eq_iff bob k) };
}

-- The user gets the bare text, and the client the frame with the name.
public_message_crosses_example :
    let note = public_note at_ten idle bob hello [] in
    ((broadcast_public at_ten idle bob hello [] false).published ≡ note ∷ [])
    × (receive_from_bus (broadcast_public at_ten idle bob hello [] false) note
        ≡ broadcast_public at_ten idle bob hello [] false)
    × (get_elem? (receive_from_bus other note).users 0 ≡ some (receive hello ann_here))
    × (get_elem? (receive_from_bus other note).clients 0
        ≡ some (accept (ws_public bob [] hello []) bob_here))
unfolding idle other text_eq hello sanitize_input_with_limit any pointers
public_message_crosses_example =
    public_message_crosses at_ten idle other bob hello [] 0 0 idle-Live other-Live refl refl
