-- ===== src/Server/Broadcast/Written.antt =====
-- internal/server: `writeWS` over the clients of a map, one after another.
use im_system.Common.{
  ℕ, ◌≡◌, refl, ◌∙◌, subst, false, List, [], ◌∷◌, ◌==◌, if◌then◌else◌, get_elem?, any, Bool-cases,
  inl, inr, ==_iff,
}
use im_system.Server.{Server, WsOutgoing, accept, write_ws}
use im_system.Server.Objects.{applied, get_elem?-modify}
use im_system.Server.Broadcast.{write_each, write_all, pointers}
use im_system.Server.Broadcast.Fanout.{mem, NoDoubles}
use im_system.Server.Presence.Sockets.{SocketsOk, client_name}
use im_system.Server.Presence.Consistent.{NoDoubles-pointers}

-- Each client of the list gets the message once, the others nothing.
get-write_each :
    (msg : WsOutgoing) (s : Server) (cs : List ℕ) (c : ℕ)
    → NoDoubles cs
    → get_elem? (write_each msg s cs).clients c
      ≡ (if mem c cs then applied (accept msg) (get_elem? s.clients c) else get_elem? s.clients c)
unfolding write_each write_ws any
get-write_each msg s [] c d = refl
get-write_each msg s (p ∷ ps) c d =
    get-write_each msg (write_ws s p msg) ps c d.1
    ∙ rw (get_elem?-modify p c (accept msg) s.clients) (elim (Bool-cases (p == c)) [
      | inr other ↦ rw other refl
      | inl same ↦
          let gone : mem c ps ≡ false = subst (λ i. mem i ps ≡ false) ((==_iff p c).0 same) d.0 in
          rw (same, gone) refl
    ])

write_each_rest :
    (msg : WsOutgoing) (s : Server) (cs : List ℕ)
    → write_each msg s cs ≡ record s { clients = (write_each msg s cs).clients }
unfolding write_each write_ws
write_each_rest msg s [] = refl
write_each_rest msg s (p ∷ ps) = write_each_rest msg (write_ws s p msg) ps

-- Where the map and the clients agree, a message for all is put into the queue of each client of the
-- map once, unless it is full or the client is cancelled.
pub get-write_all :
    (s : Server) (msg : WsOutgoing) (c : ℕ)
    → SocketsOk s.ws_conns s.clients
    → get_elem? (write_all s msg).clients c ≡ (
        if mem c (pointers s.ws_conns)
        then applied (accept msg) (get_elem? s.clients c)
        else get_elem? s.clients c)
unfolding write_all
get-write_all s msg c v =
    get-write_each msg s (pointers s.ws_conns) c
      (NoDoubles-pointers (λ p. client_name (get_elem? s.clients p)) s.ws_conns v.keys v.points)

-- Nothing else of the server changes.
pub write_all_rest :
    (s : Server) (msg : WsOutgoing)
    → write_all s msg ≡ record s { clients = (write_all s msg).clients }
unfolding write_all
write_all_rest s msg = write_each_rest msg s (pointers s.ws_conns)
