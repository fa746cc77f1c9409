-- ===== src/Server/Presence.antt =====
-- internal/server: who is online. `Online`, `Offline` and `NewUser` of user.go; `RenameUser`,
-- `RenameWSClient`, `IsNameTaken` and `GetOnlineUsers` of server.go; `AddWSClient` and
-- `RemoveWSClient` of wss.go.
pub mod Consistent
pub mod Moves
pub mod Renames
pub mod Sockets
use im_system.Common.{
  ℕ, Bool, true, false, ◌&&◌, ◌||◌, not, Option, none, some, List, [], ◌∷◌, ◌++◌, ◌==◌,
  if◌then◌else◌, Text, text_eq, Assoc, lookup, insert, without, retain, length, get_elem?, is_some,
  any,
}
use im_system.Server.{User, WsClient, Server, modify}

-- `NewUser`: the object, named by its address.
abbrev pub fresh_user : Text → User
fresh_user addr = record {
  name = addr;
  addr = addr;
  queue = [];
  closed = false;
  is_authenticated = false;
  avatar = [];
}

unfoldable pub new_user : Server → Text → Server × ℕ
new_user s addr = (record s { users = s.users ++ fresh_user addr ∷ [] }, length s.users)

-- The map part of `Online`: the user's other keys go, and the name points to the user.
unfoldable pub put_online : Server → ℕ → Text → Server
put_online s p name = record s {
  online_map =
      insert name p (retain (λ key q. not (q == p && not (text_eq key name))) s.online_map);
}

-- The map part of `Offline`.
unfoldable pub take_offline : Server → ℕ → Server
take_offline s p = record s { online_map = retain (λ _ q. not (q == p)) s.online_map }

-- The last part of `Offline`: the connection and the channel are closed, and the channel is drained.
unfoldable pub close_user : Server → ℕ → Server
unfolding modify
close_user s p = record s { users = modify p (λ u. record u { closed = true; queue = [] }) s.users }

unfoldable pub rename_user : Server → Text → Text → Server × Bool
rename_user s old_name new_name =
    if is_some (lookup new_name s.online_map)
    then (s, false)
    else elim (lookup old_name s.online_map) [
      | none ↦ (s, false)
      | some p ↦ (record s { online_map = insert new_name p (without old_name s.online_map) }, true)
    ]

-- The errors of `RenameWSClient`.
pub data RenameError : Type 0 where
  name_taken no_such_name : RenameError

unfoldable pub rename_ws_client : Server → Text → Text → Server × Option RenameError
unfolding modify
rename_ws_client s old_name new_name =
    if is_some (lookup new_name s.ws_conns)
    then (s, some name_taken)
    else elim (lookup old_name s.ws_conns) [
      | none ↦ (s, some no_such_name)
      | some c ↦ (
        record s {
          ws_conns = insert new_name c (without old_name s.ws_conns);
          clients = modify c (λ w. record w { name = new_name }) s.clients;
        },
        none,
      )
    ]

unfoldable pub is_name_taken : Server → Text → Bool
is_name_taken s name = is_some (lookup name s.online_map) || is_some (lookup name s.ws_conns)

-- The client object is made by the handler; this registers it under its name.
unfoldable pub add_ws_client : Server → WsClient → Server × ℕ
add_ws_client s client = (
  record s {
    clients = s.clients ++ client ∷ [];
    ws_conns = insert client.name (length s.clients) s.ws_conns;
  },
  length s.clients,
)

unfoldable pub remove_ws_client : Server → Text → Server
unfolding modify
remove_ws_client s name = elim (lookup name s.ws_conns) [
  | none ↦ s
  | some c ↦ record s {
    ws_conns = without name s.ws_conns;
    clients = modify c (λ w. record w { cancelled = true }) s.clients;
  }
]

-- A row of `GetOnlineUsers`: the name and the avatar.
abbrev pub OnlineRow : Type 0
OnlineRow = Text × Text

abbrev seen : Text → List OnlineRow → Bool
seen name rows = any (λ (r : OnlineRow). text_eq r.0 name) rows

-- `users = append(users, ...)` unless the name was seen.
abbrev add_row : Text → Text → List OnlineRow → List OnlineRow
add_row name avatar rows = if seen name rows then rows else rows ++ (name, avatar) ∷ []

tcp_rows : List User → Assoc ℕ → List OnlineRow → List OnlineRow
unfolding any
tcp_rows users [] rows = rows
tcp_rows users ((_, p) ∷ m) rows =
    tcp_rows users m
      (elim (get_elem? users p) [ none ↦ rows | some u ↦ add_row u.name u.avatar rows ])

ws_rows : List WsClient → Assoc ℕ → List OnlineRow → List OnlineRow
unfolding any
ws_rows clients [] rows = rows
ws_rows clients ((name, c) ∷ m) rows =
    ws_rows clients m
      (elim (get_elem? clients c) [ none ↦ rows | some w ↦ add_row name w.avatar rows ])

unfoldable pub get_online_users : Server → List OnlineRow
unfolding tcp_rows ws_rows
get_online_users s = ws_rows s.clients s.ws_conns (tcp_rows s.users s.online_map [])
