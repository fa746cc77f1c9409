-- ===== src/Server/Listen.antt =====
-- internal/server/web.go: `listenWithFallback` and `isAddrInUseErr`, and the port that `Start` of
-- server.go keeps. `net.Listen` is a parameter: the text of its error for an address, or `none` where it
-- listens. `Listen` refuses a port above 65535, so that the sums of ports do not overflow.
pub mod Fallback
mod Tests
use im_system.Common.{
  ℕ, zero, suc, ◌+◌, Bool, false, ◌||◌, Option, none, some, [], ◌∷◌, ◌++◌, if◌then◌else◌, Text,
  to_nat, ltb,
}
use im_system.Text.{bytes, contains, to_lower}
use im_system.Text.HostPort.{split_host_port, join_host_port}
use im_system.Text.Atoi.{scan_int}
use im_system.Text.Itoa.{itoa}

pub data ListenError : Type 0 where
  bad_address : ListenError
  refused : Text → ListenError
  exhausted : ℕ → Text → ListenError

pub data Listened : Type 0 where
  bound : Text → Listened
  failed : ListenError → Listened

-- `nil` is `none`.
unfoldable pub is_addr_in_use_err : Option Text → Bool
unfolding contains to_lower bytes
is_addr_in_use_err none = false
is_addr_in_use_err (some e) =
    contains (to_lower e) (bytes "address already in use")
    || contains (to_lower e) (bytes "only one usage")

-- The number of `fmt.Sscanf`; 0 where it reads none. No port below 1 is told from 0.
unfoldable pub scan_port : Text → ℕ
unfolding scan_int
scan_port text = elim (scan_int text) [ none ↦ 0 | some n ↦ to_nat n ]

unfoldable pub address : Text → ℕ → Text
unfolding join_host_port itoa
address host port = join_host_port host (itoa port)

-- `if maxAttempts < 1 { maxAttempts = 1 }`
abbrev pub at_least_one : ℕ → ℕ
at_least_one zero = 1
at_least_one (suc k) = suc k

-- The port of the address that was bound, where it has one that is positive.
unfoldable pub port_after : ℕ → Listened → ℕ
unfolding split_host_port scan_port
port_after port (failed e) = port
port_after port (bound addr) = elim (split_host_port addr) [
  | none ↦ port
  | some (host, port_text) ↦ elim (scan_port port_text) [ zero ↦ port | suc p ↦ suc p ]
]

module _ (listen : Text → Option Text) where
  -- The loop of the attempts that are left; `port` is the one of the next, `last` is `lastErr`.
  unfoldable pub try_ports : ℕ → Text → ℕ → ℕ → Text → Listened
  unfolding address is_addr_in_use_err
  try_ports attempts host port zero last = failed (exhausted attempts last)
  try_ports attempts host port (suc left) last = elim (listen (address host port)) [
    | none ↦ bound (address host port)
    | some e ↦
        let rest = try_ports attempts host (suc port) left e in
        if is_addr_in_use_err (some e) then rest else failed (refused e)
  ]

  unfoldable pub listen_at : Text → Listened
  listen_at addr = elim (listen addr) [ none ↦ bound addr | some e ↦ failed (refused e) ]

  unfoldable pub listen_with_fallback : Text → ℕ → Listened
  unfolding split_host_port scan_port try_ports listen_at
  listen_with_fallback addr max_attempts = elim (split_host_port addr) [
    | none ↦ failed bad_address
    | some (host, port_text) ↦ elim (scan_port port_text) [
      | zero ↦ listen_at addr
      | suc p ↦ try_ports (at_least_one max_attempts) host (suc p) (at_least_one max_attempts) []
    ]
  ]

  -- `Start` without TLS: the listener, and `s.Port` afterwards.
  unfoldable pub start_tcp : Text → ℕ → Listened × ℕ
  unfolding listen_with_fallback itoa port_after
  start_tcp ip port =
      let result = listen_with_fallback (ip ++ b':' ∷ itoa port) 20 in
      (result, port_after port result)
