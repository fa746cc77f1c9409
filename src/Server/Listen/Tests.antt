-- ===== src/Server/Listen/Tests.antt =====
-- The port 8888 is taken.
use im_system.Text.HostPort.{split_host_port}
use im_system.Common.{
  ◌+◌, ◌≤◌, ◌<◌, ◌≡◌, ◌↔◌, refl, arith, Option, none, some, Text, text_eq, if◌then◌else◌, any,
}
use im_system.Text.{bytes}
use im_system.Server.Listen.{bound, listen_with_fallback, start_tcp, address, scan_port}
use im_system.Server.Listen.Fallback.{FirstFree, listen_with_fallback-FirstFree, start_tcp_port}

abbrev one_taken : Text → Option Text
one_taken addr =
    if text_eq addr (bytes "127.0.0.1:8888")
    then some (bytes "listen tcp 127.0.0.1:8888: bind: address already in use")
    else none

listen_with_fallback-FirstFree_example :
    (listen_with_fallback one_taken (bytes "127.0.0.1:8888") 20 ≡ bound (bytes "127.0.0.1:8889"))
    ↔ FirstFree one_taken (bytes "127.0.0.1") 8888 20 (bytes "127.0.0.1:8889")
unfolding split_host_port bytes scan_port
listen_with_fallback-FirstFree_example =
    listen_with_fallback-FirstFree one_taken (bytes "127.0.0.1:8888") (bytes "127.0.0.1")
      (bytes "8888") 8887 20 (bytes "127.0.0.1:8889") refl refl

start_tcp_port_example :
    (bytes "127.0.0.1:8889"
      ≡ address (bytes "127.0.0.1") (start_tcp one_taken (bytes "127.0.0.1") 8888).1)
    × (one_taken (bytes "127.0.0.1:8889") ≡ none)
    × (8888 ≤ (start_tcp one_taken (bytes "127.0.0.1") 8888).1)
    × ((start_tcp one_taken (bytes "127.0.0.1") 8888).1 < 8888 + 20)
unfolding any bytes start_tcp text_eq
start_tcp_port_example =
    start_tcp_port one_taken (bytes "127.0.0.1") 8888 refl refl refl (omega arith) (omega arith)
      (bytes "127.0.0.1:8889") refl
