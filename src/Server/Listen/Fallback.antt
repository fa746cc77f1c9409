-- ===== src/Server/Listen/Fallback.antt =====
-- internal/server/web.go: which address `listenWithFallback` binds.
use im_system.Common.{
  ℕ, zero, suc, ◌+◌, ◌-◌, ◌*◌, ◌^◌, ◌≤◌, ◌<◌, ◌≡◌, ◌↔◌, refl, sym, ap, ◌∙◌, subst, Bool, true,
  false, ◌&&◌, Option, none, some, [], ◌∷◌, ◌++◌, arith, Text, any, and_parts, Bool-cases,
  Option-cases, inl, inr,
}
use im_system.Text.Atoi.{is_digit, digits_from}
use im_system.Text.Itoa.{itoa, digits_from-itoa, scan_int-itoa}
use im_system.Text.HostPort.{has_byte, split_host_port, join_host_port}
use im_system.Text.HostPort.RoundTrip.{split-join_host_port}
use im_system.Server.Listen.{
  bound, is_addr_in_use_err, scan_port, address, try_ports, at_least_one, listen_with_fallback,
  port_after, start_tcp,
}

plus_zero : (n : ℕ) → n ≡ n + 0
plus_zero n = omega arith

plus_suc : (n i : ℕ) → suc n + i ≡ n + suc i
plus_suc n i = omega arith

module _ (listen : Text → Option Text) (host : Text) where
  -- So many ports from the first are in use.
  unfoldable pub all_in_use : ℕ → ℕ → Bool
  all_in_use port zero = true
  all_in_use port (suc i) =
      is_addr_in_use_err (listen (address host port)) && all_in_use (suc port) i

  -- The first of so many ports that is free, all before it being in use.
  abbrev pub FirstFree : ℕ → ℕ → Text → Type 0
  FirstFree port left addr =
      (i : ℕ) × (i < left)
      × (all_in_use port i ≡ true)
      × (addr ≡ address host (port + i))
      × (listen addr ≡ none)

  try_ports_sound :
      (attempts port left : ℕ) (last addr : Text)
      → try_ports listen attempts host port left last ≡ bound addr
      → FirstFree port left addr
  unfolding try_ports all_in_use
  try_ports_sound attempts port zero last addr h = cc
  try_ports_sound attempts port (suc left) last addr h =
      elim (Option-cases (listen (address host port))) [
        | inl free ↦
            let here : address host port ≡ addr = ground (arith, free, h) in
            (
              0,
              omega arith,
              refl,
              sym here ∙ ap (address host) (plus_zero port),
              subst (λ a. listen a ≡ none) here free,
            )
        | inr (e, taken) ↦ elim (Bool-cases (is_addr_in_use_err (some e))) [
          | inl in_use ↦
              let (i, below, used, there, free) =
                try_ports_sound attempts (suc port) left e addr
                  (ground (arith, taken, in_use, h)) in
              (
                suc i,
                omega (arith, below),
                rw (taken, in_use) used,
                there ∙ ap (address host) (plus_suc port i),
                free,
              )
          | inr other ↦ ground (arith, taken, other, h)
        ]
      ]

  try_ports_complete :
      (attempts port left : ℕ) (last : Text) (i : ℕ)
      → i < left
      → all_in_use port i ≡ true
      → listen (address host (port + i)) ≡ none
      → try_ports listen attempts host port left last ≡ bound (address host (port + i))
  unfolding try_ports all_in_use
  try_ports_complete attempts port zero last i below used free = absurd (omega (arith, below))
  try_ports_complete attempts port (suc left) last zero below used free =
      let here = ap (address host) (plus_zero port) in
      rw (try_ports, ap listen here ∙ free) (ap bound here)
  try_ports_complete attempts port (suc left) last (suc i) below used free =
      elim (Option-cases (listen (address host port))) [
        | inl open_port ↦ ground (arith, open_port, used)
        | inr (e, taken) ↦
            let (first, others) =
              and_parts {a = is_addr_in_use_err (some e)} {b = all_in_use (suc port) i} (
                subst
                  (λ (r : Option Text). (is_addr_in_use_err r && all_in_use (suc port) i) ≡ true)
                  taken used) in
            let there = ap (address host) (plus_suc port i) in
            rw (try_ports, taken, first)
              (try_ports_complete attempts (suc port) left e i (omega (arith, below)) others
                  (ap listen there ∙ free)
                ∙ ap bound there)
      ]

-- Where the port is positive, `listenWithFallback` binds an address exactly when it is the first that
-- is free among as many ports from that one on as attempts are allowed, but at least one, all ports
-- before it being in use; so it goes on after no other error, and every failure is one where no such
-- port is there.
pub listen_with_fallback-FirstFree :
    (listen : Text → Option Text) (addr host port_text : Text) (port attempts : ℕ) (found : Text)
    → split_host_port addr ≡ some (host, port_text)
    → scan_port port_text ≡ suc port
    → (listen_with_fallback listen addr attempts ≡ bound found)
      ↔ FirstFree listen host (suc port) (at_least_one attempts) found
unfolding listen_with_fallback
listen_with_fallback-FirstFree listen addr host port_text port attempts found parts number =
    let same : listen_with_fallback listen addr attempts
        ≡ try_ports listen (at_least_one attempts) host (suc port) (at_least_one attempts) [] =
      rw (listen_with_fallback, parts, number) refl in
    (
      λ h.
          try_ports_sound listen host (at_least_one attempts) (suc port) (at_least_one attempts) []
            found (sym same ∙ h),
      λ (i, below, used, there, free).
          same
          ∙ try_ports_complete listen host (at_least_one attempts) (suc port)
              (at_least_one attempts) [] i below used (ap listen (sym there) ∙ free)
          ∙ ap bound (sym there),
    )

digits-plain :
    (s : Text) (m n b : ℕ) → digits_from m s ≡ some n → is_digit b ≡ false → has_byte b s ≡ false
unfolding digits_from any
digits-plain [] m n b h d = refl
digits-plain (c ∷ s) m n b h d = ground (arith, h, d, digits-plain s (10 * m + (c - b'0')) n b)

itoa-plain : (n b : ℕ) → is_digit b ≡ false → has_byte b (itoa n) ≡ false
itoa-plain n b d = digits-plain (itoa n) 0 n b (digits_from-itoa n) d

scan_port-itoa : (n : ℕ) → n < 2 ^ 63 → scan_port (itoa n) ≡ n
unfolding scan_port
scan_port-itoa n h = rw (scan_port, scan_int-itoa n h) refl

module _ (listen : Text → Option Text) (ip : Text) (port : ℕ) (plain : has_byte b':' ip ≡ false)
    (no_open : has_byte b'[' ip ≡ false) (no_close : has_byte b']' ip ≡ false) (fits : 0 < port)
    (small : port < 65536) where
  split-address : (p : ℕ) → split_host_port (address ip p) ≡ some (ip, itoa p)
  unfolding address
  split-address p =
      split-join_host_port ip (itoa p) no_open no_close (itoa-plain p b':' refl)
        (itoa-plain p b'[' refl) (itoa-plain p b']' refl)

  start_address : ip ++ b':' ∷ itoa port ≡ address ip port
  unfolding address join_host_port
  start_address = rw (address, join_host_port, plain) refl

  port_after-address : (p : ℕ) → 0 < p → p < 2 ^ 63 → port_after port (bound (address ip p)) ≡ p
  unfolding port_after
  port_after-address zero h k = absurd (omega (arith, h))
  port_after-address (suc p) h k =
      rw (port_after, split-address (suc p), scan_port-itoa (suc p) k) refl

  -- Where TLS is off, the IP configured has no colon and no bracket, as an IPv4 address or a host name,
  -- and the port configured is from 1 to 65535: a TCP server that starts listens at the address of the
  -- port that it keeps for its own, which is one of the twenty from the port configured on.
  pub start_tcp_port :
      (found : Text)
      → (start_tcp listen ip port).0 ≡ bound found
      → (found ≡ address ip (start_tcp listen ip port).1)
        × (listen found ≡ none)
        × (port ≤ (start_tcp listen ip port).1)
        × ((start_tcp listen ip port).1 < port + 20)
  unfolding start_tcp
  start_tcp_port found h =
      let first : ℕ = port - 1 in
      let number : scan_port (itoa port) ≡ suc first =
        scan_port-itoa port (omega (arith, small)) ∙ omega (arith, fits) in
      let (i, below, used, there, free) =
        (listen_with_fallback-FirstFree listen (ip ++ b':' ∷ itoa port) ip (itoa port) first 20
            found (ap split_host_port start_address ∙ split-address port) number).0
          h in
      let kept : (start_tcp listen ip port).1 ≡ suc first + i =
        ap (port_after port) h
        ∙ ap (λ a. port_after port (bound a)) there
        ∙ port_after-address (suc first + i) (omega arith) (omega (arith, small, below, fits)) in
      (
        there ∙ ap (address ip) (sym kept),
        free,
        omega (arith, kept, fits),
        omega (arith, kept, fits, below),
      )
