-- ===== src/Text/HostPort/RoundTrip.antt =====
-- `net.SplitHostPort` after `net.JoinHostPort`.
use im_system.Common.{
  ℕ, suc, ◌≡◌, refl, ap, true, false, none, some, [], ◌∷◌, ◌++◌, arith, ◌==◌, Text, any, any-append,
  take, drop, length, Bool-cases, inl, inr,
}
use im_system.Text.HostPort.{
  index_byte, last_index_byte, has_byte, in_brackets, split_host_port, join_host_port,
}

last_index-none : (b : ℕ) (t : Text) → has_byte b t ≡ false → last_index_byte b t ≡ none
unfolding last_index_byte any
last_index-none b [] h = refl
last_index-none b (c ∷ t) h = ground (arith, h, last_index-none b t)

last_index-append :
    (b : ℕ) (s t : Text) → has_byte b t ≡ false → last_index_byte b (s ++ b ∷ t) ≡ some (length s)
unfolding last_index_byte
last_index-append b [] t h = rw (last_index_byte, last_index-none b t h) (ground arith)
last_index-append b (c ∷ s) t h = rw (last_index_byte, last_index-append b s t h) refl

last_index-past :
    (b a : ℕ) (s t : Text)
    → has_byte b t ≡ false
    → last_index_byte b (s ++ a ∷ b ∷ t) ≡ some (suc (length s))
unfolding last_index_byte
last_index-past b a [] t h = rw (last_index_byte, last_index-append b [] t h) refl
last_index-past b a (c ∷ s) t h = rw (last_index_byte, last_index-past b a s t h) refl

index-append :
    (b : ℕ) (s t : Text) → has_byte b s ≡ false → index_byte b (s ++ b ∷ t) ≡ some (length s)
unfolding index_byte any
index-append b [] t h = ground arith
index-append b (c ∷ s) t h = ground (arith, h, index-append b s t)

take-whole : (s t : Text) → take (length s) (s ++ t) ≡ s
take-whole [] [] = refl
take-whole [] (c ∷ t) = refl
take-whole (c ∷ s) t = ap (λ r. c ∷ r) (take-whole s t)

drop-whole : (c : ℕ) (s t : Text) → drop (suc (length s)) (s ++ c ∷ t) ≡ t
drop-whole c [] t = refl
drop-whole c (a ∷ s) t = drop-whole c s t

drop-past : (a c : ℕ) (s t : Text) → drop (suc (suc (length s))) (s ++ a ∷ c ∷ t) ≡ t
drop-past a c [] t = refl
drop-past a c (b ∷ s) t = drop-past a c s t

module _ (host port : Text) (h_open : has_byte b'[' host ≡ false)
    (h_close : has_byte b']' host ≡ false) (p_colon : has_byte b':' port ≡ false)
    (p_open : has_byte b'[' port ≡ false) (p_close : has_byte b']' port ≡ false) where
  not_in_brackets :
      (host : Text) → has_byte b'[' host ≡ false → in_brackets (host ++ b':' ∷ port) ≡ false
  unfolding in_brackets any
  not_in_brackets [] h = refl
  not_in_brackets (c ∷ s) h = ground (arith, h)

  split_plain :
      has_byte b':' host ≡ false → split_host_port (host ++ b':' ∷ port) ≡ some (host, port)
  unfolding split_host_port any
  split_plain h_colon =
      let last = last_index-append b':' host port p_colon in
      let no_open : has_byte b'[' (host ++ b':' ∷ port) ≡ false =
        ground (arith, any-append (λ c. c == b'[') host (b':' ∷ port), h_open, p_open) in
      let no_close : has_byte b']' (host ++ b':' ∷ port) ≡ false =
        ground (arith, any-append (λ c. c == b']') host (b':' ∷ port), h_close, p_close) in
      rw
        (
          split_host_port,
          last,
          not_in_brackets host h_open,
          take-whole host (b':' ∷ port),
          h_colon,
          no_open,
          no_close,
          drop-whole b':' host port,
        )
        refl

  split_bracketed : split_host_port (b'[' ∷ host ++ b']' ∷ b':' ∷ port) ≡ some (host, port)
  unfolding split_host_port any in_brackets
  split_bracketed =
      let rest = host ++ b']' ∷ b':' ∷ port in
      let addr = b'[' ∷ rest in
      let last : last_index_byte b':' addr ≡ some (suc (suc (length host))) =
        rw (last_index_byte, last_index-past b':' b']' host port p_colon) refl in
      let end : index_byte b']' addr ≡ some (suc (length host)) =
        rw (index_byte, index-append b']' host (b':' ∷ port) h_close) refl in
      let same : (suc (suc (length host)) == suc (suc (length host))) ≡ true = ground arith in
      let no_open : has_byte b'[' rest ≡ false =
        ground (arith, any-append (λ c. c == b'[') host (b']' ∷ b':' ∷ port), h_open, p_open) in
      let no_close : has_byte b']' (drop (suc (length host)) rest) ≡ false =
        rw (drop-whole b']' host (b':' ∷ port)) p_close in
      rw
        (
          split_host_port,
          last,
          end,
          same,
          no_open,
          no_close,
          take-whole host (b']' ∷ b':' ∷ port),
          drop-past b']' b':' host port,
        )
        refl

  -- An address that was joined is split into its host and its port, where the host has no brackets
  -- and the port neither brackets nor a colon.
  pub split-join_host_port : split_host_port (join_host_port host port) ≡ some (host, port)
  unfolding join_host_port
  split-join_host_port = elim (Bool-cases (has_byte b':' host)) [
    | inl colon ↦ rw (join_host_port, colon) split_bracketed
    | inr plain ↦ rw (join_host_port, plain) (split_plain plain)
  ]
