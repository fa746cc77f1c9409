-- ===== src/Text/HostPort.antt =====
-- `net.SplitHostPort` and `net.JoinHostPort`. An IPv6 host stands in brackets.
pub mod RoundTrip
use im_system.Common.{
  ℕ, suc, Bool, false, ◌||◌, not, Option, none, some, [], ◌∷◌, ◌++◌, ◌==◌, if◌then◌else◌, Text, any,
  take, drop,
}

-- Where the byte stands first.
unfoldable pub index_byte : ℕ → Text → Option ℕ
index_byte b [] = none
index_byte b (c ∷ s) =
    let rest = index_byte b s in
    if c == b then some 0 else elim rest [ none ↦ none | some i ↦ some (suc i) ]

-- Where it stands last.
unfoldable pub last_index_byte : ℕ → Text → Option ℕ
last_index_byte b [] = none
last_index_byte b (c ∷ s) = elim (last_index_byte b s) [
  | some i ↦ some (suc i)
  | none ↦ if c == b then some 0 else none
]

abbrev pub has_byte : ℕ → Text → Bool
has_byte b s = any (λ c. c == b) s

unfoldable pub in_brackets : Text → Bool
in_brackets [] = false
in_brackets (c ∷ s) = c == b'['

unfoldable pub split_host_port : Text → Option (Text × Text)
unfolding index_byte last_index_byte any in_brackets
split_host_port addr = elim (last_index_byte b':' addr) [
  | none ↦ none
  | some i ↦
      let port = drop (suc i) addr in
      if in_brackets addr
      then elim (index_byte b']' addr) [
        | none ↦ none
        | some end ↦
            if not (suc end == i)
              || has_byte b'[' (drop 1 addr)
              || has_byte b']' (drop (suc end) addr)
            then none
            else some (drop 1 (take end addr), port)
      ]
      else if has_byte b':' (take i addr) || has_byte b'[' addr || has_byte b']' addr
      then none
      else some (take i addr, port)
]

unfoldable pub join_host_port : Text → Text → Text
unfolding any
join_host_port host port =
    if has_byte b':' host then b'[' ∷ host ++ b']' ∷ b':' ∷ port else host ++ b':' ∷ port
