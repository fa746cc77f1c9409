-- ===== src/Session/Store.antt =====
-- internal/server/bus.go: the interface `SessionStore`, and what its callers may rely on, whichever
-- store stands behind it. The token of `Create` and the time of a call are arguments.
pub mod Standing
pub mod Memory
use im_system.Common.{
  ℕ, ◌+◌, ◌≤◌, ◌<◌, ◌≡◌, ◌⊎◌, Bool, true, not, Option, none, some, List, [], ◌∷◌, Text, text_eq,
}
use im_system.Session.Refinement.{Op, creates, looks_up, renames, deletes, sweeps}

pub record SessionStore (S : Type 0) : Type 0 where
  pub create : S → Option Text → ℕ → Text → ℕ → S × Option Text
  pub get_username : S → ℕ → Text → S × Option Text
  pub update_username : S → ℕ → Text → Text → S
  pub delete : S → Text → S
  pub cleanup : S → ℕ → S

-- What a store has for a token: the name, and the time until which it has it, if it ends at all.
abbrev pub Entry : Type 0
Entry = Text × Option ℕ

-- Whether a call is none that writes a token.
unfoldable pub spares : Text → Op → Bool
spares token (creates none username ttl) = true
spares token (creates (some made) username ttl) = not (text_eq made token)
spares token (looks_up asked) = true
spares token (renames renamed username) = not (text_eq renamed token)
spares token (deletes deleted) = not (text_eq deleted token)
spares token sweeps = true

-- An entry that a call did not write: it may be gone if its time was over.
abbrev pub Swept : ℕ → Option Entry → Option Entry → Type 0
Swept now e after =
    (after ≡ e)
    ⊎ ((name : Text) × (until : ℕ) × (e ≡ some (name, some until)) × (until < now) × (after ≡ none))

-- An entry that was renamed: its end has moved by no more than `slack`, and the name may have stayed
-- only where no more than that was left.
abbrev pub Renamed : ℕ → ℕ → Text → Text → ℕ → Option Entry → Type 0
Renamed slack now username name until after =
    ((end : ℕ) × (after ≡ some (username, some end))
      × (until ≤ end + slack)
      × (end ≤ until + slack))
    ⊎ ((after ≡ some (name, some until)) × (until ≤ now + slack))

module _ {S : Type 0} (c : SessionStore S) where
  -- One call: the store after it and what it returns.
  unfoldable pub call : S → ℕ → Op → S × Option Text
  call s now (creates token username ttl) = c.create s token now username ttl
  call s now (looks_up token) = c.get_username s now token
  call s now (renames token username) = (c.update_username s now token username, none)
  call s now (deletes token) = (c.delete s token, none)
  call s now sweeps = (c.cleanup s now, none)

  unfoldable pub calls : S → List (ℕ × Op) → S
  unfolding call
  calls s [] = s
  calls s ((now, op) ∷ ops) = calls (call s now op).0 ops

  pub record SessionLaws (slack : ℕ) : Type 1 where
    pub Ok : S → Type 0
    pub entry : S → Text → Option Entry
    pub call-Ok : (s : S) (now : ℕ) (op : Op) → Ok s → Ok (call s now op).0
    pub created :
        (s : S) (token : Text) (now : ℕ) (username : Text) (ttl : ℕ)
        → 0 < ttl
        → ((c.create s (some token) now username ttl).1 ≡ some token)
          × (entry (c.create s (some token) now username ttl).0 token
              ≡ some (username, some (now + ttl)))
    pub spared :
        (s : S) (now : ℕ) (op : Op) (token : Text)
        → Ok s
        → spares token op ≡ true
        → Swept now (entry s token) (entry (call s now op).0 token)
    pub renamed :
        (s : S) (now : ℕ) (token username name : Text) (until : ℕ)
        → entry s token ≡ some (name, some until)
        → Renamed slack now username name until
            (entry (c.update_username s now token username) token)
    pub renamed_none :
        (s : S) (now : ℕ) (token username : Text)
        → entry s token ≡ none
        → entry (c.update_username s now token username) token ≡ none
    pub before :
        (s : S) (now : ℕ) (token name : Text) (until : ℕ)
        → entry s token ≡ some (name, some until)
        → now < until
        → (c.get_username s now token).1 ≡ some name
    pub over :
        (s : S) (now : ℕ) (token name : Text) (until : ℕ)
        → entry s token ≡ some (name, some until)
        → until < now
        → (c.get_username s now token).1 ≡ none
    pub absent :
        (s : S) (now : ℕ) (token : Text)
        → entry s token ≡ none
        → (c.get_username s now token).1 ≡ none
