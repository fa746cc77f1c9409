-- ===== src/Session/Store/Standing.antt =====
-- internal/server/bus.go: whom a token stands for, in any store that keeps the laws of the interface.
use im_system.Common.{
  ℕ, ◌+◌, ◌≤◌, ◌<◌, ◌≡◌, ◌∙◌, ◌⊎◌, inl, inr, refl, Bool, true, not, Option, none, some, List, [],
  ◌∷◌, arith, ltb, if◌then◌else◌, Text, text_eq, text_eq_iff, Bool-cases,
}
use im_system.Session.Refinement.{Op, creates, looks_up, renames, deletes, sweeps}
use im_system.Session.Store.{SessionStore, SessionLaws, Entry, Swept, Renamed, spares, call, calls}

-- Whether a call neither makes the token anew nor deletes it.
unfoldable pub keeps : Text → Op → Bool
keeps token (creates none username ttl) = true
keeps token (creates (some made) username ttl) = not (text_eq made token)
keeps token (looks_up asked) = true
keeps token (renames renamed username) = true
keeps token (deletes deleted) = not (text_eq deleted token)
keeps token sweeps = true

-- The calls come one after the other, from one time to another, and keep the token.
abbrev pub Within : ℕ → List (ℕ × Op) → ℕ → Text → Type 0
Within from [] later token = from ≤ later
Within from ((now, op) ∷ ops) later token =
    (from ≤ now) × (keeps token op ≡ true) × Within now ops later token

-- The name after a call.
unfoldable pub name_by : Text → Text → Op → Text
name_by token name (creates made username ttl) = name
name_by token name (looks_up asked) = name
name_by token name (renames renamed username) = if text_eq renamed token then username else name
name_by token name (deletes deleted) = name
name_by token name sweeps = name

unfoldable pub name_after : Text → Text → List (ℕ × Op) → Text
unfolding name_by
name_after token name [] = name
name_after token name ((now, op) ∷ ops) = name_after token (name_by token name op) ops

-- By how much a call may move the end of the token.
unfoldable pub drift_by : ℕ → Text → Op → ℕ
drift_by slack token (creates made username ttl) = 0
drift_by slack token (looks_up asked) = 0
drift_by slack token (renames renamed username) = if text_eq renamed token then slack else 0
drift_by slack token (deletes deleted) = 0
drift_by slack token sweeps = 0

unfoldable pub drift : ℕ → Text → List (ℕ × Op) → ℕ
unfolding drift_by
drift slack token [] = 0
drift slack token ((now, op) ∷ ops) = drift_by slack token op + drift slack token ops

-- Either the call spares the token, or it renames it.
spares-or-renames :
    (slack : ℕ) (token name : Text) (op : Op)
    → keeps token op ≡ true
    → ((spares token op ≡ true) × (name_by token name op ≡ name) × (drift_by slack token op ≡ 0))
      ⊎ ((username : Text) × (op ≡ renames token username)
          × (name_by token name op ≡ username)
          × (drift_by slack token op ≡ slack))
unfolding keeps spares name_by drift_by
spares-or-renames slack token name (creates none username ttl) k = inl (refl, refl, refl)
spares-or-renames slack token name (creates (some made) username ttl) k = inl (k, refl, refl)
spares-or-renames slack token name (looks_up asked) k = inl (refl, refl, refl)
spares-or-renames slack token name (renames renamed username) k =
    elim (Bool-cases (text_eq renamed token)) [
      | inl same ↦
          inr (username, rw ((text_eq_iff renamed token).0 same) refl, rw same refl, rw same refl)
      | inr apart ↦ inl (rw apart refl, rw apart refl, rw apart refl)
    ]
spares-or-renames slack token name (deletes deleted) k = inl (k, refl, refl)
spares-or-renames slack token name sweeps k = inl (refl, refl, refl)

Within-le :
    (from : ℕ) (ops : List (ℕ × Op)) (later : ℕ) (token : Text)
    → Within from ops later token
    → from ≤ later
Within-le from [] later token w = w
Within-le from ((now, op) ∷ ops) later token w = ground (arith, Within-le now ops later token w.2)

-- What a call that keeps the token makes of its entry.
abbrev Moved : ℕ → ℕ → ℕ → Text → Text → Option Entry → Type 0
Moved d now until name renamed after =
    ((end : ℕ) × (after ≡ some (renamed, some end)) × (until ≤ end + d) × (end ≤ until + d))
    ⊎ ((until ≤ now + d) × ((after ≡ none) ⊎ (after ≡ some (name, some until))))

Swept-Moved :
    (now until : ℕ) (name : Text) (e after : Option Entry)
    → e ≡ some (name, some until)
    → Swept now e after
    → Moved 0 now until name name after
Swept-Moved now until name e after found (inl kept) =
    inl (until, kept ∙ found, omega arith, omega arith)
Swept-Moved now until name e after found (inr gone) = ground arith

Renamed-Moved :
    (slack now until : ℕ) (username name : Text) (after : Option Entry)
    → Renamed slack now username name until after
    → Moved slack now until name username after
Renamed-Moved slack now until username name after (inl r) = inl r
Renamed-Moved slack now until username name after (inr r) = inr (r.1, inr r.0)

module _ {S : Type 0} (c : SessionStore S) (slack : ℕ) (laws : SessionLaws c slack) where
  call-Moved :
      (s : S) (now : ℕ) (op : Op) (token name : Text) (until : ℕ)
      → laws.Ok s
      → laws.entry s token ≡ some (name, some until)
      → keeps token op ≡ true
      → Moved
          (drift_by slack token op)
          now
          until
          name
          (name_by token name op)
          (laws.entry (call c s now op).0 token)
  unfolding call
  call-Moved s now op token name until good found k =
      elim (spares-or-renames slack token name op k) [
        | inl (spared, same, still) ↦
            rw (same, still)
              (Swept-Moved now until name (laws.entry s token) _ found
                (laws.spared s now op token good spared))
        | inr (username, eq, new, moved) ↦
            rw (new, moved, eq)
              (Renamed-Moved slack now until username name _
                (laws.renamed s now token username name until found))
      ]

  -- Before its time is over, less what the renamings may have moved it, the token stands for the
  -- last name.
  calls-before :
      (s : S) (from : ℕ) (ops : List (ℕ × Op)) (later : ℕ) (token name : Text) (until : ℕ)
      → laws.Ok s
      → laws.entry s token ≡ some (name, some until)
      → Within from ops later token
      → later + drift slack token ops < until
      → (c.get_username (calls c s ops) later token).1 ≡ some (name_after token name ops)
  unfolding calls drift name_after
  calls-before s from [] later token name until good found w left =
      laws.before s later token name until found (omega arith)
  calls-before s from ((now, op) ∷ ops) later token name until good found w left =
      elim (call-Moved s now op token name until good found w.1) [
        | inl (end, moved, low, high) ↦
            calls-before (call c s now op).0 now ops later token (name_by token name op) end
              (laws.call-Ok s now op good) moved w.2 (omega arith)
        | inr (close, rest) ↦ absurd (omega (arith, Within-le now ops later token w.2))
      ]

  call-none :
      (s : S) (now : ℕ) (op : Op) (token : Text)
      → laws.Ok s
      → laws.entry s token ≡ none
      → keeps token op ≡ true
      → laws.entry (call c s now op).0 token ≡ none
  unfolding call
  call-none s now op token good found k = elim (spares-or-renames slack token token op k) [
    | inl (spared, same, still) ↦ elim (laws.spared s now op token good spared) [
      | inl kept ↦ kept ∙ found
      | inr gone ↦ gone.4
    ]
    | inr (username, eq, new, moved) ↦ rw eq (laws.renamed_none s now token username found)
  ]

  calls-none :
      (s : S) (from : ℕ) (ops : List (ℕ × Op)) (later : ℕ) (token : Text)
      → laws.Ok s
      → laws.entry s token ≡ none
      → Within from ops later token
      → (c.get_username (calls c s ops) later token).1 ≡ none
  unfolding calls
  calls-none s from [] later token good found w = laws.absent s later token found
  calls-none s from ((now, op) ∷ ops) later token good found w =
      calls-none (call c s now op).0 now ops later token (laws.call-Ok s now op good)
        (call-none s now op token good found w.1) w.2

  -- After its time and what the renamings may have moved it, the token stands for nobody.
  calls-over :
      (s : S) (from : ℕ) (ops : List (ℕ × Op)) (later : ℕ) (token name : Text) (until : ℕ)
      → laws.Ok s
      → laws.entry s token ≡ some (name, some until)
      → Within from ops later token
      → until + drift slack token ops < later
      → (c.get_username (calls c s ops) later token).1 ≡ none
  unfolding calls drift
  calls-over s from [] later token name until good found w past =
      laws.over s later token name until found (omega arith)
  calls-over s from ((now, op) ∷ ops) later token name until good found w past =
      elim (call-Moved s now op token name until good found w.1) [
        | inl (end, moved, low, high) ↦
            calls-over (call c s now op).0 now ops later token (name_by token name op) end
              (laws.call-Ok s now op good) moved w.2 (omega arith)
        | inr (close, inl gone) ↦
            calls-none (call c s now op).0 now ops later token (laws.call-Ok s now op good) gone w.2
        | inr (close, inr kept) ↦
            calls-over (call c s now op).0 now ops later token name until
              (laws.call-Ok s now op good) kept w.2 (omega arith)
      ]

  -- A token that is made, and neither made anew nor deleted later, stands for the last name it was
  -- given until its time is over, and for nobody afterwards, at a time that is farther from the end
  -- than the renamings may have moved it.
  pub token_stands :
      (s : S) (token : Text) (now : ℕ) (username : Text) (ttl : ℕ) (ops : List (ℕ × Op)) (later : ℕ)
      → laws.Ok s
      → 0 < ttl
      → Within now ops later token
      → (later + drift slack token ops < now + ttl) ⊎ (now + ttl + drift slack token ops < later)
      → let made = (c.create s (some token) now username ttl).0 in
        (c.get_username (calls c made ops) later token).1
        ≡ (if ltb later (now + ttl) then some (name_after token username ops) else none)
  unfolding call
  token_stands s token now username ttl ops later good h w (inl left) =
      calls-before _ now ops later token username (now + ttl)
        (laws.call-Ok s now (creates (some token) username ttl) good)
        (laws.created s token now username ttl h).1 w left
      ∙ ground arith
  token_stands s token now username ttl ops later good h w (inr past) =
      calls-over _ now ops later token username (now + ttl)
        (laws.call-Ok s now (creates (some token) username ttl) good)
        (laws.created s token now username ttl h).1 w past
      ∙ ground arith
