-- ===== src/Session/Lookup.antt =====
-- internal/server/bus.go: whom a token stands for, before and after each operation of the store.
use im_system.Common.{
  ℕ, ◌+◌, ◌≤◌, ◌≡◌, not, Option, none, some, arith, leb, if◌then◌else◌, Text, text_eq, text_eq_iff,
  lookup, Distinct, lookup-insert, lookup-without, lookup-retain, Option-cases, inl, inr,
}
use im_system.Session.{
  Session, is_expired, MemorySessionStore, create, get_username, update_username, delete, cleanup,
}

-- Who holds a token at a time: the user of a session that has not expired.
abbrev pub live : ℕ → Option Session → Option Text
live now none = none
live now (some sess) = if is_expired now sess then none else some sess.username

abbrev pub holder : MemorySessionStore → ℕ → Text → Option Text
holder store now token = live now (lookup token store)

pub get_username-eq-holder :
    (store : MemorySessionStore) (now : ℕ) (token : Text)
    → (get_username store now token).1 ≡ holder store now token
unfolding get_username
get_username-eq-holder store now token = ground arith

pub holder-get_username :
    (store : MemorySessionStore) (now : ℕ) (token : Text) (later : ℕ) (other : Text)
    → now ≤ later
    → holder (get_username store now token).0 later other ≡ holder store later other
unfolding get_username
holder-get_username store now token later other h =
    ground (arith, lookup-without token other store, text_eq_iff token other)

pub holder-create :
    (store : MemorySessionStore) (token : Text) (now : ℕ) (username : Text) (ttl later : ℕ)
    (other : Text)
    → holder (create store (some token) now username ttl).0 later other ≡ (
        if text_eq token other
        then (if leb later (now + ttl) then some username else none)
        else holder store later other)
unfolding create
holder-create store token now username ttl later other = rw lookup-insert (ground arith)

pub holder-delete :
    (store : MemorySessionStore) (token : Text) (later : ℕ) (other : Text)
    → holder (delete store token) later other
      ≡ (if text_eq token other then none else holder store later other)
unfolding delete
holder-delete store token later other = rw lookup-without (ground arith)

pub holder-cleanup :
    (store : MemorySessionStore) (before later : ℕ) (other : Text)
    → Distinct store
    → before ≤ later
    → holder (cleanup store before) later other ≡ holder store later other
unfolding cleanup
holder-cleanup store before later other d h =
    rw (lookup-retain (λ _ sess. not (is_expired before sess)) other store d) (ground arith)

-- Renaming a session gives its token the new name until the same deadline, if it was not over, and
-- touches no other token.
pub holder-update_username :
    (store : MemorySessionStore) (token username : Text) (later : ℕ) (other : Text)
    → holder (update_username store token username) later other ≡ (
        if text_eq token other
        then elim (holder store later other) [ none ↦ none | some _ ↦ some username ]
        else holder store later other)
unfolding update_username
holder-update_username store token username later other = elim (Option-cases (lookup token store)) [
  | inl absent ↦ rw (absent, update_username) (ground (arith, text_eq_iff token other))
  | inr (sess, present) ↦
      rw (present, update_username, lookup-insert) (ground (arith, text_eq_iff token other))
]
