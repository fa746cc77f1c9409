-- ===== src/Session.antt =====
-- internal/server/bus.go: `MemorySessionStore`, and `Session` with `IsExpired` of
-- internal/model/model.go. Times are numbers, `now` is what `time.Now()` returns in the call, and a
-- duration is a number of the same unit. The token of `Create` is an argument: the bytes that
-- `crypto/rand` gives, in hexadecimal, or `none` where it fails.
pub mod Lookup
pub mod Refinement
pub mod Redis
pub mod Store
mod Tests
use im_system.Common.{
  ℕ, ◌+◌, Bool, not, Option, none, some, [], ltb, if◌then◌else◌, Text, Assoc, lookup, insert,
  without, retain,
}

pub record Session : Type 0 where
  pub username : Text
  pub created_at : ℕ
  pub expires_at : ℕ

abbrev pub is_expired : ℕ → Session → Bool
is_expired now sess = ltb sess.expires_at now

abbrev pub MemorySessionStore : Type 0
MemorySessionStore = Assoc Session

unfoldable pub new_memory_session_store : MemorySessionStore
new_memory_session_store = []

unfoldable pub create :
    MemorySessionStore → Option Text → ℕ → Text → ℕ → MemorySessionStore × Option Text
create store none now username ttl = (store, none)
create store (some token) now username ttl = (
  insert token (record { username = username; created_at = now; expires_at = now + ttl }) store,
  some token,
)

-- An expired session is deleted by the lookup that meets it.
unfoldable pub get_username : MemorySessionStore → ℕ → Text → MemorySessionStore × Option Text
get_username store now token = elim (lookup token store) [
  | none ↦ (store, none)
  | some sess ↦
      if is_expired now sess then (without token store, none) else (store, some sess.username)
]

unfoldable pub update_username : MemorySessionStore → Text → Text → MemorySessionStore
update_username store token username = elim (lookup token store) [
  | none ↦ store
  | some sess ↦ insert token (record sess { username = username }) store
]

unfoldable pub delete : MemorySessionStore → Text → MemorySessionStore
delete store token = without token store

unfoldable pub cleanup : MemorySessionStore → ℕ → MemorySessionStore
cleanup store expired_before = retain (λ _ sess. not (is_expired expired_before sess)) store
