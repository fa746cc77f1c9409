-- ===== src/Session/Redis.antt =====
-- internal/server/redis_session.go: `RedisSessionStore`. The client of the Redis library is an
-- argument, as the commands of it that the store sends; `now` is the time at which Redis receives
-- them, in milliseconds, a duration is a number of the same unit, and the `Duration` that `TTL`
-- answers with is -1 for a key that has no end and -2 for none. The token of `Create` is an
-- argument, as for the store in memory.
pub mod Laws
mod Tests
use im_system.Common.{
  ℕ, zero, suc, ◌+◌, ◌*◌, ◌≤◌, ◌<◌, ◌≡◌, ◌⊎◌, Bool, true, Option, none, some, if◌then◌else◌, Text,
  text_eq, ℤ, pos, negsuc,
}
use im_system.Session.Store.{SessionStore, Entry}

pub record RedisClient (R : Type 0) : Type 0 where
  -- `Set`: the database after it, and whether it answered without an error.
  pub set : R → ℕ → Text → Text → ℕ → R × Bool
  pub get : R → ℕ → Text → Option Text
  pub ttl : R → ℕ → Text → ℤ
  pub del : R → Text → R

module _ {R : Type 0} (client : RedisClient R) where
  unfoldable pub create : R → Option Text → ℕ → Text → ℕ → R × Option Text
  create r none now username ttl = (r, none)
  create r (some token) now username ttl =
      let (r', set) = client.set r now token username ttl in
      if set then (r', some token) else (r', none)

  unfoldable pub get_username : R → ℕ → Text → R × Option Text
  get_username r now token = elim (client.get r now token) [
    | none ↦ (r, none)
    | some val ↦ (r, some val)
  ]

  -- The part of `UpdateUsername` that follows the answer of `TTL`.
  unfoldable pub set_for : R → ℕ → Text → Text → ℤ → R
  set_for r now token username (pos zero) = r
  set_for r now token username (pos (suc t)) = (client.set r now token username (suc t)).0
  set_for r now token username (negsuc zero) = (client.set r now token username 0).0
  set_for r now token username (negsuc (suc t)) = r

  unfoldable pub update_username : R → ℕ → Text → Text → R
  unfolding set_for
  update_username r now token username = set_for r now token username (client.ttl r now token)

  unfoldable pub delete : R → Text → R
  delete r token = client.del r token

  -- Redis removes what is over by itself.
  unfoldable pub cleanup : R → ℕ → R
  cleanup r expired_before = r

  abbrev pub redis_session_store : SessionStore R
  redis_session_store = record {
    create = create;
    get_username = get_username;
    update_username = update_username;
    delete = delete;
    cleanup = cleanup;
  }

  -- What Redis documents of the four commands, where it answers: what a key holds, that it has an end
  -- only if `SET` was given one, that a key past its end is not there, and that `TTL` tells what is
  -- left in whole seconds. What it tells at the end itself is left open.
  pub record RedisLaws (second : ℕ) : Type 0 where
    pub key : R → Text → Option Entry
    pub set_answers :
        (r : R) (now : ℕ) (token username : Text) (ttl : ℕ)
        → (client.set r now token username ttl).1 ≡ true
    pub key-set :
        (r : R) (now : ℕ) (token username : Text) (ttl : ℕ) (other : Text)
        → key (client.set r now token username ttl).0 other ≡ (
            if text_eq token other
            then some (username, elim ttl [ zero ↦ none | suc t ↦ some (now + suc t) ])
            else key r other)
    pub key-del :
        (r : R) (token other : Text)
        → key (client.del r token) other ≡ (if text_eq token other then none else key r other)
    pub get_before :
        (r : R) (now : ℕ) (token username : Text) (until : ℕ)
        → key r token ≡ some (username, some until)
        → now < until
        → client.get r now token ≡ some username
    pub get_over :
        (r : R) (now : ℕ) (token username : Text) (until : ℕ)
        → key r token ≡ some (username, some until)
        → until < now
        → client.get r now token ≡ none
    pub get_absent :
        (r : R) (now : ℕ) (token : Text) → key r token ≡ none → client.get r now token ≡ none
    pub ttl_left :
        (r : R) (now : ℕ) (token username : Text) (until : ℕ)
        → key r token ≡ some (username, some until)
        → ((seconds : ℕ) × (client.ttl r now token ≡ pos (seconds * second))
            × (until ≤ now + seconds * second + second)
            × (now + seconds * second ≤ until + second))
          ⊎ ((client.ttl r now token ≡ negsuc 1) × (until ≤ now))
    pub ttl_absent :
        (r : R) (now : ℕ) (token : Text) → key r token ≡ none → client.ttl r now token ≡ negsuc 1
