-- ===== src/Session/Redis/Laws.antt =====
-- internal/server/redis_session.go: the store keeps the laws of the interface, up to a second for
-- each renaming.
use im_system.Common.{
  ℕ, zero, suc, ◌+◌, ◌*◌, ◌≤◌, ◌<◌, ◌≡◌, ◌⊎◌, inl, inr, refl, ◌∙◌, ltb, true, not, none, some, List,
  arith, if◌then◌else◌, Text, text_eq, text_eq_refl, ℤ, pos, negsuc,
}
use im_system.Session.Refinement.{Op, creates, looks_up, renames, deletes, sweeps}
use im_system.Session.Store.{SessionLaws, Renamed, spares, call, calls}
use im_system.Session.Store.Standing.{Within, name_after, drift, token_stands}
use im_system.Session.Redis.{
  RedisClient, RedisLaws, create, get_username, set_for, update_username, delete, cleanup,
  redis_session_store,
}

module _ {R : Type 0} (client : RedisClient R) (second : ℕ) (laws : RedisLaws client second) where
  key-create :
      (r : R) (token : Text) (now : ℕ) (username : Text) (ttl : ℕ)
      → 0 < ttl
      → ((create client r (some token) now username ttl).1 ≡ some token)
        × (laws.key (create client r (some token) now username ttl).0 token
            ≡ some (username, some (now + ttl)))
  unfolding create
  key-create r token now username zero h = absurd (omega (arith, h))
  key-create r token now username (suc t) h =
      rw (laws.set_answers r now token username (suc t))
        (refl, rw (laws.key-set r now token username (suc t) token, text_eq_refl token) refl)

  set_for-apart :
      (r : R) (now : ℕ) (token username : Text) (left : ℤ) (other : Text)
      → not (text_eq token other) ≡ true
      → laws.key (set_for client r now token username left) other ≡ laws.key r other
  unfolding set_for
  set_for-apart r now token username (pos zero) other h = refl
  set_for-apart r now token username (pos (suc t)) other h =
      ground (arith, laws.key-set r now token username (suc t) other)
  set_for-apart r now token username (negsuc zero) other h =
      ground (arith, laws.key-set r now token username 0 other)
  set_for-apart r now token username (negsuc (suc t)) other h = refl

  set_for-Renamed :
      (r : R) (now : ℕ) (token username name : Text) (until left : ℕ)
      → laws.key r token ≡ some (name, some until)
      → until ≤ now + left + second
      → now + left ≤ until + second
      → Renamed second now username name until
          (laws.key (set_for client r now token username (pos left)) token)
  unfolding set_for
  set_for-Renamed r now token username name until zero found low high =
      inr (found, omega (arith, low))
  set_for-Renamed r now token username name until (suc t) found low high =
      rw (laws.key-set r now token username (suc t) token, text_eq_refl token)
        (inl (now + suc t, refl, low, high))

  key-spared :
      (r : R) (now : ℕ) (op : Op) (token : Text)
      → spares token op ≡ true
      → laws.key (call (redis_session_store client) r now op).0 token ≡ laws.key r token
  unfolding call spares
  key-spared r now (creates none username ttl) token h = unfold create in refl
  key-spared r now (creates (some made) username ttl) token h =
      unfold create in ground (arith, laws.key-set r now made username ttl token)
  key-spared r now (looks_up asked) token h = unfold get_username in ground (arith)
  key-spared r now (renames renamed username) token h =
      unfold update_username in set_for-apart r now renamed username _ token h
  key-spared r now (deletes deleted) token h =
      unfold delete in ground (arith, laws.key-del r deleted token)
  key-spared r now sweeps token h = unfold cleanup in refl

  key-update_username :
      (r : R) (now : ℕ) (token username name : Text) (until : ℕ)
      → laws.key r token ≡ some (name, some until)
      → Renamed second now username name until
          (laws.key (update_username client r now token username) token)
  unfolding update_username
  key-update_username r now token username name until found =
      elim (laws.ttl_left r now token name until found) [
        | inl (seconds, told, low, high) ↦
            rw told
              (set_for-Renamed r now token username name until (seconds * second) found low high)
        | inr (gone, past) ↦ rw gone (unfold set_for in inr (found, omega (arith, past)))
      ]

  key-update_username_none :
      (r : R) (now : ℕ) (token username : Text)
      → laws.key r token ≡ none
      → laws.key (update_username client r now token username) token ≡ none
  unfolding update_username set_for
  key-update_username_none r now token username found = rw (laws.ttl_absent r now token found) found

  get_username-get :
      (r : R) (now : ℕ) (token : Text)
      → (get_username client r now token).1 ≡ client.get r now token
  unfolding get_username
  get_username-get r now token = ground arith

  abbrev redis_store_laws : SessionLaws (redis_session_store client) second
  redis_store_laws = record {
    Ok = λ r. Unit;
    entry = laws.key;
    call-Ok = λ r now op good. tt;
    created = key-create;
    spared = λ r now op token good h. inl (key-spared r now op token h);
    renamed = key-update_username;
    renamed_none = key-update_username_none;
    before = λ r now token name until found h.
        get_username-get r now token ∙ laws.get_before r now token name until found h;
    over = λ r now token name until found h.
        get_username-get r now token ∙ laws.get_over r now token name until found h;
    absent = λ r now token found. get_username-get r now token ∙ laws.get_absent r now token found;
  }

  -- A session that was made in Redis, and whose token is not made anew nor deleted by any later call:
  -- until its time is over the token stands for the last name it was given, and after that for
  -- nobody, whatever else is called, if the time asked for is farther from the end than a second for
  -- each renaming of the token. A lookup does not move the end.
  pub redis_token_stands :
      (r : R) (token : Text) (now : ℕ) (username : Text) (ttl : ℕ) (ops : List (ℕ × Op)) (later : ℕ)
      → 0 < ttl
      → Within now ops later token
      → (later + drift second token ops < now + ttl) ⊎ (now + ttl + drift second token ops < later)
      → let made = (create client r (some token) now username ttl).0 in
        let kept = calls (redis_session_store client) made ops in
        (get_username client kept later token).1
        ≡ (if ltb later (now + ttl) then some (name_after token username ops) else none)
  redis_token_stands r token now username ttl ops later h w apart =
      token_stands (redis_session_store client) second redis_store_laws r token now username ttl ops
        later tt h w apart
