-- ===== src/Session/Redis/Tests.antt =====
-- Runs of the store of internal/server/redis_session.go, over a small Redis that answers `TTL` with
-- the full seconds that are left.
use im_system.Common.{
  ℕ, zero, suc, ◌+◌, ◌-◌, ◌*◌, ◌/◌, ◌≤◌, ◌≡◌, ◌⊎◌, inl, inr, refl, true, Option, none, some, List,
  [], ◌∷◌, arith, ltb, if◌then◌else◌, Text, text_eq, ℤ, pos, negsuc, lookup, insert, without,
  lookup-insert, lookup-without, Assoc, Bool-cases,
}
use im_system.Session.Refinement.{Op, creates, renames, deletes}
use im_system.Session.Store.{calls}
use im_system.Session.Store.Standing.{keeps, drift, name_after}
use im_system.Session.Redis.{
  RedisClient, RedisLaws, create, delete, update_username, get_username, redis_session_store,
}
use im_system.Session.Redis.Laws.{redis_token_stands}

abbrev Keys : Type 0
Keys = Assoc (Text × Option ℕ)

abbrev end_of : ℕ → ℕ → Option ℕ
end_of now zero = none
end_of now (suc t) = some (now + suc t)

unfoldable value_at : ℕ → Option (Text × Option ℕ) → Option Text
value_at now none = none
value_at now (some (value, none)) = some value
value_at now (some (value, some until)) = if ltb until now then none else some value

unfoldable left_at : ℕ → Option (Text × Option ℕ) → ℤ
left_at now none = negsuc 1
left_at now (some (value, none)) = negsuc 0
left_at now (some (value, some until)) =
    if ltb until now then negsuc 1 else pos ((until - now) / 1000 * 1000)

abbrev small_redis : RedisClient Keys
small_redis = record {
  set = λ r now token username ttl. (insert token (username, end_of now ttl) r, true);
  get = λ r now token. value_at now (lookup token r);
  ttl = λ r now token. left_at now (lookup token r);
  del = λ r token. without token r;
}

left_at-some :
    (now until : ℕ) (value : Text)
    → ((seconds : ℕ) × (left_at now (some (value, some until)) ≡ pos (seconds * 1000))
        × (until ≤ now + seconds * 1000 + 1000)
        × (now + seconds * 1000 ≤ until + 1000))
      ⊎ ((left_at now (some (value, some until)) ≡ negsuc 1) × (until ≤ now))
unfolding left_at
left_at-some now until value = elim (Bool-cases (ltb until now)) [
  | inl past ↦ inr (rw past refl, ground arith)
  | inr left ↦ inl ((until - now) / 1000, rw left refl, ground arith, ground arith)
]

small_redis_laws : RedisLaws small_redis 1000
unfolding value_at left_at
small_redis_laws = record {
  key = λ r token. lookup token r;
  set_answers = λ r now token username ttl. refl;
  key-set =
      λ r now token username ttl other. lookup-insert token other (username, end_of now ttl) r;
  key-del = λ r token other. lookup-without token other r;
  get_before = λ r now token username until found h. rw found (ground arith);
  get_over = λ r now token username until found h. rw found (ground arith);
  get_absent = λ r now token found. rw found refl;
  ttl_left = λ r now token username until found. rw found (left_at-some now until username);
  ttl_absent = λ r now token found. rw found refl;
}

abbrev tok : Text
tok = b't' ∷ []

abbrev ann : Text
ann = b'a' ∷ []

abbrev bea : Text
bea = b'b' ∷ []

abbrev later_calls : List (ℕ × Op)
later_calls =
    (1200, creates (some bea) ann 500) ∷ (2500, renames tok bea) ∷ (2600, deletes bea) ∷ []

abbrev made : Keys
made = (create small_redis [] (some tok) 0 ann 10000).0

-- The renaming found 7.5 s left and `TTL` told 7.
renamed_entry :
    calls (redis_session_store small_redis) made later_calls ≡ (tok, (bea, some 9500)) ∷ []
unfolding calls create delete update_username left_at insert without lookup text_eq
renamed_entry = refl

redis_token_stands_example :
    (get_username small_redis (calls (redis_session_store small_redis) made later_calls) 8900 tok).1
    ≡ some bea
unfolding text_eq keeps drift name_after
redis_token_stands_example =
    redis_token_stands small_redis 1000 small_redis_laws [] tok 0 ann 10000 later_calls 8900
      (omega arith) (omega arith, refl, (omega arith, refl, (omega arith, refl, omega arith)))
      (inl (omega arith))
