-- ===== src/Session/Refinement.antt =====
-- internal/server/bus.go: the store beside an ideal one, which forgets nothing and only compares
-- deadlines.
use im_system.Common.{
  ℕ, ◌+◌, ◌≤◌, ◌≡◌, refl, ◌∙◌, Option, none, some, List, [], ◌∷◌, arith, if◌then◌else◌, Text,
  text_eq, text_eq_iff, lookup, Distinct, insert-Distinct, without-Distinct, retain-Distinct,
  Option-cases, inl, inr,
}
use im_system.Session.{
  Session, MemorySessionStore, new_memory_session_store, create, get_username, update_username,
  delete, cleanup,
}
use im_system.Session.Lookup.{
  live, holder, get_username-eq-holder, holder-get_username, holder-create, holder-delete,
  holder-cleanup, holder-update_username,
}

-- The calls of the `SessionStore` interface; the server sweeps with `Cleanup(time.Now())`.
pub data Op : Type 0 where
  creates : Option Text → Text → ℕ → Op
  looks_up : Text → Op
  renames : Text → Text → Op
  deletes : Text → Op
  sweeps : Op

-- One call: the store after it and what it returns.
unfoldable pub step : MemorySessionStore → ℕ → Op → MemorySessionStore × Option Text
step store now (creates token username ttl) = create store token now username ttl
step store now (looks_up token) = get_username store now token
step store now (renames token username) = (update_username store token username, none)
step store now (deletes token) = (delete store token, none)
step store now sweeps = (cleanup store now, none)

unfoldable pub run : MemorySessionStore → List (ℕ × Op) → List (Option Text)
unfolding step
run store [] = []
run store ((now, op) ∷ ops) = let (store', r) = step store now op in r ∷ run store' ops

abbrev pub Ideal : Type 0
Ideal = Text → Option Session

abbrev put : Ideal → Text → Option Session → Ideal
put ideal token v other = if text_eq token other then v else ideal other

abbrev renamed : Option Session → Text → Option Session
renamed none username = none
renamed (some sess) username = some (record sess { username = username })

unfoldable pub ideal_step : Ideal → ℕ → Op → Ideal × Option Text
ideal_step ideal now (creates none username ttl) = (ideal, none)
ideal_step ideal now (creates (some token) username ttl) = (
  put ideal token (some (record { username = username; created_at = now; expires_at = now + ttl })),
  some token,
)
ideal_step ideal now (looks_up token) = (ideal, live now (ideal token))
ideal_step ideal now (renames token username) =
    (put ideal token (renamed (ideal token) username), none)
ideal_step ideal now (deletes token) = (put ideal token none, none)
ideal_step ideal now sweeps = (ideal, none)

unfoldable pub ideal_run : Ideal → List (ℕ × Op) → List (Option Text)
unfolding ideal_step
ideal_run ideal [] = []
ideal_run ideal ((now, op) ∷ ops) =
    let (ideal', r) = ideal_step ideal now op in r ∷ ideal_run ideal' ops

-- From a time on, every token has the same holder in both.
record Agrees (from : ℕ) (store : MemorySessionStore) (ideal : Ideal) : Type 0 where
  distinct : Distinct store
  same :
      (later : ℕ) (other : Text)
      → from ≤ later
      → holder store later other ≡ live later (ideal other)

-- The clock does not run back.
abbrev pub Ordered : ℕ → List (ℕ × Op) → Type 0
Ordered from [] = Unit
Ordered from ((now, op) ∷ ops) = (from ≤ now) × Ordered now ops

pub get_username-Distinct :
    (store : MemorySessionStore) (now : ℕ) (token : Text)
    → Distinct store
    → Distinct (get_username store now token).0
unfolding get_username
get_username-Distinct store now token d = ground (arith, without-Distinct token store d)

pub update_username-Distinct :
    (store : MemorySessionStore) (token username : Text)
    → Distinct store
    → Distinct (update_username store token username)
unfolding update_username
update_username-Distinct store token username d = elim (Option-cases (lookup token store)) [
  | inl absent ↦ rw (absent, update_username) d
  | inr (sess, present) ↦ rw (present, update_username) (insert-Distinct token _ store d)
]

step-Agrees :
    (from now : ℕ) (store : MemorySessionStore) (ideal : Ideal) (op : Op)
    → Agrees from store ideal
    → from ≤ now
    → Agrees now (step store now op).0 (ideal_step ideal now op).0
unfolding step ideal_step
step-Agrees from now store ideal (creates none username ttl) a h = record {
  distinct = unfold create in a.distinct;
  same = λ later other p. unfold create in a.same later other (omega arith);
}
step-Agrees from now store ideal (creates (some token) username ttl) a h = record {
  distinct = unfold create in insert-Distinct token _ store a.distinct;
  same = λ later other p. rw holder-create (ground (arith, a.same later other));
}
step-Agrees from now store ideal (looks_up token) a h = record {
  distinct = get_username-Distinct store now token a.distinct;
  same = λ later other p.
      holder-get_username store now token later other p ∙ a.same later other (omega arith);
}
step-Agrees from now store ideal (renames token username) a h = record {
  distinct = update_username-Distinct store token username a.distinct;
  same = λ later other p.
      rw holder-update_username (ground (arith, a.same later other, text_eq_iff token other));
}
step-Agrees from now store ideal (deletes token) a h = record {
  distinct = unfold delete in without-Distinct token store a.distinct;
  same = λ later other p. rw holder-delete (ground (arith, a.same later other));
}
step-Agrees from now store ideal sweeps a h = record {
  distinct = unfold cleanup in retain-Distinct _ store a.distinct;
  same = λ later other p.
      holder-cleanup store now later other a.distinct p ∙ a.same later other (omega arith);
}

step-eq-ideal :
    (from now : ℕ) (store : MemorySessionStore) (ideal : Ideal) (op : Op)
    → Agrees from store ideal
    → from ≤ now
    → (step store now op).1 ≡ (ideal_step ideal now op).1
unfolding step ideal_step
step-eq-ideal from now store ideal (creates none username ttl) a h = unfold create in refl
step-eq-ideal from now store ideal (creates (some token) username ttl) a h = unfold create in refl
step-eq-ideal from now store ideal (looks_up token) a h =
    get_username-eq-holder store now token ∙ a.same now token h
step-eq-ideal from now store ideal _ a h = refl

run-eq-ideal :
    (from : ℕ) (store : MemorySessionStore) (ideal : Ideal) (ops : List (ℕ × Op))
    → Agrees from store ideal
    → Ordered from ops
    → run store ops ≡ ideal_run ideal ops
unfolding run ideal_run
run-eq-ideal from store ideal [] a h = refl
run-eq-ideal from store ideal ((now, op) ∷ ops) a h = cc (
  step-eq-ideal from now store ideal op a h.0,
  run-eq-ideal now (step store now op).0 (ideal_step ideal now op).0 ops
      (step-Agrees from now store ideal op a h.0) h.1,
)

abbrev pub empty_ideal : Ideal
empty_ideal token = none

-- Whatever is called, in whatever order, at times that do not run back, the store starting empty
-- answers as the ideal store does, in which a session ends with the deadline it was made with: neither a
-- lookup nor a renaming moves it.
pub run_refines_ideal :
    (from : ℕ) (ops : List (ℕ × Op))
    → Ordered from ops
    → run new_memory_session_store ops ≡ ideal_run empty_ideal ops
unfolding new_memory_session_store Distinct lookup
run_refines_ideal from ops h =
    run-eq-ideal from new_memory_session_store empty_ideal ops
      (record { distinct = tt; same = λ later other p. refl }) h
