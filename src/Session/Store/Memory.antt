-- ===== src/Session/Store/Memory.antt =====
-- internal/server/bus.go: the store in memory keeps the laws of the interface exactly.
use im_system.Common.{
  ℕ, ◌+◌, ◌<◌, ◌≡◌, inl, inr, refl, true, Option, none, some, List, arith, if◌then◌else◌, Text,
  text_eq, text_eq_iff, text_eq_refl, lookup, Distinct, insert-Distinct, without-Distinct,
  retain-Distinct, lookup-insert, lookup-without, lookup-retain, Option-cases, Bool-cases, ltb, ◌∙◌,
  ◌≢◌, [], ◌∷◌,
}
use im_system.Session.{
  Session, MemorySessionStore, is_expired, create, get_username, update_username, delete, cleanup,
}
use im_system.Session.Lookup.{get_username-eq-holder}
use im_system.Session.Refinement.{
  Op, creates, looks_up, renames, deletes, sweeps, get_username-Distinct, update_username-Distinct,
}
use im_system.Session.Store.{SessionStore, SessionLaws, Entry, Swept, spares, call, calls}
use im_system.Session.Store.Standing.{Within, name_after, drift_by, drift, token_stands}

abbrev pub memory_store : SessionStore MemorySessionStore
memory_store = record {
  create = create;
  get_username = get_username;
  update_username = λ store now token username. update_username store token username;
  delete = delete;
  cleanup = cleanup;
}

abbrev entry_of : Option Session → Option Entry
entry_of none = none
entry_of (some sess) = some (sess.username, some sess.expires_at)

abbrev entry : MemorySessionStore → Text → Option Entry
entry store token = entry_of (lookup token store)

call-Distinct :
    (store : MemorySessionStore) (now : ℕ) (op : Op)
    → Distinct store
    → Distinct (call memory_store store now op).0
unfolding call
call-Distinct store now (creates none username ttl) d = unfold create in d
call-Distinct store now (creates (some token) username ttl) d =
    unfold create in insert-Distinct token _ store d
call-Distinct store now (looks_up token) d = get_username-Distinct store now token d
call-Distinct store now (renames token username) d = update_username-Distinct store token username d
call-Distinct store now (deletes token) d = unfold delete in without-Distinct token store d
call-Distinct store now sweeps d = unfold cleanup in retain-Distinct _ store d

entry-get_username :
    (store : MemorySessionStore) (now : ℕ) (asked token : Text)
    → Swept now (entry store token) (entry (get_username store now asked).0 token)
unfolding get_username
entry-get_username store now asked token = elim (Option-cases (lookup asked store)) [
  | inl absent ↦ inl (rw (absent, get_username) refl)
  | inr (sess, present) ↦ elim (Bool-cases (is_expired now sess)) [
    | inl past ↦ elim (Bool-cases (text_eq asked token)) [
      | inl same ↦
          rw (present, get_username, past, lookup-without asked token store, same)
            (inr (
              sess.username,
              sess.expires_at,
              ground (arith, text_eq_iff asked token),
              ground arith,
              refl,
            ))
      | inr apart ↦
          inl (rw (present, get_username, past, lookup-without asked token store, apart) refl)
    ]
    | inr left ↦ inl (rw (present, get_username, left) refl)
  ]
]

entry-update_username :
    (store : MemorySessionStore) (token username other : Text)
    → entry (update_username store token username) other ≡ (
        if text_eq token other
        then elim (entry store other) [ none ↦ none | some (_, until) ↦ some (username, until) ]
        else entry store other)
unfolding update_username
entry-update_username store token username other = elim (Option-cases (lookup token store)) [
  | inl absent ↦ rw (absent, update_username) (ground (arith, text_eq_iff token other))
  | inr (sess, present) ↦
      rw (present, update_username, lookup-insert) (ground (arith, text_eq_iff token other))
]

entry-spared :
    (store : MemorySessionStore) (now : ℕ) (op : Op) (token : Text)
    → Distinct store
    → spares token op ≡ true
    → Swept now (entry store token) (entry (call memory_store store now op).0 token)
unfolding call spares
entry-spared store now (creates none username ttl) token d h = unfold create in inl refl
entry-spared store now (creates (some made) username ttl) token d h =
    unfold create in inl (rw (lookup-insert made token _ store) (ground arith))
entry-spared store now (looks_up asked) token d h = entry-get_username store now asked token
entry-spared store now (renames renamed username) token d h =
    inl (entry-update_username store renamed username token ∙ ground arith)
entry-spared store now (deletes deleted) token d h =
    unfold delete in inl (rw (lookup-without deleted token store) (ground arith))
entry-spared store now sweeps token d h =
    unfold cleanup in
    elim (Option-cases (lookup token store)) [
      | inl absent ↦ inl (rw (lookup-retain _ token store d, absent) refl)
      | inr (sess, present) ↦
          rw (lookup-retain _ token store d, present)
            (elim (Bool-cases (is_expired now sess)) [
              | inl past ↦ inr (sess.username, sess.expires_at, refl, ground arith, rw past refl)
              | inr left ↦ inl (rw left refl)
            ])
    ]

entry-update_own :
    (store : MemorySessionStore) (token username name : Text) (until : ℕ)
    → entry store token ≡ some (name, some until)
    → entry (update_username store token username) token ≡ some (username, some until)
entry-update_own store token username name until found =
    entry-update_username store token username token ∙ ground (arith, text_eq_refl token)

entry-update_none :
    (store : MemorySessionStore) (token username : Text)
    → entry store token ≡ none
    → entry (update_username store token username) token ≡ none
entry-update_none store token username found =
    entry-update_username store token username token ∙ ground (arith, text_eq_refl token)

-- Whom the entry of a token names at a time.
abbrev named : ℕ → Option Entry → Option Text
named now none = none
named now (some (name, none)) = some name
named now (some (name, some until)) = if ltb until now then none else some name

get_username-named :
    (store : MemorySessionStore) (now : ℕ) (token : Text)
    → (get_username store now token).1 ≡ named now (entry store token)
get_username-named store now token = get_username-eq-holder store now token ∙ ground arith

get_username-before :
    (store : MemorySessionStore) (now : ℕ) (token name : Text) (until : ℕ)
    → entry store token ≡ some (name, some until)
    → now < until
    → (get_username store now token).1 ≡ some name
get_username-before store now token name until found h =
    get_username-named store now token ∙ rw found (ground arith)

get_username-over :
    (store : MemorySessionStore) (now : ℕ) (token name : Text) (until : ℕ)
    → entry store token ≡ some (name, some until)
    → until < now
    → (get_username store now token).1 ≡ none
get_username-over store now token name until found h =
    get_username-named store now token ∙ rw found (ground arith)

abbrev memory_store_laws : SessionLaws memory_store 0
memory_store_laws = record {
  Ok = Distinct;
  entry = entry;
  call-Ok = call-Distinct;
  created = λ store token now username ttl h.
      unfold create in (refl, rw (lookup-insert token token _ store, text_eq_refl token) refl);
  spared = entry-spared;
  renamed = λ store now token username name until found.
      inl (until, entry-update_own store token username name until found, omega arith, omega arith);
  renamed_none = λ store now token username found. entry-update_none store token username found;
  before = get_username-before;
  over = get_username-over;
  absent = λ store now token found. get_username-named store now token ∙ rw found refl;
}

drift_by-zero : (token : Text) (op : Op) → drift_by 0 token op ≡ 0
unfolding drift_by
drift_by-zero token (renames renamed username) = ground arith
drift_by-zero token _ = refl

drift-zero : (token : Text) (ops : List (ℕ × Op)) → drift 0 token ops ≡ 0
unfolding drift
drift-zero token [] = refl
drift-zero token ((now, op) ∷ ops) = omega (arith, drift_by-zero token op, drift-zero token ops)

-- In memory no renaming moves the end.
pub memory_token_stands :
    (store : MemorySessionStore) (token : Text) (now : ℕ) (username : Text) (ttl : ℕ)
    (ops : List (ℕ × Op)) (later : ℕ)
    → Distinct store
    → 0 < ttl
    → Within now ops later token
    → later ≢ now + ttl
    → let made = (create store (some token) now username ttl).0 in
      (get_username (calls memory_store made ops) later token).1
      ≡ (if ltb later (now + ttl) then some (name_after token username ops) else none)
memory_token_stands store token now username ttl ops later d h w apart =
    token_stands memory_store 0 memory_store_laws store token now username ttl ops later d h w
      (rw drift-zero (omega (arith, apart)))
