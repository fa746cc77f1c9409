-- ===== src/Server/Presence/Consistent.antt =====
-- internal/server: the map of online users against the user objects. Every key points to an open
-- user of that name, and every open user stands under its name.
use im_system.Common.{
  ℕ, ◌≡◌, refl, sym, ap, ◌∙◌, true, false, Option, none, some, [], ◌∷◌, arith, ◌==◌, ==_iff,
  if◌then◌else◌, get_elem?, any, Text, text_eq_iff, text_eq_refl, Bool-cases, Option-cases, inl,
  inr, Assoc, lookup, Distinct,
}
use im_system.Server.{User, Server, receive, is_closed}
use im_system.Server.Objects.{applied}
use im_system.Server.Broadcast.{pointers, fanout_tcp}
use im_system.Server.Broadcast.Fanout.{mem, NoDoubles, AllOpen, get-fanout_each, fanout_each_rest}

-- What of a user the map depends on.
abbrev pub open_name : Option User → Option Text
open_name none = none
open_name (some u) = if u.closed then none else some u.name

pub record OnlineOk (s : Server) : Type 0 where
  pub distinct : Distinct s.online_map
  pub named :
      (k : Text) (p : ℕ) → lookup k s.online_map ≡ some p → open_name (get_elem? s.users p) ≡ some k
  pub listed :
      (k : Text) (p : ℕ) → open_name (get_elem? s.users p) ≡ some k → lookup k s.online_map ≡ some p

mem-pointers_of_lookup :
    (m : Assoc ℕ) (k : Text) (p : ℕ) → lookup k m ≡ some p → mem p (pointers m) ≡ true
unfolding lookup pointers any
mem-pointers_of_lookup [] k p h = cc
mem-pointers_of_lookup ((j, q) ∷ m) k p h = ground (arith, mem-pointers_of_lookup m k p)

lookup_of_mem-pointers :
    (m : Assoc ℕ) (p : ℕ)
    → Distinct m
    → mem p (pointers m) ≡ true
    → (k : Text) × (lookup k m ≡ some p)
unfolding lookup pointers any Distinct
lookup_of_mem-pointers [] p d h = cc
lookup_of_mem-pointers ((j, q) ∷ m) p d h = elim (Bool-cases (q == p)) [
  | inl here ↦ (j, rw (text_eq_refl j) (ap some ((==_iff q p).0 here)))
  | inr later ↦
      let (k, e) = lookup_of_mem-pointers m p d.1 (ground (arith, later)) in
      (k, ground (arith, text_eq_iff j k, e, d.0))
]

-- Pointers under distinct keys that the objects themselves name do not repeat.
pub NoDoubles-pointers :
    (f : ℕ → Option Text) (m : Assoc ℕ)
    → Distinct m
    → ((k : Text) (p : ℕ) → lookup k m ≡ some p → f p ≡ some k)
    → NoDoubles (pointers m)
unfolding lookup pointers any Distinct
NoDoubles-pointers f [] d h = tt
NoDoubles-pointers f ((j, q) ∷ m) d h = (
  elim (Bool-cases (mem q (pointers m))) [
    | inr once ↦ once
    | inl twice ↦
        let (k, e) = lookup_of_mem-pointers m q d.1 twice in
        let under_j : f q ≡ some j = h j q (rw (text_eq_refl j)) in
        let same : some k ≡ some j =
          sym (h k q (ground (arith, text_eq_iff j k, e, d.0))) ∙ under_j in
        ground (arith, e, d.0, same)
  ],
  NoDoubles-pointers f m d.1 (λ k p e. h k p (ground (arith, text_eq_iff j k, e, d.0))),
)

open_of_name : (o : Option User) (k : Text) → open_name o ≡ some k → is_closed o ≡ false
open_of_name none k h = cc
open_of_name (some u) k h = ground arith

pub AllOpen-pointers :
    (s : Server) (m : Assoc ℕ)
    → Distinct m
    → ((k : Text) (p : ℕ) → lookup k m ≡ some p → open_name (get_elem? s.users p) ≡ some k)
    → AllOpen s (pointers m)
unfolding lookup pointers Distinct
AllOpen-pointers s [] d h = tt
AllOpen-pointers s ((j, q) ∷ m) d h = (
  open_of_name (get_elem? s.users q) j (h j q (rw (text_eq_refl j))),
  AllOpen-pointers s m d.1 (λ k p e. h k p (ground (arith, text_eq_iff j k, e, d.0))),
)

mem-pointers_open :
    (s : Server) (v : OnlineOk s) (q : ℕ) (k : Text)
    → open_name (get_elem? s.users q) ≡ some k
    → mem q (pointers s.online_map) ≡ true
mem-pointers_open s v q k h = mem-pointers_of_lookup s.online_map k q (v.listed k q h)

-- A user that is gone has no name here, and receives nothing.
receive_gone : (msg : Text) (o : Option User) → open_name o ≡ none → applied (receive msg) o ≡ o
unfolding receive
receive_gone msg none h = refl
receive_gone msg (some u) h = ground arith

-- Where the map and the users agree, a public line is put into the queue of every open connection,
-- logged in or not, once, unless the queue is full; nothing else of the server changes, and no send panics.
pub fanout_tcp_exact :
    (s : Server) (msg : Text) (q : ℕ)
    → OnlineOk s
    → (get_elem? (fanout_tcp s msg).users q ≡ applied (receive msg) (get_elem? s.users q))
      × (fanout_tcp s msg ≡ record s { users = (fanout_tcp s msg).users })
unfolding fanout_tcp
fanout_tcp_exact s msg q v =
    let ps = pointers s.online_map in
    let all_open = AllOpen-pointers s s.online_map v.distinct v.named in
    let once =
      NoDoubles-pointers (λ p. open_name (get_elem? s.users p)) s.online_map v.distinct v.named in
    (
      get-fanout_each msg s ps q all_open once ∙ elim (Bool-cases (mem q ps)) [
        | inl there ↦ rw there refl
        | inr absent ↦ elim (Option-cases (open_name (get_elem? s.users q))) [
          | inl gone ↦ rw (absent, receive_gone msg (get_elem? s.users q) gone) refl
          | inr (k, here) ↦ ground (arith, mem-pointers_open s v q k here, absent)
        ]
      ],
      fanout_each_rest msg s ps all_open,
    )

pub OnlineOk-same :
    (s t : Server)
    → s.online_map ≡ t.online_map
    → ((p : ℕ) → open_name (get_elem? s.users p) ≡ open_name (get_elem? t.users p))
    → OnlineOk s
    → OnlineOk t
OnlineOk-same s t e f v = record {
  distinct = rw (← e) v.distinct;
  named = λ k p h. sym (f p) ∙ v.named k p (rw e h);
  listed = λ k p h. rw (← e) (v.listed k p (f p ∙ h));
}

pub open_name-receive :
    (msg : Text) (o : Option User) → open_name (applied (receive msg) o) ≡ open_name o
unfolding receive
open_name-receive msg none = refl
open_name-receive msg (some u) = ground arith
