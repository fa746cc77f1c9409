-- ===== src/Bridge/Lines.antt =====
-- cmd/web/main.go: what goes to the chat server, and what comes back to the browser.
use im_system.Common.{
  ℕ, zero, suc, ◌+◌, ◌<◌, ◌≡◌, refl, Bool, true, false, ◌&&◌, ◌||◌, not, Option, some, List, [],
  ◌∷◌, ◌++◌, map, arith, ◌==◌, leb, if◌then◌else◌, Text, text_eq, any, take, drop, length,
  get_elem?, Bool-cases, inl, inr,
}
use im_system.Text.Trim.{trim_space}
use im_system.Text.Split.{split, split-append}
use im_system.Server.{modify}
use im_system.Server.Objects.{applied, get_elem?-modify}
use im_system.Bridge.{
  Session, Bridge, polled, get_session, one_space, one_line, write, handle_send, collect,
  handle_poll,
}

abbrev pub ends_line : ℕ → Bool
ends_line c = c == 10 || c == 13

one_line-flat : (s : Text) → any ends_line (map one_space s) ≡ false
unfolding any
one_line-flat [] = refl
one_line-flat (c ∷ s) = ground (arith, one_line-flat s)

flat_newline : (s : Text) → any ends_line s ≡ false → any (λ c. c == 10) s ≡ false
unfolding any
flat_newline [] h = refl
flat_newline (c ∷ s) h = ground (arith, h, flat_newline s)

-- Rounds of an open session, with room for one message more than `r`.
collect-open :
    (breaks : ℕ → Bool) (arrives : Option Text) (r n : ℕ) (queue : List Text)
    → suc r + n ≡ 20
    → 0 < n + length queue
    → collect false breaks arrives n queue ≡ (take (suc r) queue, drop (suc r) queue)
unfolding collect
collect-open breaks arrives r n [] h k =
    let some_taken : (n == 0) ≡ false = ground (arith, k) in rw some_taken refl
collect-open breaks arrives zero n (m ∷ queue) h k =
    let full : leb 20 (suc n) ≡ true = ground (arith, h) in rw full refl
collect-open breaks arrives (suc r) n (m ∷ queue) h k =
    let room : leb 20 (suc n) ≡ false = ground (arith, h) in
    rw (room, collect-open breaks arrives r (suc n) queue (omega (arith, h)) (omega arith)) refl

-- A poll of an open session that has messages answers with the first twenty of them, or all if there
-- are fewer, in their order, and leaves the others in the queue; the other sessions are as before.
pub poll_takes_first :
    (breaks : ℕ → Bool) (arrives : Option Text) (id : Text) (w : Bridge) (p : ℕ) (s : Session)
    → get_session w id ≡ some p
    → get_elem? w.objects p ≡ some s
    → s.closed ≡ false
    → 0 < length s.messages
    → (handle_poll breaks arrives id w ≡ (
      record w { objects = modify p (λ s'. record s' { messages = drop 20 s.messages }) w.objects },
      polled (take 20 s.messages),
    ))
unfolding handle_poll
poll_takes_first breaks arrives id w p s known there open_session some_there =
    rw
      (
        handle_poll,
        known,
        there,
        open_session,
        collect-open breaks arrives 19 0 s.messages refl (omega (arith, some_there)),
      )
      refl

-- A message of a browser that is not blank goes to the connection of its session as one line, whatever
-- it holds: a reader of lines finds the message, without line ends, and nothing behind it. Nothing is
-- written for a blank message or where the write fails, and nothing to another session.
pub send_writes_one_line :
    (broken : Bool) (id message : Text) (w : Bridge) (p q : ℕ)
    → get_session w id ≡ some p
    → (get_elem? (handle_send broken id (some message) w).0.objects q ≡ (
        if p == q && not broken && not (text_eq (one_line message) [])
        then applied (write (one_line message ++ 10 ∷ [])) (get_elem? w.objects q)
        else get_elem? w.objects q))
      × (split 10 (one_line message ++ 10 ∷ []) ≡ one_line message ∷ [] ∷ [])
      × (any ends_line (one_line message) ≡ false)
unfolding handle_send one_line split
send_writes_one_line broken id message w p q known =
    let flat = one_line-flat (trim_space message) in
    (
      (elim (Bool-cases (text_eq (one_line message) [])) [
        | inl empty ↦ rw (handle_send, known, empty) (ground arith)
        | inr filled ↦ elim (Bool-cases broken) [
          | inl fails ↦ rw (handle_send, known, filled, fails) (ground arith)
          | inr works ↦
              rw
                (
                  handle_send,
                  known,
                  filled,
                  works,
                  get_elem?-modify p q (write (one_line message ++ 10 ∷ [])) w.objects,
                )
                (ground arith)
        ]
      ]),
      split-append 10 (one_line message) [] (flat_newline (one_line message) flat),
      flat,
    )
