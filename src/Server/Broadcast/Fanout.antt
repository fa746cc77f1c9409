-- ===== src/Server/Broadcast/Fanout.antt =====
-- internal/server/server.go: `fanoutTCP` over a list of pointers, one receiver after another.
use im_system.Common.{
  ℕ, ◌≡◌, refl, ap, ◌∙◌, Bool, false, List, [], ◌∷◌, arith, ◌==◌, if◌then◌else◌, get_elem?, any,
  All, Text, Bool-cases, inl, inr, subst, ==_iff,
}
use im_system.Server.{Server, modify, receive, fanout_one, is_closed}
use im_system.Server.Objects.{applied, get_elem?-modify}
use im_system.Server.Broadcast.{fanout_each}

abbrev pub mem : ℕ → List ℕ → Bool
mem q ps = any (λ (p : ℕ). p == q) ps

-- No pointer stands twice.
abbrev pub NoDoubles : List ℕ → Type 0
NoDoubles [] = Unit {0}
NoDoubles (p ∷ ps) = (mem p ps ≡ false) × NoDoubles ps

abbrev pub AllOpen : Server → List ℕ → Type 0
AllOpen s ps = All (λ p. is_closed (get_elem? s.users p) ≡ false) ps

fanout_one_open :
    (s : Server) (p : ℕ) (msg : Text)
    → is_closed (get_elem? s.users p) ≡ false
    → fanout_one s p msg ≡ record s { users = modify p (receive msg) s.users }
unfolding fanout_one
fanout_one_open s p msg h = rw h

closed_kept :
    (s : Server) (p q : ℕ) (msg : Text)
    → is_closed (get_elem? s.users q) ≡ false
    → is_closed (get_elem? (modify p (receive msg) s.users) q) ≡ false
unfolding receive
closed_kept s p q msg h = rw (get_elem?-modify p q (receive msg) s.users) (ground arith)

AllOpen-kept :
    (s : Server) (p : ℕ) (msg : Text) (ps : List ℕ)
    → AllOpen s ps
    → AllOpen (record s { users = modify p (receive msg) s.users }) ps
AllOpen-kept s p msg [] h = tt
AllOpen-kept s p msg (q ∷ ps) h = (closed_kept s p q msg h.0, AllOpen-kept s p msg ps h.1)

abbrev handed : Text → Server → ℕ → Server
handed msg s p = record s { users = modify p (receive msg) s.users }

fanout_each_step :
    (msg : Text) (s : Server) (p : ℕ) (ps : List ℕ)
    → is_closed (get_elem? s.users p) ≡ false
    → fanout_each msg s (p ∷ ps) ≡ fanout_each msg (handed msg s p) ps
unfolding fanout_each
fanout_each_step msg s p ps h =
    ap (λ (t : Server). fanout_each msg t ps) (fanout_one_open s p msg h)

fanout_each_nil : (msg : Text) (s : Server) → fanout_each msg s [] ≡ s
unfolding fanout_each
fanout_each_nil msg s = refl

-- Each pointer of the list gets the message once, the other users nothing.
pub get-fanout_each :
    (msg : Text) (s : Server) (ps : List ℕ) (q : ℕ)
    → AllOpen s ps
    → NoDoubles ps
    → get_elem? (fanout_each msg s ps).users q
      ≡ (if mem q ps then applied (receive msg) (get_elem? s.users q) else get_elem? s.users q)
unfolding any
get-fanout_each msg s [] q h d = ap (λ (t : Server). get_elem? t.users q) (fanout_each_nil msg s)
get-fanout_each msg s (p ∷ ps) q h d =
    ap (λ (t : Server). get_elem? t.users q) (fanout_each_step msg s p ps h.0)
    ∙ get-fanout_each msg (handed msg s p) ps q (AllOpen-kept s p msg ps h.1) d.1
    ∙ rw (get_elem?-modify p q (receive msg) s.users) (elim (Bool-cases (p == q)) [
      | inr other ↦ rw other refl
      | inl same ↦
          let gone : mem q ps ≡ false = subst (λ i. mem i ps ≡ false) ((==_iff p q).0 same) d.0 in
          rw (same, gone) refl
    ])

-- The other fields of the server stay as they are.
pub fanout_each_rest :
    (msg : Text) (s : Server) (ps : List ℕ)
    → AllOpen s ps
    → fanout_each msg s ps ≡ record s { users = (fanout_each msg s ps).users }
fanout_each_rest msg s [] h = rw (fanout_each_nil msg s) refl
fanout_each_rest msg s (p ∷ ps) h =
    rw (fanout_each_step msg s p ps h.0)
      (fanout_each_rest msg (handed msg s p) ps (AllOpen-kept s p msg ps h.1))
