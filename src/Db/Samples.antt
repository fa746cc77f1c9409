-- ===== src/Db/Samples.antt =====
-- A small database: two accounts, a group, a friendship and three messages, with a salted copy for
-- bcrypt and an insertion sort for ORDER BY.
use im_system.Common.{
  ℕ, ◌≡◌, refl, Bool, true, false, Option, none, some, List, [], ◌∷◌, arith, ltb, if◌then◌else◌,
  Text, text_eq, text_eq_refl, length, select,
}
use im_system.Text.{bytes}
use im_system.Model.{DbMessageExt}
use im_system.Db.{Database, empty_database}
use im_system.Db.Users.{Bcrypt}
use im_system.Db.Messages.{OrderBy, Descending, public_kind, private_kind, group_kind}
use im_system.Db.Invariant.{Write, registers, creates_group, saves_message, adds_friend, writes}

-- A password is kept behind its salt; 72 bytes are the most that bcrypt takes.
unfoldable pub salted : ℕ → Text → Option Text
salted salt password = if ltb 72 (length password) then none else some (salt ∷ password)

unfoldable pub matches : Text → Text → Bool
matches [] password = false
matches (_ ∷ kept) password = text_eq kept password

pub salted-matches :
    (salt : ℕ) (password hash : Text)
    → salted salt password ≡ some hash
    → matches hash password ≡ true
unfolding salted matches
salted-matches salt password [] h = ground arith
salted-matches salt password (c ∷ hash) h = ground (arith, text_eq_refl password)

abbrev pub plain_bcrypt : Bcrypt
plain_bcrypt = record { generate = salted; compare = matches; compare_generate = salted-matches }

-- Rows in falling order of time.
unfoldable pub place : DbMessageExt → List DbMessageExt → List DbMessageExt
place r [] = r ∷ []
place r (s ∷ rs) =
    let rest = place r rs in if ltb r.created_at s.created_at then s ∷ rest else r ∷ s ∷ rs

unfoldable pub sorted : List DbMessageExt → List DbMessageExt
unfolding place
sorted [] = []
sorted (r ∷ rs) = place r (sorted rs)

length-place :
    (p : DbMessageExt → Bool) (r : DbMessageExt) (rs : List DbMessageExt)
    → length (select p (place r rs)) ≡ length (select p (r ∷ rs))
unfolding place select
length-place p r [] = refl
length-place p r (s ∷ rs) = ground (arith, length-place p r rs)

pub sorted_keeps :
    (p : DbMessageExt → Bool) (rs : List DbMessageExt)
    → length (select p (sorted rs)) ≡ length (select p rs)
unfolding sorted select
sorted_keeps p [] = refl
sorted_keeps p (r ∷ rs) = ground (arith, length-place p r (sorted rs), sorted_keeps p rs)

place-Descending :
    (r : DbMessageExt) (rs : List DbMessageExt) → Descending rs → Descending (place r rs)
unfolding place
place-Descending r [] h = tt
place-Descending r (s ∷ []) h = ground arith
place-Descending r (s ∷ t ∷ rs) h = ground (arith, place-Descending r (t ∷ rs) h.1)

pub sorted-Descending : (rs : List DbMessageExt) → Descending (sorted rs)
unfolding sorted
sorted-Descending [] = tt
sorted-Descending (r ∷ rs) = place-Descending r (sorted rs) (sorted-Descending rs)

abbrev pub by_time : OrderBy
by_time = record { sort = sorted; sort_keeps = sorted_keeps; sort_descending = sorted-Descending }

abbrev pub ann : Text
ann = b'a' ∷ b'n' ∷ b'n' ∷ []

abbrev pub bob : Text
bob = b'b' ∷ b'o' ∷ b'b' ∷ []

abbrev pub eve : Text
eve = b'e' ∷ b'v' ∷ b'e' ∷ []

abbrev pub club : Text
club = b'c' ∷ []

abbrev pub secret : Text
secret = b's' ∷ b'e' ∷ b'c' ∷ b'r' ∷ b'e' ∷ b't' ∷ []

abbrev pub hello : Text
hello = b'h' ∷ b'i' ∷ []

unfoldable pub history : List Write
unfolding public_kind private_kind group_kind bytes
history =
    registers 7 1 ann secret []
    ∷ registers 8 2 bob secret []
    ∷ creates_group 3 club 1 []
    ∷ adds_friend 1 2
    ∷ saves_message 4 1 none none hello public_kind
    ∷ saves_message 5 1 (some 2) none hello private_kind
    ∷ saves_message 5 1 none (some 1) hello group_kind
    ∷ []

unfoldable pub start : Database
unfolding writes empty_database
start = writes plain_bcrypt (empty_database true) history
