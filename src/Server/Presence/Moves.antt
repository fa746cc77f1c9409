-- ===== src/Server/Presence/Moves.antt =====
-- internal/server/user.go: `Online` and `Offline` move one user into the map and out of it. While a
-- user is moved, the map and the objects need to agree on the others only.
use im_system.Common.{
  ℕ, ◌≡◌, ◌≢◌, sym, ap, ◌∙◌, true, false, ◌&&◌, not, none, some, [], arith, ◌==◌, ==_iff, ==_refl,
  if◌then◌else◌, length, get_elem?, Text, text_eq, text_eq_iff, text_eq_refl, Bool-cases, inl, inr,
  lookup, retain, Distinct, lookup-insert, lookup-retain, insert-Distinct, retain-Distinct,
}
use im_system.Db.Invariant.Tables.{DbOk}
use im_system.Server.{User, Server, modify}
use im_system.Server.Objects.{get_elem?-modify, get_elem?-append_new}
use im_system.Server.Presence.{fresh_user, new_user, put_online, take_offline, close_user}
use im_system.Server.Presence.Sockets.{SocketsOk}
use im_system.Server.Presence.Consistent.{open_name}
use im_system.Server.Live.{Live}
use im_system.Server.Live.Kept.{Named, Kept}

pub record LiveBut (s : Server) (p : ℕ) : Type 0 where
  pub but_distinct : Distinct s.online_map
  pub but_named :
      (k : Text) (q : ℕ)
      → (q == p) ≡ false
      → lookup k s.online_map ≡ some q
      → open_name (get_elem? s.users q) ≡ some k
  pub but_listed :
      (k : Text) (q : ℕ)
      → (q == p) ≡ false
      → open_name (get_elem? s.users q) ≡ some k
      → lookup k s.online_map ≡ some q
  pub but_calm : s.panicked ≡ false
  pub but_db_ok : DbOk s.db
  pub but_sockets : SocketsOk s.ws_conns s.clients

pub Live-but : (s : Server) (p : ℕ) → Live s → LiveBut s p
Live-but s p v = record {
  but_distinct = v.online_ok.distinct;
  but_named = λ k q d h. v.online_ok.named k q h;
  but_listed = λ k q d h. v.online_ok.listed k q h;
  but_calm = v.calm;
  but_db_ok = v.db_ok;
  but_sockets = v.sockets_ok;
}

-- Whatever is done to the user that is moved.
pub modify-LiveBut :
    (s : Server) (p : ℕ) (f : User → User)
    → LiveBut s p
    → LiveBut (record s { users = modify p f s.users }) p
modify-LiveBut s p f v =
    let other : (q : ℕ)
        → (q == p) ≡ false
        → get_elem? (modify p f s.users) q ≡ get_elem? s.users q =
      λ q d. ground (arith, get_elem?-modify p q f s.users) in
    record {
      but_distinct = v.but_distinct;
      but_named = λ k q d h. rw (other q d) (v.but_named k q d h);
      but_listed = λ k q d h. v.but_listed k q d (ap open_name (sym (other q d)) ∙ h);
      but_calm = v.but_calm;
      but_db_ok = v.but_db_ok;
      but_sockets = v.but_sockets;
    }

-- The map is all right again when the moved user stands under its own name and under no other.
pub settled :
    (s : Server) (p : ℕ) (k : Text)
    → LiveBut s p
    → open_name (get_elem? s.users p) ≡ some k
    → ((j : Text) → lookup j s.online_map ≡ some p → k ≡ j)
    → lookup k s.online_map ≡ some p
    → Live s
settled s p k v named only here = record {
  online_ok = record {
    distinct = v.but_distinct;
    named = λ j q h. elim (Bool-cases (q == p)) [
      | inr other ↦ v.but_named j q other h
      | inl same ↦
          let at : q ≡ p = (==_iff q p).0 same in rw at (named ∙ ap some (only j (rw (← at) h)))
    ];
    listed = λ j q h. elim (Bool-cases (q == p)) [
      | inr other ↦ v.but_listed j q other h
      | inl same ↦
          let at : q ≡ p = (==_iff q p).0 same in
          let e : some k ≡ some j = sym named ∙ rw (← at) h in ground (arith, at, e, here)
    ];
  };
  calm = v.but_calm;
  db_ok = v.but_db_ok;
  sockets_ok = v.but_sockets;
}

lookup-put_online :
    (s : Server) (p : ℕ) (k j : Text)
    → Distinct s.online_map
    → lookup j (put_online s p k).online_map ≡ (
        if text_eq k j then some p else elim (lookup j s.online_map) [
          | none ↦ none
          | some q ↦ if q == p then none else some q
        ])
unfolding put_online
lookup-put_online s p k j d = ground (
  arith,
  lookup-insert k j p (retain (λ key q. not (q == p && not (text_eq key k))) s.online_map),
  lookup-retain (λ key q. not (q == p && not (text_eq key k))) j s.online_map d,
  text_eq_iff k j,
  text_eq_iff j k,
)

-- The name may be free, or the user's own already.
pub put_online-Live :
    (s : Server) (p : ℕ) (k : Text)
    → LiveBut s p
    → open_name (get_elem? s.users p) ≡ some k
    → ((q : ℕ) → lookup k s.online_map ≡ some q → (q == p) ≡ true)
    → Live (put_online s p k)
unfolding put_online
put_online-Live s p k v named free =
    let found = λ (j : Text). lookup-put_online s p k j v.but_distinct in
    settled (put_online s p k) p k
      (record {
        but_distinct = insert-Distinct k p _ (retain-Distinct _ s.online_map v.but_distinct);
        but_named = λ j q d h. v.but_named j q d (ground (arith, found j, h, d));
        but_listed = λ j q d h.
            let there = v.but_listed j q d h in
            ground (arith, found j, there, d, free q, text_eq_iff k j);
        but_calm = v.but_calm;
        but_db_ok = v.but_db_ok;
        but_sockets = v.but_sockets;
      })
      named (λ j h. ground (arith, found j, h, text_eq_iff k j, ==_refl p))
      (ground (arith, found k, text_eq_refl k))

lookup-take_offline :
    (s : Server) (p : ℕ) (k : Text)
    → Distinct s.online_map
    → lookup k (take_offline s p).online_map
      ≡ elim (lookup k s.online_map) [ none ↦ none | some q ↦ if q == p then none else some q ]
unfolding take_offline
lookup-take_offline s p k d = ground (arith, lookup-retain (λ _ q. not (q == p)) k s.online_map d)

-- Without its keys, the map is good for a broadcast, and the others stand as they stood.
pub take_offline-Named : (s : Server) (p : ℕ) → LiveBut s p → Named (take_offline s p)
unfolding take_offline
take_offline-Named s p v = record {
  keys_distinct = retain-Distinct (λ _ q. not (q == p)) s.online_map v.but_distinct;
  keys_open = λ k q h.
      let (was, d) : (lookup k s.online_map ≡ some q) × ((q == p) ≡ false) = (
        ground (arith, lookup-take_offline s p k v.but_distinct, h),
        ground (arith, lookup-take_offline s p k v.but_distinct, h),
      ) in
      v.but_named k q d was;
}

pub take_offline-listed :
    (s : Server) (p : ℕ) (v : LiveBut s p) (k : Text) (q : ℕ)
    → (q == p) ≡ false
    → open_name (get_elem? s.users q) ≡ some k
    → lookup k (take_offline s p).online_map ≡ some q
take_offline-listed s p v k q d h =
    let there = v.but_listed k q d h in
    ground (arith, lookup-take_offline s p k v.but_distinct, there, d)

-- No key points to a user that was taken offline.
pub take_offline-gone :
    (s : Server) (p : ℕ) (k : Text)
    → Distinct s.online_map
    → lookup k (take_offline s p).online_map ≢ some p
take_offline-gone s p k d h = ground (arith, lookup-take_offline s p k d, h, ==_refl p)

pub new_user-LiveBut :
    (s : Server) (addr : Text) → Live s → LiveBut (new_user s addr).0 (new_user s addr).1
unfolding new_user
new_user-LiveBut s addr v =
    let kept : (q : ℕ)
        → (q == length s.users) ≡ false
        → get_elem? (new_user s addr).0.users q ≡ get_elem? s.users q =
      λ q d. ground (
        arith,
        get_elem?-append_new s.users (fresh_user addr) q,
        d,
        ==_iff q (length s.users),
        ==_iff (length s.users) q,
      ) in
    record {
      but_distinct = v.online_ok.distinct;
      but_named = λ k q d h. rw (kept q d) (v.online_ok.named k q h);
      but_listed = λ k q d h. v.online_ok.listed k q (ap open_name (sym (kept q d)) ∙ h);
      but_calm = v.calm;
      but_db_ok = v.db_ok;
      but_sockets = v.sockets_ok;
    }

pub new_user_there :
    (s : Server) (addr : Text)
    → get_elem? (new_user s addr).0.users (new_user s addr).1 ≡ some (fresh_user addr)
unfolding new_user
new_user_there s addr = ground (
  arith,
  get_elem?-append_new s.users (fresh_user addr) (length s.users),
  ==_refl (length s.users),
)

-- Closing the user that was taken offline: nobody points to it, so the two agree again.
pub close_user-Live :
    (s t : Server) (p : ℕ) → LiveBut s p → Kept (take_offline s p) t → Live (close_user t p)
unfolding close_user take_offline
close_user-Live s t p v kept =
    let named = take_offline-Named s p v in
    let closed : open_name (get_elem? (close_user t p).users p) ≡ none =
      rw (get_elem?-modify p p (λ u. record u { closed = true; queue = [] }) t.users)
        (ground (arith, ==_refl p)) in
    let other : (q : ℕ)
        → (q == p) ≡ false
        → open_name (get_elem? (close_user t p).users q) ≡ open_name (get_elem? s.users q) =
      λ q d.
        ap open_name (
          ground (
            arith,
            get_elem?-modify p q (λ u. record u { closed = true; queue = [] }) t.users,
            d,
            ==_iff p q,
            ==_iff q p,
          ))
        ∙ sym (kept.kept_open q) in
    record {
      online_ok = record {
        distinct = rw (← kept.kept_map) named.keys_distinct;
        named = λ k q h.
            let before : lookup k (take_offline s p).online_map ≡ some q = rw kept.kept_map h in
            elim (Bool-cases (q == p)) [
              | inr d ↦ other q d ∙ named.keys_open k q before
              | inl same ↦
                  elim (take_offline-gone s p k v.but_distinct
                    (before ∙ ap some ((==_iff q p).0 same))) [ ]
            ];
        listed = λ k q h. elim (Bool-cases (q == p)) [
          | inr d ↦ rw (← kept.kept_map) (take_offline-listed s p v k q d (sym (other q d) ∙ h))
          | inl same ↦
              let at : q ≡ p = (==_iff q p).0 same in
              let bad : none ≡ some k =
                sym (ap (λ (i : ℕ). open_name (get_elem? (close_user t p).users i)) at ∙ closed)
                ∙ h in
              ground arith
        ];
      };
      calm = sym kept.kept_panicked ∙ v.but_calm;
      db_ok = kept.kept_db v.but_db_ok;
      sockets_ok = kept.kept_sockets v.but_sockets;
    }
