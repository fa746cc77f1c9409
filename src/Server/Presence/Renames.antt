-- ===== src/Server/Presence/Renames.antt =====
-- internal/server/server.go: `RenameUser`, whose caller then stores the name.
use im_system.Common.{
  ℕ, ◌≡◌, refl, sym, ◌∙◌, false, none, some, arith, ==_refl, if◌then◌else◌, get_elem?, Text,
  text_eq, text_eq_iff, text_eq_refl, lookup, insert, without, lookup-insert, lookup-without,
  insert-Distinct, without-Distinct,
}
use im_system.Server.{User, Server, modify}
use im_system.Server.Objects.{get_elem?-modify}
use im_system.Server.Presence.Consistent.{open_name}
use im_system.Server.Presence.Moves.{Live-but, modify-LiveBut, settled}
use im_system.Server.Live.{Live}

-- The server after a rename that succeeded, with the name stored.
abbrev pub renamed : Server → ℕ → Text → Text → Server
renamed s p old new = record s {
  online_map = insert new p (without old s.online_map);
  users = modify p (λ u. record u { name = new }) s.users;
}

pub renamed-Live :
    (s : Server) (p : ℕ) (u : User) (new : Text)
    → Live s
    → get_elem? s.users p ≡ some u
    → u.closed ≡ false
    → lookup new s.online_map ≡ none
    → Live (renamed s p u.name new)
renamed-Live s p u new v here is_open free =
    let old = u.name in
    let named : open_name (get_elem? s.users p) ≡ some old = rw (here, is_open) refl in
    let at_old = v.online_ok.listed old p named in
    let moved : (j : Text)
        → lookup j (insert new p (without old s.online_map)) ≡ (
            if text_eq new j
            then some p
            else if text_eq old j
            then none
            else lookup j s.online_map) =
      λ j. ground (
        arith,
        lookup-insert new j p (without old s.online_map),
        lookup-without old j s.online_map,
      ) in
    let only_old : (j : Text) → lookup j s.online_map ≡ some p → some old ≡ some j =
      λ j h. sym named ∙ v.online_ok.named j p h in
    let named_new : open_name (get_elem? (renamed s p old new).users p) ≡ some new =
      rw (get_elem?-modify p p (λ w. record w { name = new }) s.users)
        (ground (arith, here, is_open, ==_refl p)) in
    let but = modify-LiveBut s p (λ w. record w { name = new }) (Live-but s p v) in
    settled (renamed s p old new) p new
      (record {
        but_distinct =
            insert-Distinct new p _ (without-Distinct old s.online_map v.online_ok.distinct);
        but_named = λ k q d h. but.but_named k q d (ground (arith, moved k, h, d, ==_refl p));
        but_listed = λ k q d h.
            let there = but.but_listed k q d h in
            ground (
              arith,
              moved k,
              there,
              free,
              at_old,
              d,
              ==_refl p,
              text_eq_iff new k,
              text_eq_iff old k,
            );
        but_calm = v.calm;
        but_db_ok = v.db_ok;
        but_sockets = v.sockets_ok;
      })
      named_new
      (λ j h. ground (arith, moved j, h, only_old j, text_eq_iff new j, text_eq_iff old j))
      (ground (arith, moved new, text_eq_refl new))
