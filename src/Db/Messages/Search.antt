-- ===== src/Db/Messages/Search.antt =====
-- internal/db/db.go: saved messages, and what history and search find of them.
use im_system.Common.{
  ℕ, suc, ◌≤◌, ◌<◌, ◌≡◌, refl, ap, Bool, true, ◌&&◌, ◌||◌, Option, some, List, [], ◌∷◌, ◌++◌, arith,
  ltb, leb, ◌==◌, if◌then◌else◌, Text, text_eq, text_eq_refl, any, any-append, any-eq-count,
  select_all, length, length-append, take, take_all, Option-cases, inl, inr,
}
use im_system.Model.{DbUser, DbMessage, DbMessageExt}
use im_system.Db.{Database, DbError, ok, err}
use im_system.Db.Users.{select_user_id}
use im_system.Db.Groups.{select_group_id}
use im_system.Db.Messages.Like.{like}
use im_system.Db.Messages.{
  user_name, group_name_of, referred, public_kind, save_message, message_row, ext_row, public_row,
  search_row, rows, OrderBy, get_public_messages, search_messages,
}

pub save_appends :
    (db : Database) (now from_id : ℕ) (to_id group_id : Option ℕ) (content kind : Text)
    (m : DbMessage)
    → (save_message db now from_id to_id group_id content kind).1 ≡ ok m
    → ((save_message db now from_id to_id group_id content kind).0
        ≡ record db { messages = db.messages ++ m ∷ []; next_message = suc db.next_message })
      × (m ≡ message_row db.next_message now from_id to_id group_id content kind)
unfolding save_message
save_appends db now from_id to_id group_id content kind m h = (ground arith, ground arith)

-- A message that the database refuses changes nothing.
pub save_error_keeps :
    (db : Database) (now from_id : ℕ) (to_id group_id : Option ℕ) (content kind : Text)
    (e : DbError)
    → (save_message db now from_id to_id group_id content kind).1 ≡ err e
    → (save_message db now from_id to_id group_id content kind).0 ≡ db
unfolding save_message
save_error_keeps db now from_id to_id group_id content kind e h = ground arith

rows-append :
    (row : DbMessage → Option DbMessageExt) (ms : List DbMessage) (m : DbMessage) (r : DbMessageExt)
    → row m ≡ some r
    → rows row (ms ++ m ∷ []) ≡ rows row ms ++ r ∷ []
unfolding rows
rows-append row [] m r h = rw (h, rows)
rows-append row (x ∷ ms) m r h = elim (Option-cases (row x)) [
  | inl absent ↦ rw (absent, rows) (rows-append row ms m r h)
  | inr (y, present) ↦ rw (present, rows) (ap (◌∷◌ y) (rows-append row ms m r h))
]

-- A row at the end of the table is on a page that holds them all.
any-page_last :
    (o : OrderBy) (p : DbMessageExt → Bool) (n : ℕ) (rs : List DbMessageExt) (r : DbMessageExt)
    → p r ≡ true
    → length (rs ++ r ∷ []) ≤ n
    → any p (take n (o.sort (rs ++ r ∷ []))) ≡ true
unfolding any
any-page_last o p n rs r h fits =
    let all = rs ++ r ∷ [] in
    let whole : take n (o.sort all) ≡ o.sort all =
      take_all n (o.sort all)
        (omega (arith, select_all (o.sort all), select_all all, o.sort_keeps (λ _. true) all)) in
    rw whole (
      ground (
        arith,
        any-eq-count p (o.sort all),
        any-eq-count p all,
        o.sort_keeps p all,
        any-append p rs (r ∷ []),
      ))

search_row_found :
    (db : Database) (query : Text) (m : DbMessage) (u : DbUser)
    → like (b'%' ∷ query ++ b'%' ∷ []) m.content ≡ true
    → select_user_id db m.from_id ≡ some u
    → (r : DbMessageExt) × (search_row db query m ≡ some r)
      × (r.id ≡ m.id)
      × (r.content ≡ m.content)
unfolding search_row
search_row_found db query m u matches sender = (
  ext_row m u (user_name (referred m.to_id (select_user_id db)))
      (group_name_of (referred m.group_id (select_group_id db))),
  rw (matches, sender) refl,
  refl,
  refl,
)

search_page :
    (o : OrderBy) (db : Database) (query : Text) (limit : ℕ)
    → 0 < limit
    → limit ≤ 200
    → search_messages o db query limit
      ≡ take limit (o.sort (rows (search_row db query) db.messages))
unfolding search_messages
search_page o db query limit some_limit fits =
    let same : (if leb limit 0 || ltb 200 limit then 50 else limit) ≡ limit = ground arith in
    rw same

module _ (o : OrderBy) (db : Database) (now from_id : ℕ) (to_id group_id : Option ℕ)
    (content : Text) where
  -- A message that was saved is found by a search for a text in it, whatever its kind and whoever it
  -- was sent to, if the limit leaves room for all that match.
  pub saved_is_found :
      (kind query : Text) (limit : ℕ) (m : DbMessage) (u : DbUser)
      → (save_message db now from_id to_id group_id content kind).1 ≡ ok m
      → select_user_id db from_id ≡ some u
      → like (b'%' ∷ query ++ b'%' ∷ []) content ≡ true
      → limit ≤ 200
      → length (rows (search_row db query) db.messages) < limit
      → any
          (λ (r : DbMessageExt). r.id == db.next_message && text_eq r.content content)
          (search_messages o
            (save_message db now from_id to_id group_id content kind).0
            query
            limit)
        ≡ true
  unfolding search_row
  saved_is_found kind query limit m u saved sender matches fits room =
      let (e, row) = save_appends db now from_id to_id group_id content kind m saved in
      let (r, found, id, text) = search_row_found db query m u (rw row matches) (rw row sender) in
      let added = rows-append (search_row db query) db.messages m r found in
      rw (e, search_page o _ query limit (omega arith) fits)
        (rw added (
          any-page_last o _ limit (rows (search_row db query) db.messages) r
            (ground (arith, id, text, row, text_eq_refl content))
            (omega (arith, length-append (rows (search_row db query) db.messages) (r ∷ [])))))

  -- A public message that was saved is in the public history, if the limit leaves room for all.
  pub saved_is_in_history :
      (limit : ℕ) (m : DbMessage) (u : DbUser)
      → (save_message db now from_id to_id group_id content public_kind).1 ≡ ok m
      → select_user_id db from_id ≡ some u
      → length (rows (public_row db 0) db.messages) < limit
      → any
          (λ (r : DbMessageExt).
            r.id == db.next_message && text_eq r.from u.username && text_eq r.content content)
          (get_public_messages o
            (save_message db now from_id to_id group_id content public_kind).0
            limit
            0)
        ≡ true
  unfolding get_public_messages public_row
  saved_is_in_history limit m u saved sender room =
      let (e, row) = save_appends db now from_id to_id group_id content public_kind m saved in
      let found : public_row db 0 m ≡ some (ext_row m u [] []) =
        rw (row, sender, text_eq_refl public_kind) refl in
      let added = rows-append (public_row db 0) db.messages m (ext_row m u [] []) found in
      rw e (
        rw added (
          any-page_last o _ limit (rows (public_row db 0) db.messages) (ext_row m u [] [])
            (ground (arith, row, text_eq_refl content, text_eq_refl u.username))
            (omega (
              arith,
              length-append (rows (public_row db 0) db.messages) (ext_row m u [] [] ∷ []),
            ))))
