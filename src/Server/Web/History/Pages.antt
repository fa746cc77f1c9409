-- ===== src/Server/Web/History/Pages.antt =====
-- internal/server/web.go: how many rows `handleHistory` and `handleSearch` return, and of which messages.
use im_system.Common.{
  ℕ, ◌≤◌, ◌≡◌, refl, sym, ap, subst, Bool, true, false, ◌&&◌, ◌||◌, not, some, List, [], ◌∷◌, arith,
  Text, text_eq, text_eq_iff, any, length, Option-cases, inl, inr,
}
use im_system.Text.{bytes}
use im_system.Session.{get_username}
use im_system.Model.{DbMessageExt}
use im_system.Db.Messages.{OrderBy, private_kind}
use im_system.Db.Messages.Pages.{public_page, group_page, private_page, is_between}
use im_system.Server.{Server, Env}
use im_system.Server.Web.{
  Reply, bad_request, unauthorized, method_not_allowed, messages_found, is_blank,
}
use im_system.Server.Web.Cases.{if_answer, option_answer}
use im_system.Server.Web.Request.{auth_query_middleware, query_token_first}
use im_system.Server.Web.History.{
  HistoryQuery, positive_number, page_limit, before_id, handle_history,
}

-- A number asked for is cut at the maximum.
page_limit-le :
    (default most : ℕ) (raw : Text) → default ≤ most → page_limit default most raw ≤ most
unfolding page_limit
page_limit-le default most raw h = elim (Option-cases (positive_number raw)) [
  | inl absent ↦ rw (absent, page_limit) h
  | inr (n, present) ↦ rw (present, page_limit) (omega arith)
]

-- The rows of an answer, where it has any.
record Found (Q : List DbMessageExt → Type 0) (r : Server × Reply) : Type 0 where
  pub found : (rows : List DbMessageExt) → r.1 ≡ messages_found rows → Q rows

abbrev rows_of : Reply → List DbMessageExt
rows_of (messages_found rows) = rows
rows_of other = []

module _ {Q : List DbMessageExt → Type 0} where
  these : (s : Server) (rows : List DbMessageExt) → Q rows → Found Q (s, messages_found rows)
  these s rows q = record { found = λ rows' e. subst Q (ap rows_of e) q }

  refused : (s : Server) (why : Text) → Found Q (s, bad_request why)
  refused s why = record { found = λ rows e. cc }

  no_login : (s : Server) (why : Text) → Found Q (s, unauthorized why)
  no_login s why = record { found = λ rows e. cc }

  not_allowed : (s : Server) (why : Text) → Found Q (s, method_not_allowed why)
  not_allowed s why = record { found = λ rows e. cc }

abbrev pub own_private : Text → DbMessageExt → Bool
own_private username r =
    text_eq r.kind private_kind && (text_eq r.from username || text_eq r.to username)

-- A row of a private page that is none of the user's.
abbrev pub foreign : Text → Text → DbMessageExt → Bool
foreign kind username r = text_eq kind (bytes "private") && not (own_private username r)

any_never :
    (p : DbMessageExt → Bool) (rows : List DbMessageExt)
    → ((r : DbMessageExt) → p r ≡ false)
    → any p rows ≡ false
unfolding any
any_never p [] h = refl
any_never p (r ∷ rows) h = ground (arith, h r, any_never p rows h)

any_weaker :
    (p q : DbMessageExt → Bool) (rows : List DbMessageExt)
    → ((r : DbMessageExt) → p r ≡ false → q r ≡ false)
    → any p rows ≡ false
    → any q rows ≡ false
unfolding any
any_weaker p q [] h e = refl
any_weaker p q (r ∷ rows) h e = ground (arith, h r, any_weaker p q rows h)

-- What a page is to the user who asks.
record Page (s : Server) (kind username : Text) (rows : List DbMessageExt) : Type 0 where
  pub bounded : length rows ≤ s.history_max
  pub own : any (foreign kind username) rows ≡ false

between_own :
    (kind username peer : Text) (before : ℕ) (r : DbMessageExt)
    → not (is_between username peer before r) ≡ false
    → foreign kind username r ≡ false
between_own kind username peer before r h = ground arith

kinds_apart :
    (kind : Text) → text_eq kind (bytes "group") ≡ true → text_eq kind (bytes "private") ≡ false
unfolding bytes text_eq
kinds_apart kind h =
    subst (λ k. text_eq k (bytes "private") ≡ false) (sym ((text_eq_iff kind (bytes "group")).0 h))
      refl

module _ (o : OrderBy) where
  handle_history-Found :
      (method : Text) (q : HistoryQuery) (s : Server) (username : Text)
      → s.history_limit ≤ s.history_max
      → Found (Page s q.kind username) (handle_history o method q s username)
  unfolding handle_history
  handle_history-Found method q s username h =
      let P = Found (Page s q.kind username) in
      let limit = page_limit s.history_limit s.history_max q.limit in
      let fits = page_limit-le s.history_limit s.history_max q.limit h in
      let before = before_id q.before in
      if_answer P (text_eq method (bytes "GET"))
        (λ _.
          if_answer P (text_eq q.kind (bytes "group"))
            (λ kind.
              if_answer P (is_blank q.group) (λ _. refused s _)
                (λ _. these s _ (record {
                  bounded = omega (arith, (group_page o s.db q.group limit before).0);
                  own = any_never _ _ (λ r. rw (kinds_apart q.kind kind) refl);
                })))
            (λ _.
              if_answer P (text_eq q.kind (bytes "private"))
                (λ _.
                  if_answer P (is_blank q.peer) (λ _. refused s _)
                    (λ _. these s _ (record {
                      bounded = omega (arith, (private_page o s.db username q.peer limit before).0);
                      own =
                          any_weaker _ _ _ (between_own q.kind username q.peer before)
                            (private_page o s.db username q.peer limit before).1;
                    })))
                (λ public. these s _ (record {
                  bounded = omega (arith, (public_page o s.db limit before).0);
                  own = any_never _ _ (λ r. rw public refl);
                }))))
        (λ _. not_allowed s _)

  -- A page that `handleHistory` answers with is for the user of the token, has at most `historyMax`
  -- rows, if the default limit is no more, and where it is of kind `private` each row is a private
  -- message from or to that user.
  pub history_page_own :
      (env : Env) (s : Server) (auth query_token method : Text) (q : HistoryQuery)
      (rows : List DbMessageExt)
      → s.history_limit ≤ s.history_max
      → (auth_query_middleware env s auth query_token (handle_history o method q)).1
        ≡ messages_found rows
      → (username : Text) × ((get_username s.sessions env.now
            (query_token_first auth query_token)).1
          ≡ some username)
        × (length rows ≤ s.history_max)
        × (any (foreign q.kind username) rows ≡ false)
  unfolding auth_query_middleware
  history_page_own env s auth query_token method q rows h answer =
      let found = get_username s.sessions env.now (query_token_first auth query_token) in
      let s' : Server = record s { sessions = found.0 } in
      let P = Found (λ rows.
        (username : Text) × (found.1 ≡ some username)
        × (length rows ≤ s.history_max)
        × (any (foreign q.kind username) rows ≡ false)) in
      let whole : P (auth_query_middleware env s auth query_token (handle_history o method q)) =
        if_answer P (text_eq (query_token_first auth query_token) []) (λ _. refused s _)
          (λ _.
            option_answer P found.1 (λ _. no_login s' _)
              (λ username known. record {
                found = λ rows e.
                    let page = (handle_history-Found method q s' username h).found rows e in
                    (username, known, page.bounded, page.own);
              })) in
      whole.found rows answer
