-- ===== src/Server/Web/Groups/Removal.antt =====
-- internal/server/web.go: who can take a member out of a group, and what a refused request leaves.
use im_system.Common.{
  ℕ, ◌≡◌, ◌⊎◌, inl, inr, refl, subst, true, false, ◌||◌, not, Option, none, some, [], ◌==◌, arith,
  Text, text_eq, text_eq_iff, Option-cases,
}
use im_system.Text.{bytes}
use im_system.Session.{get_username}
use im_system.Model.{UserPublic, DbGroup}
use im_system.Db.{Database, DbError, ok}
use im_system.Db.Users.{get_user_by_username}
use im_system.Db.Groups.{create_group, join_group, leave_group, get_group_by_name, select_group}
use im_system.Db.Groups.Rows.{Result-cases}
use im_system.Db.Groups.Membership.{
  GroupsOk, is_member, is_member-join_group, is_member-leave_group, is_member-create_group,
}
use im_system.Db.Groups.Changes.{
  create_inserts, join_error_keeps, leave_error_keeps, create_error_keeps,
}
use im_system.Server.{Server, Env}
use im_system.Server.Web.{Reply, is_blank}
use im_system.Server.Web.Cases.{if_answer, option_answer, result_answer}
use im_system.Server.Web.Groups.{
  GroupBody, answered, web_create_group, web_invite, web_kick, group_action, handle_group,
}

join_keeps_members :
    (db : Database) (v : GroupsOk db) (name : Text) (u : ℕ) (other : Text) (w : ℕ)
    → is_member db other w ≡ true
    → is_member (join_group db name u).0 other w ≡ true
join_keeps_members db v name u other w h = elim (Option-cases (join_group db name u).1) [
  | inr (e, refused) ↦ rw (join_error_keeps db name u e refused) h
  | inl done ↦ rw (is_member-join_group db v name u done other w, h) refl
]

no_member :
    (db : Database) (name : Text) (w : ℕ)
    → select_group db name ≡ none
    → is_member db name w ≡ false
unfolding is_member
no_member db name w h = rw (h, is_member) refl

create_keeps_members :
    (db : Database) (v : GroupsOk db) (now : ℕ) (name : Text) (u : ℕ) (other : Text) (w : ℕ)
    → is_member db other w ≡ true
    → is_member (create_group db now name u []).0 other w ≡ true
create_keeps_members db v now name u other w h =
    elim (Result-cases (create_group db now name u []).1) [
      | inr (e, refused) ↦ rw (create_error_keeps db now name u [] e refused) h
      | inl (g, done) ↦ ground (
        arith,
        is_member-create_group db v name u now [] g done other w,
        (create_inserts db now name u [] g done).1,
        text_eq_iff name other,
        no_member db name w,
      )
    ]

leave_removes_self :
    (db : Database) (v : GroupsOk db) (name : Text) (u : ℕ) (other : Text) (w : ℕ)
    → is_member db other w ≡ true
    → is_member (leave_group db name u).0 other w ≡ false
    → (name ≡ other) × (u ≡ w)
leave_removes_self db v name u other w h gone = elim (Option-cases (leave_group db name u).1) [
  | inr (e, refused) ↦ ground (arith, leave_error_keeps db name u e refused)
  | inl done ↦
      ground (arith, is_member-leave_group db v name u done other w, text_eq_iff name other)
]

answered_db :
    (s : Server) (good : Reply) (r : Database × Option DbError) → (answered s good r).0.db ≡ r.0
unfolding answered
answered_db s good (db, none) = refl
answered_db s good (db, some e) = refl

-- If a member is lost in an answer, then for a reason.
record Loses (name : Text) (w : ℕ) (Reason : Type 0) (r : Server × Reply) : Type 0 where
  pub why : is_member r.0.db name w ≡ false → Reason

module _ (s : Server) (v : GroupsOk s.db) (name : Text) (w : ℕ)
    (h : is_member s.db name w ≡ true) where
  unlost : {Reason : Type 0} {a : Reply} → Loses name w Reason (s, a)
  unlost = record { why = λ gone. ground arith }

  -- After a change of the database.
  answered-Loses :
      {Reason : Type 0} (good : Reply) (r : Database × Option DbError)
      → (is_member r.0 name w ≡ false → Reason)
      → Loses name w Reason (answered s good r)
  unfolding answered
  answered-Loses good (db, none) why = record { why = why }
  answered-Loses good (db, some e) why = record { why = why }

  join-Loses :
      {Reason : Type 0} (good : Reply) (group : Text) (u : ℕ)
      → Loses name w Reason (answered s good (join_group s.db group u))
  join-Loses good group u =
      answered-Loses good _ (λ gone. ground (arith, join_keeps_members s.db v group u name w h))

  create-Loses :
      {Reason : Type 0} (env : Env) (group : Text) (u : ℕ)
      → Loses name w Reason (web_create_group env s group u)
  unfolding web_create_group
  create-Loses {Reason} env group u =
      let kept = create_keeps_members s.db v env.now group u name w h in
      result_answer (Loses name w Reason) (create_group s.db env.now group u []).1
        (λ e _. record { why = λ gone. ground (arith, kept) })
        (λ g _. record { why = λ gone. ground (arith, kept) })

  invite-Loses :
      {Reason : Type 0} (group member : Text) → Loses name w Reason (web_invite s group member)
  unfolding web_invite
  invite-Loses {Reason} group member =
      if_answer (Loses name w Reason) (is_blank member) (λ _. unlost)
        (λ _.
          result_answer (Loses name w Reason) (get_user_by_username s.db member) (λ e _. unlost)
            (λ (t : UserPublic) _. join-Loses _ group t.id))

  kick-Loses :
      (u : ℕ) (group member : Text)
      → Loses name w
          ((g : DbGroup) × (get_group_by_name s.db name ≡ ok g) × (g.creator_id ≡ u))
          (web_kick s u group member)
  unfolding web_kick
  kick-Loses u group member =
      let P =
        Loses name w ((g : DbGroup) × (get_group_by_name s.db name ≡ ok g) × (g.creator_id ≡ u)) in
      if_answer P (is_blank member) (λ _. unlost)
        (λ _.
          result_answer P (get_group_by_name s.db group) (λ e _. unlost)
            (λ (g : DbGroup) found.
              if_answer P (not (g.creator_id == u)) (λ _. unlost)
                (λ made.
                  result_answer P (get_user_by_username s.db member) (λ e _. unlost)
                    (λ (t : UserPublic) _. answered-Loses _ _ (λ gone.
                      (let (same, _) = leave_removes_self s.db v group t.id name w h gone in
                        (
                          g,
                          subst (λ x. get_group_by_name s.db x ≡ ok g) same found,
                          ground (arith, made),
                        )))))))

  leave-Loses :
      (good : Reply) (group : Text) (u : ℕ)
      → Loses name w (u ≡ w) (answered s good (leave_group s.db group u))
  leave-Loses good group u =
      answered-Loses good _ (λ gone. (leave_removes_self s.db v group u name w h gone).1)

  -- `w` asked itself, or the maker of the group did.
  abbrev MayRemove : ℕ → Type 0
  MayRemove u =
      (u ≡ w) ⊎ ((g : DbGroup) × (get_group_by_name s.db name ≡ ok g) × (g.creator_id ≡ u))

  because : {P Q : Type 0} {r : Server × Reply} → (P → Q) → Loses name w P r → Loses name w Q r
  because f l = record { why = λ gone. f (l.why gone) }

  group_action-Loses :
      (env : Env) (u : ℕ) (body : GroupBody)
      → Loses name w (MayRemove u) (group_action env s u body)
  unfolding group_action
  group_action-Loses env u body =
      let P = Loses name w (MayRemove u) in
      if_answer P (text_eq body.action (bytes "create")) (λ _. create-Loses env body.group_name u)
        (λ _.
          if_answer P (text_eq body.action (bytes "join")) (λ _. join-Loses _ body.group_name u)
            (λ _.
              if_answer P (text_eq body.action (bytes "leave"))
                (λ _. because inl (leave-Loses _ body.group_name u))
                (λ _.
                  if_answer P (text_eq body.action (bytes "invite"))
                    (λ _. invite-Loses body.group_name body.member_name)
                    (λ _.
                      if_answer P (text_eq body.action (bytes "kick"))
                        (λ _. because inr (kick-Loses u body.group_name body.member_name))
                        (λ _. unlost)))))

-- A request of `handleGroup` that takes a member out of a group is made with the token of the member
-- itself or of the user who created the group; every other request, answered or refused, leaves all
-- members in.
pub group_member_removed :
    (env : Env) (s : Server) (body : GroupBody) (name : Text) (w : ℕ)
    → GroupsOk s.db
    → is_member s.db name w ≡ true
    → is_member (handle_group env s (some body)).0.db name w ≡ false
    → (username : Text) × (u : UserPublic) × ((get_username s.sessions env.now body.token).1
        ≡ some username)
      × (get_user_by_username s.db username ≡ ok u)
      × ((u.id ≡ w)
          ⊎ ((g : DbGroup) × (get_group_by_name s.db name ≡ ok g) × (g.creator_id ≡ u.id)))
unfolding handle_group
group_member_removed env s body name w v h gone =
    let owner = (get_username s.sessions env.now body.token).1 in
    let s' : Server = record s { sessions = (get_username s.sessions env.now body.token).0 } in
    let P = Loses name w (
      (username : Text) × (u : UserPublic) × (owner ≡ some username)
      × (get_user_by_username s.db username ≡ ok u)
      × ((u.id ≡ w)
          ⊎ ((g : DbGroup) × (get_group_by_name s.db name ≡ ok g) × (g.creator_id ≡ u.id)))) in
    let whole : P (handle_group env s (some body)) =
      if_answer P (is_blank body.token || is_blank body.action || is_blank body.group_name)
        (λ _. unlost s v name w h)
        (λ _.
          option_answer P owner (λ _. unlost s' v name w h)
            (λ username holds.
              result_answer P (get_user_by_username s.db username) (λ e _. unlost s' v name w h)
                (λ (u : UserPublic) known.
                  because s' v name w h (λ reason. (username, u, holds, known, reason))
                    (group_action-Loses s' v name w h env u.id body)))) in
    whole.why gone
