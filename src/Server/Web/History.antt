-- ===== src/Server/Web/History.antt =====
-- internal/server/web.go: `handleHistory` and `handleSearch`. The texts are the values of the query.
pub mod Pages
use Prim.Native.Nat.{min}
use im_system.Common.{ℕ, zero, suc, Option, none, some, [], if◌then◌else◌, Text, text_eq, to_nat}
use im_system.Text.{bytes}
use im_system.Text.Trim.{trim_space}
use im_system.Text.Atoi.{atoi}
use im_system.Db.Messages.{
  OrderBy, get_public_messages, get_group_messages, get_private_messages, search_messages,
}
use im_system.Server.{Server}
use im_system.Server.Web.{Reply, bad_request, method_not_allowed, messages_found, is_blank}

-- The number of a query value, if there is one and it is positive.
unfoldable pub positive_number : Text → Option ℕ
unfolding trim_space atoi
positive_number raw = if text_eq (trim_space raw) [] then none else elim (atoi (trim_space raw)) [
  | none ↦ none
  | some n ↦ elim (to_nat n) [ zero ↦ none | suc k ↦ some (suc k) ]
]

-- `limit` of a request: a default, or the number asked for up to a maximum.
unfoldable pub page_limit : ℕ → ℕ → Text → ℕ
unfolding positive_number
page_limit default most raw = elim (positive_number raw) [ none ↦ default | some n ↦ min n most ]

-- `beforeID`, 0 where the query asks for none.
unfoldable pub before_id : Text → ℕ
unfolding positive_number
before_id raw = elim (positive_number raw) [ none ↦ 0 | some n ↦ n ]

pub record HistoryQuery : Type 0 where
  pub kind : Text
  pub group : Text
  pub peer : Text
  pub limit : Text
  pub before : Text

module _ (o : OrderBy) where
  -- The handler behind `authQueryMiddleware`, which gives it the user's name.
  unfoldable pub handle_history : Text → HistoryQuery → Server → Text → Server × Reply
  unfolding page_limit before_id get_public_messages get_group_messages get_private_messages
  handle_history method q s username =
      let limit = page_limit s.history_limit s.history_max q.limit in
      let before = before_id q.before in
      if text_eq method (bytes "GET")
      then (if text_eq q.kind (bytes "group")
          then (if is_blank q.group
              then (s, bad_request (bytes "缺少 group 参数"))
              else (s, messages_found (get_group_messages o s.db q.group limit before)))
          else if text_eq q.kind (bytes "private")
          then (if is_blank q.peer
              then (s, bad_request (bytes "缺少 peer 参数"))
              else (s, messages_found (get_private_messages o s.db username q.peer limit before)))
          else (s, messages_found (get_public_messages o s.db limit before)))
      else (s, method_not_allowed (bytes "只支持 GET"))

  -- It asks for no login.
  unfoldable pub handle_search : Server → Text → Text → Server × Reply
  unfolding trim_space page_limit search_messages
  handle_search s q raw_limit =
      if text_eq (trim_space q) []
      then (s, bad_request (bytes "缺少搜索关键词"))
      else (s, messages_found (search_messages o s.db (trim_space q) (page_limit 50 100 raw_limit)))
