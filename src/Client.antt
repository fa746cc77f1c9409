-- ===== src/Client.antt =====
-- cmd/client/main.go: the lines that the terminal client sends. What the user types is an argument: the
-- list of the results of `fmt.Scanln`, `none` for a call that reads no value and leaves the variable as
-- it was. A loop ends where the list does; the writes to the connection do not fail.
pub mod Login
mod Tests
use im_system.Common.{
  ℕ, ◌==◌, Bool, true, false, not, Option, none, some, List, [], ◌∷◌, ◌++◌, if◌then◌else◌, Text,
  text_eq, ◌||◌, leb, ℤ, pos, negsuc,
}
use im_system.Text.{bytes, contains}

-- fmt.Sprintf("login|%s|%s\n", username, password)
unfoldable pub login_line : Text → Text → Text
unfolding bytes
login_line username password = bytes "login|" ++ (username ++ b'|' ∷ (password ++ 10 ∷ []))

unfoldable pub register_line : Text → Text → Text
unfolding bytes
register_line username password = bytes "register|" ++ (username ++ b'|' ∷ (password ++ 10 ∷ []))

unfoldable pub private_line : Text → Text → Text
unfolding bytes
private_line remote_name chat_msg = bytes "to|" ++ (remote_name ++ b'|' ∷ (chat_msg ++ 10 ∷ []))

unfoldable pub rename_line : Text → Text
unfolding bytes
rename_line name = bytes "rename|" ++ (name ++ 10 ∷ [])

abbrev pub who_line : Text
who_line = bytes "who\n"

pub record Client : Type 0 where
  pub name : Text
  pub authenticated : Bool

-- What a variable holds after `Scanln`.
abbrev pub scanned : Option Text → Text → Text
scanned none kept = kept
scanned (some typed) kept = typed

-- `doLogin` once it has the answer of the server, `none` where the reading fails; with its result.
unfoldable pub do_login : Client → Text → Option Text → Client × Bool
unfolding contains bytes
do_login c username none = (c, false)
do_login c username (some resp) =
    if contains resp (bytes "登录成功")
    then (record { name = username; authenticated = true }, true)
    else (c, false)

unfoldable pub do_register : Option Text → Bool
unfolding contains bytes
do_register none = false
do_register (some resp) = contains resp (bytes "注册成功")

-- The lines of `PublicChat`; the text is `chatMsg`.
unfoldable pub public_chat : Text → List (Option Text) → List Text
public_chat chat_msg [] =
    if text_eq chat_msg (bytes "exit") || text_eq chat_msg []
    then []
    else (chat_msg ++ 10 ∷ []) ∷ []
public_chat chat_msg (typed ∷ more) =
    let rest = public_chat (scanned typed []) more in
    if text_eq chat_msg (bytes "exit")
    then []
    else if text_eq chat_msg []
    then rest
    else (chat_msg ++ 10 ∷ []) ∷ rest

-- `GroupChat`: the line for an action, with the group and the content that the user types.
unfoldable pub group_chat : Text → Text → Text → List Text
unfolding bytes
group_chat action group_name content =
    if text_eq action (bytes "create")
    then (bytes "group|create|" ++ (group_name ++ 10 ∷ [])) ∷ []
    else if text_eq action (bytes "join")
    then (bytes "group|join|" ++ (group_name ++ 10 ∷ [])) ∷ []
    else if text_eq action (bytes "leave")
    then (bytes "group|leave|" ++ (group_name ++ 10 ∷ [])) ∷ []
    else if text_eq action (bytes "send")
    then (bytes "group|send|" ++ (group_name ++ b'|' ∷ (content ++ 10 ∷ []))) ∷ []
    else []

-- What `Privatechat` reads next: the name of whom to write to, or a message for them.
pub data Asking : Type 0 where
  name_asked message_asked : Asking

unfoldable pub private_steps : Asking → Text → Text → List (Option Text) → List Text
unfolding private_line bytes
private_steps asking remote_name chat_msg [] = []
private_steps name_asked remote_name chat_msg (typed ∷ more) =
    let rest = private_steps message_asked (scanned typed remote_name) chat_msg more in
    if text_eq (scanned typed remote_name) (bytes "exit") then [] else rest
private_steps message_asked remote_name chat_msg (typed ∷ more) =
    let left = private_steps name_asked remote_name (scanned typed chat_msg) more in
    let rest = private_steps message_asked remote_name [] more in
    if text_eq (scanned typed chat_msg) (bytes "exit")
    then who_line ∷ left
    else if text_eq (scanned typed chat_msg) []
    then rest
    else private_line remote_name (scanned typed chat_msg) ∷ rest

-- The lines of `Privatechat`.
abbrev pub private_chat : List (Option Text) → List Text
private_chat typed = who_line ∷ private_steps name_asked [] [] typed

-- `menu`: the mode afterwards and whether the choice was one. What is no number counts as 0.
unfoldable pub menu : ℕ → Option ℤ → ℕ × Bool
menu mode none = (0, true)
menu mode (some (pos choice)) = if leb choice 5 then (choice, true) else (mode, false)
menu mode (some (negsuc _)) = (mode, false)
