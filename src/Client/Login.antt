-- ===== src/Client/Login.antt =====
-- cmd/client/main.go and internal/server/user.go: the client's login as the server reads it.
use im_system.Common.{
  ℕ, ◌==◌, ◌≡◌, refl, sym, ap, ◌∙◌, Bool, true, false, some, [], ◌∷◌, ◌++◌, Text, text_eq, any,
  append_assoc, get_elem?,
}
use im_system.Text.{bytes, has_prefix}
use im_system.Text.Trim.{trim_space}
use im_system.Text.Split.{split, split-append, split_whole}
use im_system.RateLimiter.{allow}
use im_system.Db.Users.{Bcrypt}
use im_system.Server.{User, Server, Env}
use im_system.Server.Commands.{
  two_arguments, log_in, guest_message, do_message, read_line, with_user,
}
use im_system.Client.{login_line}

-- The bar that separates the parts.
abbrev pub has_bar : Text → Bool
has_bar s = any (λ c. c == b'|') s

-- The line without its end.
abbrev pub login_command : Text → Text → Text
login_command username password = bytes "login|" ++ (username ++ b'|' ∷ password)

split-login :
    (username password : Text)
    → has_bar username ≡ false
    → has_bar password ≡ false
    → split b'|' (login_command username password) ≡ bytes "login" ∷ username ∷ password ∷ []
unfolding any bytes
split-login username password u p =
    split-append b'|' (bytes "login") (username ++ b'|' ∷ password) refl
    ∙ ap (λ r. bytes "login" ∷ r)
        (split-append b'|' username password u
          ∙ ap (λ r. username ∷ r) (split_whole b'|' password p))

login_line-command :
    (username password : Text)
    → login_line username password ≡ login_command username password ++ 10 ∷ []
unfolding login_line bytes
login_line-command username password =
    ap (λ r. bytes "login|" ++ r) (sym (append_assoc username (b'|' ∷ password) (10 ∷ [])))

login_prefix :
    (username password : Text)
    → has_prefix (login_command username password) (bytes "login|") ≡ true
unfolding has_prefix bytes
login_prefix username password = refl

login_filled : (username password : Text) → text_eq (login_command username password) [] ≡ false
unfolding text_eq bytes
login_filled username password = refl

login_arguments :
    (username password : Text)
    → has_bar username ≡ false
    → has_bar password ≡ false
    → trim_space username ≡ username
    → trim_space password ≡ password
    → two_arguments (split b'|' (login_command username password)) ≡ some (username, password)
unfolding two_arguments
login_arguments username password u p whole_name whole_password =
    rw (split-login username password u p, whole_name, whole_password) refl

guest_logs_in :
    (b : Bcrypt) (env : Env) (s : Server) (p : ℕ) (u : User) (username password : Text)
    → two_arguments (split b'|' (login_command username password)) ≡ some (username, password)
    → (allow s.tcp_login_limiter env.now u.addr).1 ≡ true
    → guest_message b env s p u (login_command username password)
      ≡ log_in b env
          (record s { tcp_login_limiter = (allow s.tcp_login_limiter env.now u.addr).0 })
          p
          u
          username
          password
unfolding guest_message
guest_logs_in b env s p u username password arguments pass =
    rw (guest_message, login_prefix username password, pass, arguments) refl

module _ (b : Bcrypt) (env : Env) (s : Server) (p : ℕ) where
  reads :
      (line msg : Text)
      → trim_space line ≡ msg
      → text_eq msg [] ≡ false
      → read_line b env s p line ≡ do_message b env s p msg
  unfolding read_line
  reads line msg trimmed filled = rw (read_line, trimmed, filled) refl

  guest_does :
      (u : User) (msg : Text)
      → get_elem? s.users p ≡ some u
      → u.is_authenticated ≡ false
      → do_message b env s p msg ≡ guest_message b env s p u msg
  unfolding do_message with_user
  guest_does u msg there guest = rw (do_message, with_user, there) (simp guest refl)

-- A line that the client sends for a login reaches the server as one line, and the server, where the
-- connection has not logged in and the limiter lets it pass, makes of it the login with that name and
-- that password. The name and the password have no bar, line end or space around them, as `Scanln`
-- reads them.
pub client_login_read :
    (b : Bcrypt) (env : Env) (s : Server) (p : ℕ) (u : User) (username password : Text)
    → has_bar username ≡ false
    → has_bar password ≡ false
    → any (λ c. c == 10) (login_command username password) ≡ false
    → trim_space username ≡ username
    → trim_space password ≡ password
    → trim_space (login_command username password) ≡ login_command username password
    → get_elem? s.users p ≡ some u
    → u.is_authenticated ≡ false
    → (allow s.tcp_login_limiter env.now u.addr).1 ≡ true
    → (split 10 (login_line username password) ≡ login_command username password ∷ [] ∷ [])
      × (read_line b env s p (login_command username password)
          ≡ log_in b env
              (record s { tcp_login_limiter = (allow s.tcp_login_limiter env.now u.addr).0 })
              p
              u
              username
              password)
unfolding split
client_login_read b env s p u username password no_bar plain one whole_name whole_password whole
      there guest pass =
    (
      ap (split 10) (login_line-command username password)
          ∙ split-append 10 (login_command username password) [] one,
      reads b env s p _ _ whole (login_filled username password)
          ∙ guest_does b env s p u _ there guest
          ∙ guest_logs_in b env s p u username password
              (login_arguments username password no_bar plain whole_name whole_password) pass,
    )
