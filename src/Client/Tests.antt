-- ===== src/Client/Tests.antt =====
-- Ann logs in with the terminal client.
use im_system.Text.Trim.{trim_space}
use im_system.Text.{bytes}
use im_system.Common.{◌≡◌, refl, [], ◌∷◌, any, lookup}
use im_system.Text.Split.{split}
use im_system.RateLimiter.{allow}
use im_system.Db.Samples.{plain_bcrypt, ann, secret}
use im_system.Server.{User, Server}
use im_system.Server.Samples.{idle, at_ten}
use im_system.Server.Presence.{fresh_user}
use im_system.Server.Commands.{read_line, log_in}
use im_system.Client.{login_line}
use im_system.Client.Login.{login_command, client_login_read}

abbrev guest : User
guest = fresh_user (b'1' ∷ [])

abbrev one_there : Server
unfolding idle
one_there = record idle { users = guest ∷ []; online_map = (b'1' ∷ [], 0) ∷ [] }

client_login_read_example :
    (split 10 (login_line ann secret) ≡ login_command ann secret ∷ [] ∷ [])
    × (read_line plain_bcrypt at_ten one_there 0 (login_command ann secret)
        ≡ log_in plain_bcrypt at_ten
            (record one_there {
              tcp_login_limiter = (allow one_there.tcp_login_limiter 10 (b'1' ∷ [])).0;
            })
            0
            guest
            ann
            secret)
unfolding any bytes trim_space one_there allow lookup
client_login_read_example =
    client_login_read plain_bcrypt at_ten one_there 0 guest ann secret refl refl refl refl refl refl
      refl refl refl
