-- ===== src/Server/Construct/Tests.antt =====
-- A server with the default configuration: a connection arrives and logs in, a session is asked for
-- over HTTP, and the sessions are tidied up.
use im_system.Common.{true, refl, some, [], ◌∷◌, text_eq, lookup, insert, without, retain}
use im_system.Text.{bytes}
use im_system.Db.Samples.{plain_bcrypt, by_time, ann, secret, history, start}
use im_system.Config.{default_config}
use im_system.Server.{Server}
use im_system.Server.Samples.{at_ten}
use im_system.Server.Live.{Live}
use im_system.Server.Broadcast.{sys_online}
use im_system.Server.Commands.{connect, read_line}
use im_system.Server.Commands.Reachable.{stays, goes_on, connects, says, requests, tidies_up}
use im_system.Server.Construct.{new_server, cleanup_sessions}
use im_system.Server.Construct.Runs.{server_stays-Live}
use im_system.Server.Web.Routes.{Request, login, serve}

abbrev fresh : Server
unfolding new_server default_config
fresh = new_server default_config start []

abbrev one_there : Server
unfolding connect fresh
one_there = (connect at_ten fresh (b'1' ∷ [])).0

abbrev logged_in : Server
unfolding read_line one_there
logged_in = read_line plain_bcrypt at_ten one_there 0 (bytes "login|ann|secret")

abbrev post : Request
post = record {
  method = bytes "POST";
  authorization = [];
  forwarded_for = [];
  real_ip = [];
  remote_addr = bytes "10.0.0.1:4000";
  query_token = [];
}

abbrev with_token : Server
unfolding serve logged_in
with_token =
    (serve plain_bcrypt by_time at_ten logged_in post
      (login (some (ann, secret)) (some (b't' ∷ [])))).0

server_stays-Live_example : Live (cleanup_sessions at_ten with_token)
unfolding fresh one_there logged_in with_token start lookup connect text_eq sys_online insert
    without retain read_line
server_stays-Live_example =
    server_stays-Live plain_bcrypt default_config true history []
      (cleanup_sessions at_ten with_token)
      (goes_on
        (goes_on
          (goes_on (goes_on stays (connects at_ten (b'1' ∷ []) refl)) (
            says at_ten 0 _ (bytes "login|ann|secret")
              (record { is_there = refl; is_open = refl })))
          (requests by_time at_ten post (login (some (ann, secret)) (some (b't' ∷ [])))))
        (tidies_up at_ten))
