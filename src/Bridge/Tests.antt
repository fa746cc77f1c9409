-- ===== src/Bridge/Tests.antt =====
-- A browser's session with three lines waiting, and a message of two lines.
use im_system.Common.{
  ◌≡◌, refl, false, ◌&&◌, not, none, some, List, [], ◌∷◌, ◌++◌, arith, ◌==◌, if◌then◌else◌, Text,
  text_eq, any, take, drop, get_elem?,
}
use im_system.Text.{bytes}
use im_system.Text.Split.{split}
use im_system.Server.{modify}
use im_system.Server.Objects.{applied}
use im_system.Bridge.{
  Session, Bridge, polled, one_line, write, handle_send, handle_poll, get_session,
}
use im_system.Bridge.Lines.{ends_line, send_writes_one_line, poll_takes_first}

abbrev key : Text
key = b'k' ∷ []

abbrev three : List Text
three = bytes "one" ∷ bytes "two" ∷ bytes "three" ∷ []

abbrev browser : Session
browser = record { id = key; messages = three; closed = false; written = [] }

abbrev bridge : Bridge
bridge = record { objects = browser ∷ []; sessions = (key, 0) ∷ [] }

poll_takes_first_example : handle_poll (λ n. false) none key bridge ≡ (
  record bridge { objects = modify 0 (λ s. record s { messages = drop 20 three }) bridge.objects },
  polled (take 20 three),
)
unfolding get_session text_eq
poll_takes_first_example =
    poll_takes_first (λ n. false) none key bridge 0 browser refl refl refl (omega arith)

abbrev two_lines : Text
two_lines = bytes " hello\nwho "

send_writes_one_line_example :
    (get_elem? (handle_send false key (some two_lines) bridge).0.objects 0 ≡ (
      if 0 == 0 && not false && not (text_eq (one_line two_lines) [])
      then applied (write (one_line two_lines ++ 10 ∷ [])) (get_elem? bridge.objects 0)
      else get_elem? bridge.objects 0))
    × (split 10 (one_line two_lines ++ 10 ∷ []) ≡ one_line two_lines ∷ [] ∷ [])
    × (any ends_line (one_line two_lines) ≡ false)
unfolding get_session text_eq
send_writes_one_line_example = send_writes_one_line false key two_lines bridge 0 0 refl
