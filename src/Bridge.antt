-- ===== src/Bridge.antt =====
-- cmd/web/main.go: the web server that keeps a TCP connection to the chat server for each browser. A
-- `*session` is its index in `objects`. The dialling, the socket and the random choice of a `select`
-- with two ready cases are arguments. Each handler is one step.
pub mod Lines
mod Tests
use im_system.Common.{
  ℕ, zero, suc, ◌+◌, ◌==◌, Bool, true, false, ◌&&◌, ◌||◌, not, Option, none, some, List, [], ◌∷◌,
  ◌++◌, map, reverse, leb, ltb, if◌then◌else◌, Text, text_eq, Assoc, lookup, insert, without,
  length, get_elem?,
}
use im_system.Text.{bytes}
use im_system.Text.Trim.{trim_space}
use im_system.Server.{modify}

-- `written` is what has gone to the chat server, a text for each call.
pub record Session : Type 0 where
  pub id : Text
  pub messages : List Text
  pub closed : Bool
  pub written : List Text

pub record Bridge : Type 0 where
  pub objects : List Session
  pub sessions : Assoc ℕ

pub data Answer : Type 0 where
  bad_gateway unauthorized bad_request : Text → Answer
  connected : Text → Answer
  ok : Answer
  polled : List Text → Answer

-- `make(chan string, 256)`
abbrev pub message_buffer : ℕ
message_buffer = 256

abbrev pub new_session : Text → Session
new_session id = record { id = id; messages = []; closed = false; written = [] }

-- The first argument is the error of `net.Dial`, the second the id that is drawn.
unfoldable pub handle_connect : Option Text → Text → Bridge → Bridge × Answer
unfolding insert
handle_connect (some e) id w = (w, bad_gateway (bytes "connect tcp failed: " ++ e))
handle_connect none id w = (
  record w {
    objects = w.objects ++ new_session id ∷ [];
    sessions = insert id (length w.objects) w.sessions;
  },
  connected id,
)

abbrev pub close_session : Session → Session
close_session s = record s { closed = true }

-- strings.TrimRight(line, "\r\n")
drop_line_end : Text → Text
drop_line_end [] = []
drop_line_end (c ∷ s) = if c == 13 || c == 10 then drop_line_end s else c ∷ s

unfoldable pub trim_line_end : Text → Text
unfolding drop_line_end
trim_line_end line = reverse (drop_line_end (reverse line))

-- A line for the browser. `drops` is the choice of the `select` when the session is closed; `none`
-- while the channel is full and the goroutine waits.
unfoldable pub queue_line : Bool → Text → Session → Option Session
queue_line drops line s =
    if s.closed && drops
    then some s
    else if ltb (length s.messages) message_buffer
    then some (record s { messages = s.messages ++ line ∷ [] })
    else if s.closed
    then some s
    else none

-- One round of `readTCPToChannel`: a line with its end, or the error of `ReadString`.
unfoldable pub read_round : Bool → Option Text → Session → Option Session
unfolding trim_line_end queue_line
read_round drops none s = some (close_session s)
read_round drops (some line) s =
    if text_eq (trim_line_end line) [] then some s else queue_line drops (trim_line_end line) s

unfoldable pub get_session : Bridge → Text → Option ℕ
unfolding lookup
get_session w id = lookup id w.sessions

abbrev pub one_space : ℕ → ℕ
one_space c = if c == 10 || c == 13 then b' ' else c

-- The message as one line, without its end.
unfoldable pub one_line : Text → Text
unfolding trim_space
one_line message = map one_space (trim_space message)

abbrev pub write : Text → Session → Session
write line s = record s { written = s.written ++ line ∷ [] }

-- `broken` is whether the write to the connection fails.
unfoldable pub handle_send : Bool → Text → Option Text → Bridge → Bridge × Answer
unfolding get_session one_line modify
handle_send broken id body w = elim (get_session w id) [
  | none ↦ (w, unauthorized (bytes "invalid session"))
  | some p ↦ elim body [
    | none ↦ (w, bad_request (bytes "bad payload"))
    | some message ↦
        let msg = one_line message in
        if text_eq msg []
        then (w, ok)
        else if broken
        then (w, bad_gateway (bytes "send failed"))
        else (record w { objects = modify p (write (msg ++ 10 ∷ [])) w.objects }, ok)
  ]
]

abbrev pub poll_limit : ℕ
poll_limit = 20

-- The loop `collect` on a queue, with what it leaves. `breaks` says for each number of messages which
-- case `select` takes when the session is closed and a message is there; `arrives` is the message that
-- ends the wait of an empty round, `none` where the timer or the end of the session does.
unfoldable pub collect : Bool → (ℕ → Bool) → Option Text → ℕ → List Text → List Text × List Text
collect closed breaks arrives n [] =
    if closed || not (n == 0)
    then ([], [])
    else elim arrives [ none ↦ ([], []) | some m ↦ (m ∷ [], []) ]
collect closed breaks arrives n (m ∷ queue) =
    let (msgs, rest) = collect closed breaks arrives (suc n) queue in
    if closed && breaks n
    then ([], m ∷ queue)
    else if leb poll_limit (suc n)
    then (m ∷ [], queue)
    else (m ∷ msgs, rest)

unfoldable pub handle_poll : (ℕ → Bool) → Option Text → Text → Bridge → Bridge × Answer
unfolding get_session collect modify
handle_poll breaks arrives id w = elim (get_session w id) [
  | none ↦ (w, unauthorized (bytes "invalid session"))
  | some p ↦ elim (get_elem? w.objects p) [
    | none ↦ (w, polled [])
    | some s ↦
        let (msgs, rest) = collect s.closed breaks arrives 0 s.messages in
        (record w { objects = modify p (λ s. record s { messages = rest }) w.objects }, polled msgs)
  ]
]

unfoldable pub handle_close : Text → Bridge → Bridge × Answer
unfolding get_session without modify
handle_close id w = elim (get_session w id) [
  | none ↦ (w, ok)
  | some p ↦ (
    record w { objects = modify p close_session w.objects; sessions = without id w.sessions },
    ok,
  )
]
