-- ===== src/Ws.antt =====
-- The two ends of a WebSocket that tmp/ holds to try a tunnel with: ws-client.js, which says hello
-- and waits for the echo, and ws-mock-server.js, which echoes. Texts are code points, binary data
-- bytes; what `JSON.stringify` makes of the server's two objects is a parameter.
pub mod Laws
pub mod Session
use http_tunnels.Prelude.{
  ℕ, ◌+◌, ◌/◌, ◌%◌, Bool, true, false, ◌&&◌, ◌||◌, Option, none, some, String, List, [], ◌∷◌, ◌++◌,
  if◌then◌else◌, ltb, ◌==◌, codes, show_nat, flat_map, same_text, nonempty, ◌-◌,
}

pub data Message : Type 0 where
  text : List ℕ → Message
  binary : List ℕ → Message

-- The bytes in hexadecimal, `data.toString('hex')`.
abbrev hex_digit : ℕ → ℕ
hex_digit d = if ltb d 10 then b'0' + d else b'a' + (d - 10)

abbrev to_hex : List ℕ → List ℕ
to_hex bytes = flat_map (λ b. hex_digit (b / 16) ∷ hex_digit (b % 16) ∷ []) bytes

-- `startsWith` and `includes`
unfoldable pub starts : List ℕ → List ℕ → Bool
starts cs [] = true
starts [] (p ∷ ps) = false
starts (c ∷ cs) (p ∷ ps) = c == p && starts cs ps

unfoldable pub includes : List ℕ → List ℕ → Bool
includes [] ps = starts [] ps
includes (c ∷ cs) ps = let later = includes cs ps in starts (c ∷ cs) ps || later

-- The client: what its process does before it connects.
pub data Start : Type 0 where
  usage : ℕ → Start
  connect : String → Option String → Start

abbrev host_of : List String → Option String
host_of [] = none
host_of (host ∷ rest) = if nonempty host then some host else none

-- `client_start` takes the arguments behind the program's name.
unfoldable client_start : List String → Start
client_start [] = usage 2
client_start (target ∷ rest) = if nonempty target then connect target (host_of rest) else usage 2

pub data ClientEvent : Type 0 where
  opened : ClientEvent
  message : Message → ClientEvent
  closed : ℕ → List ℕ → ClientEvent
  error : List ℕ → ClientEvent

-- `exit_later` is the timer that `finish` sets, which exits with the code.
pub data ClientEffect : Type 0 where
  log log_error : List (List ℕ) → ClientEffect
  send : Message → ClientEffect
  close : ℕ → List ℕ → ClientEffect
  exit_later : ℕ → ClientEffect

pub record Client : Type 0 where
  pub done : Bool

abbrev pub new_client : Client
new_client = record { done = false }

abbrev finish : Client → ℕ → Client × List ClientEffect
finish c code = if c.done then (c, []) else (record c { done = true }, exit_later code ∷ [])

abbrev pub shown_text : Message → List ℕ
shown_text (text t) = t
shown_text (binary bytes) = to_hex bytes

pub client_step : Client → ClientEvent → Client × List ClientEffect
client_step c opened = (c, log (codes "OPEN" ∷ []) ∷ send (text (codes "hello")) ∷ [])
client_step c (message m) = (
  c,
  log (codes "MESSAGE" ∷ shown_text m ∷ [])
      ∷ (if includes (shown_text m) (codes "echo:hello")
          then close 1000 (codes "done") ∷ []
          else []),
)
client_step c (closed code reason) =
    let (c', effects) = finish c 0 in
    (c', log (codes "CLOSE" ∷ codes (show_nat code) ∷ reason ∷ []) ∷ effects)
client_step c (error m) =
    let (c', effects) = finish c 1 in (c', log_error (codes "ERROR" ∷ m ∷ []) ∷ effects)

pub client_run : Client → List ClientEvent → Client × List ClientEffect
client_run c [] = (c, [])
client_run c (e ∷ es) =
    let (c', now) = client_step c e in let (c'', later) = client_run c' es in (c'', now ++ later)

-- The server. `health` and `welcome` print its two objects, of the port and of the path.
pub record Json : Type 0 where
  pub health : ℕ → List ℕ
  pub welcome : List ℕ → List ℕ

pub record HttpReply : Type 0 where
  pub status : ℕ
  pub content_type : String
  pub body : List ℕ

pub data UpgradeReply : Type 0 where
  upgraded : UpgradeReply
  destroyed : List ℕ → UpgradeReply

pub data ServerEvent : Type 0 where
  connection : List ℕ → ServerEvent
  received : Message → ServerEvent
  pinged : List ℕ → ServerEvent

pub data ServerEffect : Type 0 where
  sent : Message → ServerEffect
  pong : List ℕ → ServerEffect

unfoldable upgrade : List ℕ → UpgradeReply
upgrade url =
    if starts url (codes "/ws")
    then upgraded
    else destroyed (codes "HTTP/1.1 404 Not Found" ++ 13 ∷ 10 ∷ 13 ∷ 10 ∷ [])

module _ (json : Json) where
  unfoldable pub serve_http : ℕ → List ℕ → HttpReply
  serve_http port url =
      if same_text url (codes "/health")
      then record { status = 200; content_type = "application/json"; body = json.health port }
      else record { status = 200; content_type = "text/plain"; body = codes "ws-mock-server" }

  pub server_step : ServerEvent → List ServerEffect
  server_step (connection url) = sent (text (json.welcome url)) ∷ []
  server_step (received (binary bytes)) = sent (binary (codes "echo:" ++ bytes)) ∷ []
  server_step (received (text t)) = sent (text (codes "echo:" ++ t)) ∷ []
  server_step (pinged bytes) = pong bytes ∷ []
