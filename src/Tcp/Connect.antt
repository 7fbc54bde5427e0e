-- ===== src/Tcp/Connect.antt =====
-- `connect_to_peer` of rabia-engine/src/network/tcp.rs, from its loop of attempts. `dials` tells what
-- becomes of an attempt; a delay is in milliseconds, and `scale` is its product with the backoff
-- multiplier, a floating-point number.
pub mod Attempts
use rabia.Base.{ℕ, zero, suc, ◌+◌, List, [], ◌∷◌, min}
use rabia.Core.Error.{RabiaError, network, format, Result, ok, err}
use rabia.Tcp.Handshake.{TcpStream, Greeting}

-- An address is compared only.
abbrev pub SocketAddr : Type 0
SocketAddr = ℕ

pub record RetryConfig : Type 0 where
  pub max_attempts : ℕ
  pub base_delay : ℕ
  pub max_delay : ℕ

-- `RetryConfig::default`
abbrev pub default_retry : RetryConfig
default_retry = record { max_attempts = 5; base_delay = 100; max_delay = 30000 }

-- A stream, an error, or no answer in time.
pub data Dial : Type 0 where
  opened : TcpStream → Dial
  refused : Dial
  timed_out : Dial

-- What comes of it, and the delays that were slept.
pub record Retries : Type 0 where
  pub outcome : Result Greeting
  pub sleeps : List ℕ

abbrev pub stop : Result Greeting → Retries
stop r = record { outcome = r; sleeps = [] }

abbrev pub then_sleep : ℕ → Retries → Retries
then_sleep delay r = record { outcome = r.outcome; sleeps = delay ∷ r.sleeps }

module _ (scale : ℕ → ℕ) (config : RetryConfig) where
  abbrev pub next_delay : ℕ → ℕ
  next_delay delay = min (scale delay) config.max_delay

  -- A handshake that fails is followed by a delay, the last one too.
  abbrev pub after_handshake : (ℕ → Retries) → ℕ → Result Greeting → Retries
  after_handshake go delay (ok g) = stop (ok g)
  after_handshake go delay (err e) = then_sleep delay (go (next_delay delay))

  -- Any other failure is, unless no attempt is left.
  abbrev pub after_failure : (ℕ → Retries) → ℕ → ℕ → Retries
  after_failure go zero delay = go delay
  after_failure go (suc left) delay = then_sleep delay (go (next_delay delay))

  abbrev pub after_dial : (TcpStream → Result Greeting) → (ℕ → Retries) → ℕ → ℕ → Dial → Retries
  after_dial greet go left delay (opened s) = after_handshake go delay (greet s)
  after_dial greet go left delay refused = after_failure go left delay
  after_dial greet go left delay timed_out = after_failure go left delay

  -- The loop, with the attempts that are left and those that were made.
  abbrev pub try_connect :
      (TcpStream → Result Greeting) → (ℕ → Dial) → SocketAddr → ℕ → ℕ → ℕ → Retries
  try_connect greet dials addr zero attempts delay =
      stop
        (err (network (format "Failed to connect to {} after {} attempts" (addr ∷ attempts ∷ []))))
  try_connect greet dials addr (suc left) attempts delay =
      after_dial greet (try_connect greet dials addr left (attempts + 1)) left delay
        (dials attempts)

  unfoldable pub connect : (TcpStream → Result Greeting) → (ℕ → Dial) → SocketAddr → Retries
  connect greet dials addr = try_connect greet dials addr config.max_attempts 0 config.base_delay
