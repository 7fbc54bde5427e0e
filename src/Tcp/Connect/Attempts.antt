-- ===== src/Tcp/Connect/Attempts.antt =====
-- The attempts to connect, in rabia-engine/src/network/tcp.rs.
use rabia.Base.{
  ℕ, zero, suc, ◌+◌, ◌≤◌, ◌≡◌, ap, ◌∙◌, refl, List, [], ◌∷◌, Option, none, some, max, length, All,
  arith,
}
use rabia.Core.Error.{network, format, Result, ok, err}
use rabia.Tcp.Handshake.{TcpStream, Greeting}
use rabia.Tcp.Connect.{
  SocketAddr, RetryConfig, Dial, opened, refused, timed_out, Retries, then_sleep, next_delay,
  after_handshake, after_failure, after_dial, try_connect, connect,
}

abbrev pub greeting : Result Greeting → Option Greeting
greeting (ok g) = some g
greeting (err e) = none

abbrev pub greeted : (TcpStream → Result Greeting) → Dial → Option Greeting
greeted greet (opened s) = greeting (greet s)
greeted greet refused = none
greeted greet timed_out = none

abbrev pub or_later : Option Greeting → Option Greeting → Option Greeting
or_later (some g) o = some g
or_later none o = o

-- The first attempt that leads to a handshake, among `left` of them from the k-th.
abbrev pub first_greeted : (TcpStream → Result Greeting) → (ℕ → Dial) → ℕ → ℕ → Option Greeting
first_greeted greet dials zero k = none
first_greeted greet dials (suc left) k =
    or_later (greeted greet (dials k)) (first_greeted greet dials left (k + 1))

abbrev pub or_failed : SocketAddr → ℕ → Option Greeting → Result Greeting
or_failed addr n (some g) = ok g
or_failed addr n none =
    err (network (format "Failed to connect to {} after {} attempts" (addr ∷ n ∷ [])))

-- At most so many delays, none above a bound.
abbrev pub Paced : ℕ → ℕ → List ℕ → Type 0
Paced n bound sleeps = (length sleeps ≤ n) × All (λ d. d ≤ bound) sleeps

module _ (scale : ℕ → ℕ) (config : RetryConfig) (greet : TcpStream → Result Greeting)
    (dials : ℕ → Dial) (addr : SocketAddr) where
  after_failure-outcome :
      (go : ℕ → Retries) (left delay : ℕ) (r : Result Greeting)
      → ((d : ℕ) → (go d).outcome ≡ r)
      → (after_failure scale config go left delay).outcome ≡ r
  after_failure-outcome go zero delay r h = h delay
  after_failure-outcome go (suc left) delay r h = h (next_delay scale config delay)

  after_handshake-outcome :
      (go : ℕ → Retries) (delay n : ℕ) (o : Option Greeting) (r : Result Greeting)
      → ((d : ℕ) → (go d).outcome ≡ or_failed addr n o)
      → (after_handshake scale config go delay r).outcome
        ≡ or_failed addr n (or_later (greeting r) o)
  after_handshake-outcome go delay n o (ok g) h = refl
  after_handshake-outcome go delay n o (err e) h = h (next_delay scale config delay)

  after_dial-outcome :
      (go : ℕ → Retries) (left delay n : ℕ) (o : Option Greeting) (d : Dial)
      → ((e : ℕ) → (go e).outcome ≡ or_failed addr n o)
      → (after_dial scale config greet go left delay d).outcome
        ≡ or_failed addr n (or_later (greeted greet d) o)
  after_dial-outcome go left delay n o (opened s) h =
      after_handshake-outcome go delay n o (greet s) h
  after_dial-outcome go left delay n o refused h = after_failure-outcome go left delay _ h
  after_dial-outcome go left delay n o timed_out h = after_failure-outcome go left delay _ h

  try_connect-outcome :
      (left k delay : ℕ)
      → (try_connect scale config greet dials addr left k delay).outcome
        ≡ or_failed addr (k + left) (first_greeted greet dials left k)
  try_connect-outcome zero k delay =
      ap (λ n. or_failed addr n none) (let same : k ≡ k + 0 = omega arith in same)
  try_connect-outcome (suc left) k delay =
      after_dial-outcome (try_connect scale config greet dials addr left (k + 1)) left delay
        (k + suc left) (first_greeted greet dials left (k + 1)) (dials k)
        (λ d.
          try_connect-outcome left (k + 1) d
          ∙ ap (λ n. or_failed addr n (first_greeted greet dials left (k + 1)))
              (let same : k + 1 + left ≡ k + suc left = omega arith in same))

  -- A connection is made by the first of the attempts that reaches the peer and shakes hands with it,
  -- of as many as are configured; if none does, the error names the address and that number.
  pub connect-outcome :
      (connect scale config greet dials addr).outcome
      ≡ or_failed addr config.max_attempts (first_greeted greet dials config.max_attempts 0)
  unfolding connect
  connect-outcome =
      try_connect-outcome config.max_attempts 0 config.base_delay
      ∙ ap (λ n. or_failed addr n (first_greeted greet dials config.max_attempts 0))
          (let same : 0 + config.max_attempts ≡ config.max_attempts = omega arith in same)

  abbrev bound : ℕ
  bound = max config.base_delay config.max_delay

  then_sleep-Paced :
      (n delay : ℕ) (r : Retries)
      → delay ≤ bound
      → Paced n bound r.sleeps
      → Paced (suc n) bound (then_sleep delay r).sleeps
  then_sleep-Paced n delay r h p = (omega (arith, p.0), (h, p.1))

  after_failure-Paced :
      (go : ℕ → Retries) (left n delay : ℕ)
      → delay ≤ bound
      → ((d : ℕ) → d ≤ bound → Paced n bound (go d).sleeps)
      → Paced (suc n) bound (after_failure scale config go left delay).sleeps
  after_failure-Paced go zero n delay h p = let q = p delay h in (omega (arith, q.0), q.1)
  after_failure-Paced go (suc left) n delay h p =
      then_sleep-Paced n delay (go (next_delay scale config delay)) h
        (p (next_delay scale config delay) (ground arith))

  after_handshake-Paced :
      (go : ℕ → Retries) (n delay : ℕ) (r : Result Greeting)
      → delay ≤ bound
      → ((d : ℕ) → d ≤ bound → Paced n bound (go d).sleeps)
      → Paced (suc n) bound (after_handshake scale config go delay r).sleeps
  after_handshake-Paced go n delay (ok g) h p = (omega arith, tt)
  after_handshake-Paced go n delay (err e) h p =
      then_sleep-Paced n delay (go (next_delay scale config delay)) h
        (p (next_delay scale config delay) (ground arith))

  after_dial-Paced :
      (go : ℕ → Retries) (left n delay : ℕ) (d : Dial)
      → delay ≤ bound
      → ((e : ℕ) → e ≤ bound → Paced n bound (go e).sleeps)
      → Paced (suc n) bound (after_dial scale config greet go left delay d).sleeps
  after_dial-Paced go left n delay (opened s) h p = after_handshake-Paced go n delay (greet s) h p
  after_dial-Paced go left n delay refused h p = after_failure-Paced go left n delay h p
  after_dial-Paced go left n delay timed_out h p = after_failure-Paced go left n delay h p

  try_connect-Paced :
      (left k delay : ℕ)
      → delay ≤ bound
      → Paced left bound (try_connect scale config greet dials addr left k delay).sleeps
  try_connect-Paced zero k delay h = (omega arith, tt)
  try_connect-Paced (suc left) k delay h =
      after_dial-Paced (try_connect scale config greet dials addr left (k + 1)) left left delay
        (dials k) h (λ d q. try_connect-Paced left (k + 1) d q)

  -- Between the attempts it sleeps at most as many times as there are attempts, whatever the product
  -- with the multiplier is, and never longer than the larger of the first and the greatest delay.
  pub connect-Paced :
      Paced config.max_attempts
        (max config.base_delay config.max_delay)
        (connect scale config greet dials addr).sleeps
  unfolding connect
  connect-Paced = try_connect-Paced config.max_attempts 0 config.base_delay (ground arith)
