-- ===== src/Tcp/Frame/Reading.antt =====
-- Frames of rabia-engine/src/network/tcp.rs, written and read back.
use mathlib.Core.Path.{subst}
use rabia.Base.{
  ℕ, zero, suc, ◌+◌, ◌*◌, ◌/◌, ◌%◌, ◌≤◌, ◌<◌, ◌≡◌, refl, sym, ap, ◌∙◌, false, List, [], ◌∷◌, ◌++◌,
  some, ltb, length, take, drop, if_all, arith, length-append, length-take, length-drop,
}
use rabia.Core.Types.{Bytes}
use rabia.Core.Error.{ok, is_ok}
use rabia.Tcp.Frame.{
  MessageFrame, max_payload, new_frame, u32_le, to_bytes, read_exact, with_payload, with_length,
  from_stream,
}

take-all : {A : Type 0} (xs ys : List A) → take (length xs) (xs ++ ys) ≡ xs
take-all [] ys = refl
take-all (x ∷ xs) ys = ap (◌∷◌ x) (take-all xs ys)

drop-all : {A : Type 0} (xs ys : List A) → drop (length xs) (xs ++ ys) ≡ ys
drop-all [] ys = refl
drop-all (x ∷ xs) ys = drop-all xs ys

-- The number in its four bytes.
u32_le-value :
    (n : ℕ)
    → n < 4294967296
    → n % 256 + 256 * (n / 256 % 256) + 65536 * (n / 65536 % 256) + 16777216 * (n / 16777216 % 256)
      ≡ n
u32_le-value n h = omega arith

abbrev pub frame_of : Bytes → MessageFrame
frame_of p = record { frame_length = length p; payload = p }

pub new_frame-fits : (p : Bytes) → length p ≤ max_payload → new_frame p ≡ ok (frame_of p)
new_frame-fits p h =
    if_all (λ r. r ≡ ok (frame_of p)) (ltb max_payload (length p)) _ _ (λ q. absurd (ground arith))
      (λ q.
        ap (λ n. ok (record { frame_length = n; payload = p }))
          (let same : length p % 4294967296 ≡ length p = omega arith in same))

pub new_frame-ok :
    (p : Bytes) (f : MessageFrame)
    → new_frame p ≡ ok f
    → (length p ≤ max_payload) × (f ≡ frame_of p)
new_frame-ok p f h =
    let fits : length p ≤ max_payload = ground (arith, h) in
    let same : ok (frame_of p) ≡ ok f = sym (new_frame-fits p fits) ∙ h in (fits, sym (cc same))

read_exact-all : (p rest : Bytes) → read_exact (length p) (p ++ rest) ≡ some (p, rest)
read_exact-all p rest =
    if_all (λ r. r ≡ some (p, rest)) (ltb (length (p ++ rest)) (length p)) _ _
      (λ q. absurd (ground (arith, length-append p rest)))
      (λ q.
        ap (λ x. some (x, drop (length p) (p ++ rest))) (take-all p rest)
        ∙ ap (λ x. some (p, x)) (drop-all p rest))

with_length-fits :
    (n : ℕ) (s : Bytes)
    → n ≤ max_payload
    → with_length (some (n, s)) ≡ with_payload n (read_exact n s)
with_length-fits n s h =
    if_all (λ r. r ≡ with_payload n (read_exact n s)) (ltb max_payload n) _ _
      (λ q. absurd (ground arith)) (λ q. refl)

-- The four bytes of a length are read back, whatever comes after them.
from_stream-u32_le :
    (n : ℕ) (s : Bytes)
    → n ≤ max_payload
    → from_stream (u32_le n ++ s) ≡ with_payload n (read_exact n s)
unfolding from_stream
from_stream-u32_le n s h =
    ap (λ m. with_length (some (m, s))) (u32_le-value n (omega (arith, h))) ∙ with_length-fits n s h

pub from_stream-frame_of :
    (p rest : Bytes)
    → length p ≤ max_payload
    → from_stream (to_bytes (frame_of p) ++ rest) ≡ ok (frame_of p, rest)
unfolding to_bytes
from_stream-frame_of p rest h =
    from_stream-u32_le (length p) (p ++ rest) h
    ∙ ap (with_payload (length p)) (read_exact-all p rest)

-- A frame of which a part is missing is an error.
pub from_stream-take :
    (p : Bytes) (n : ℕ)
    → length p ≤ max_payload
    → n < 4 + length p
    → is_ok (from_stream (take n (to_bytes (frame_of p)))) ≡ false
unfolding from_stream to_bytes
from_stream-take p zero h l = refl
from_stream-take p (suc zero) h l = refl
from_stream-take p (suc (suc zero)) h l = refl
from_stream-take p (suc (suc (suc zero))) h l = refl
from_stream-take p (suc (suc (suc (suc n)))) h l =
    ap is_ok (from_stream-u32_le (length p) (take n p) h)
    ∙ if_all (λ r. is_ok (with_payload (length p) r) ≡ false) (ltb (length (take n p)) (length p)) _
        _ (λ q. refl) (λ q. absurd (ground (arith, length-take n p)))

pub length-to_bytes : (p : Bytes) → length (to_bytes (frame_of p)) ≡ 4 + length p
unfolding to_bytes
length-to_bytes p = omega arith

-- A payload that `MessageFrame::new` accepts, as its frame is written, is read back as that frame,
-- and what the stream brings after it stays to be read.
pub from_stream-to_bytes :
    (p rest : Bytes) (f : MessageFrame)
    → new_frame p ≡ ok f
    → from_stream (to_bytes f ++ rest) ≡ ok (f, rest)
from_stream-to_bytes p rest f h =
    let r = new_frame-ok p f h in
    subst (λ x. from_stream (to_bytes x ++ rest) ≡ ok (x, rest)) (sym r.1)
      (from_stream-frame_of p rest r.0)

with_payload-consumes :
    (n : ℕ) (s : Bytes) (f : MessageFrame) (rest : Bytes)
    → with_payload n (read_exact n s) ≡ ok (f, rest)
    → length rest ≤ length s
with_payload-consumes n s f rest =
    if_all (λ r. with_payload n r ≡ ok (f, rest) → length rest ≤ length s) (ltb (length s) n) _ _
      (λ q h. absurd (cc h))
      (λ q h. let same : drop n s ≡ rest = cc h in omega (arith, length-drop n s, ap length same))

-- A frame takes at least its length from the stream.
pub from_stream-consumes :
    (s : Bytes) (f : MessageFrame) (rest : Bytes)
    → from_stream s ≡ ok (f, rest)
    → length rest < length s
unfolding from_stream
from_stream-consumes [] f rest h = absurd (cc h)
from_stream-consumes (a ∷ []) f rest h = absurd (cc h)
from_stream-consumes (a ∷ b ∷ []) f rest h = absurd (cc h)
from_stream-consumes (a ∷ b ∷ c ∷ []) f rest h = absurd (cc h)
from_stream-consumes (a ∷ b ∷ c ∷ d ∷ s) f rest h =
    let n = a + 256 * b + 65536 * c + 16777216 * d in
    if_all (λ r. r ≡ ok (f, rest) → length rest < length (a ∷ b ∷ c ∷ d ∷ s)) (ltb max_payload n) _
      _ (λ q e. absurd (cc e)) (λ q e. omega (arith, with_payload-consumes n s f rest e)) h
