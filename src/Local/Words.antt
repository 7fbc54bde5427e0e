-- ===== src/Local/Words.antt =====
-- `str::split_whitespace` on a text of Unicode characters, which rabia-core/src/state_machine.rs reads
-- its commands with.
use rabia.Base.{
  ℕ, ◌≡◌, refl, ◌∙◌, ap, Bool, false, ◌&&◌, ◌||◌, List, [], ◌∷◌, ◌++◌, leb, ◌==◌, if◌then◌else◌,
  is_empty, All,
}
use mathlib.Core.List.{append-nil}
use rabia.Base.Text.{Str}

-- The property `White_Space` of Unicode.
abbrev pub is_whitespace : ℕ → Bool
is_whitespace c =
    leb 9 c && leb c 13
    || c == 32
    || c == 133
    || c == 160
    || c == 5760
    || leb 8192 c && leb c 8202
    || leb 8232 c && leb c 8233
    || c == 8239
    || c == 8287
    || c == 12288

-- An empty word is none.
abbrev pub add_word : Str → List Str → List Str
add_word [] ws = ws
add_word (c ∷ w) ws = (c ∷ w) ∷ ws

-- The word that the text starts with, and the words after it.
abbrev pub first_word : Str → Str × List Str
first_word [] = ([], [])
first_word (c ∷ s) =
    let (w, ws) = first_word s in if is_whitespace c then ([], add_word w ws) else (c ∷ w, ws)

unfoldable pub split_whitespace : Str → List Str
split_whitespace s = let (w, ws) = first_word s in add_word w ws

-- Words with a blank before each.
abbrev pub with_blanks : List Str → Str
with_blanks [] = []
with_blanks (w ∷ ws) = 32 ∷ w ++ with_blanks ws

-- Words with a blank between.
abbrev pub join_words : List Str → Str
join_words [] = []
join_words (w ∷ ws) = w ++ with_blanks ws

-- Not empty, and without a blank.
abbrev pub IsWord : Str → Type 0
IsWord w = (is_empty w ≡ false) × All (λ c. is_whitespace c ≡ false) w

first_word-append :
    (w s : Str)
    → All (λ c. is_whitespace c ≡ false) w
    → first_word (w ++ s) ≡ (w ++ (first_word s).0, (first_word s).1)
first_word-append [] s h = refl
first_word-append (c ∷ w) s h =
    ap (λ r. if is_whitespace c then ([], add_word r.0 r.1) else (c ∷ r.0, r.1))
      (first_word-append w s h.1)
    ∙ ap
        (λ b.
          if b
          then ([], add_word (w ++ (first_word s).0) (first_word s).1)
          else (c ∷ w ++ (first_word s).0, (first_word s).1))
        h.0

add_word-IsWord : (w : Str) (ws : List Str) → IsWord w → add_word w ws ≡ w ∷ ws
add_word-IsWord [] ws h = absurd (cc (h.0))
add_word-IsWord (c ∷ w) ws h = refl

first_word-joined :
    (w : Str) (ws : List Str)
    → IsWord w
    → first_word (with_blanks ws) ≡ ([], ws)
    → first_word (w ++ with_blanks ws) ≡ (w, ws)
first_word-joined w ws h e =
    first_word-append w (with_blanks ws) h.1
    ∙ ap (λ r. (w ++ r.0, r.1)) e
    ∙ ap (λ x. (x, ws)) (append-nil w)

first_word-with_blanks : (ws : List Str) → All IsWord ws → first_word (with_blanks ws) ≡ ([], ws)
first_word-with_blanks [] h = refl
first_word-with_blanks (w ∷ ws) h =
    ap (λ r. ([], add_word r.0 r.1)) (first_word-joined w ws h.0 (first_word-with_blanks ws h.1))
    ∙ ap (λ x. ([], x)) (add_word-IsWord w ws h.0)

-- Words joined by blanks are split into the same words.
pub split_whitespace-join_words :
    (ws : List Str) → All IsWord ws → split_whitespace (join_words ws) ≡ ws
unfolding split_whitespace
split_whitespace-join_words [] h = refl
split_whitespace-join_words (w ∷ ws) h =
    ap (λ r. add_word r.0 r.1) (first_word-joined w ws h.0 (first_word-with_blanks ws h.1))
    ∙ add_word-IsWord w ws h.0
