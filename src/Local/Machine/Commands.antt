-- ===== src/Local/Machine/Commands.antt =====
-- The commands of `InMemoryStateMachine` (rabia-core/src/state_machine.rs) as operations on a function
-- from keys to values.
use mathlib.Core.Path.{fun_ext, subst}
use rabia.Base.{
  ℕ, ◌≡◌, refl, sym, ◌∙◌, ap, Bool, true, false, List, [], ◌∷◌, Option, none, some, is_some,
  if◌then◌else◌, if_all, All,
}
use rabia.Base.Dict
use rabia.Base.Dict.{
  Dict, text_key, bytes_eq, bytes_eq_iff, insert, remove, NoRepeat, get-insert, get-remove,
  insert-NoRepeat, remove-NoRepeat,
}
use rabia.Base.Text.{Str, bytes}
use rabia.Core.Types.{Bytes, Command}
use rabia.Core.Error.{Result, ok, err}
use rabia.Engine.Runtime.{apply_commands}
use rabia.Local.Words.{split_whitespace, join_words, IsWord, split_whitespace-join_words}
use rabia.Local.Machine.{
  InMemoryStateMachine, apply_words, apply_text, count_version, local_machine,
}

pub data TextCommand : Type 0 where
  set : Str → Str → TextCommand
  get : Str → TextCommand
  delete : Str → TextCommand

-- The words of a command.
abbrev pub words_of : TextCommand → List Str
words_of (set k v) = bytes "SET" ∷ k ∷ v ∷ []
words_of (get k) = bytes "GET" ∷ k ∷ []
words_of (delete k) = bytes "DEL" ∷ k ∷ []

abbrev pub View : Type 0
View = Str → Option Bytes

abbrev pub view : InMemoryStateMachine → View
view s k = Dict.get k s.state

is_some-none : (o : Option Bytes) → is_some o ≡ false → o ≡ none
is_some-none none h = refl
is_some-none (some v) h = absurd (cc h)

module _ (utf8 : Str → Bytes) where
  abbrev pub answer_of : Option Bytes → Bytes
  answer_of (some v) = v
  answer_of none = utf8 (bytes "NOT_FOUND")

  -- What a command does to a function.
  abbrev pub spec_one : TextCommand → View → Bytes × View
  spec_one (set k v) f = (utf8 (bytes "OK"), λ j. if bytes_eq j k then some (utf8 v) else f j)
  spec_one (get k) f = (answer_of (f k), f)
  spec_one (delete k) f = (
    if is_some (f k) then utf8 (bytes "OK") else utf8 (bytes "NOT_FOUND"),
    λ j. if bytes_eq j k then none else f j,
  )

  abbrev pub spec_all : List TextCommand → View → List Bytes × View
  spec_all [] f = ([], f)
  spec_all (c ∷ cs) f = let (r, g) = spec_one c f in let (rs, h) = spec_all cs g in (r ∷ rs, h)

  -- The answer, the values seen afterwards, and no key twice.
  record Does (spec : Bytes × View) (r : Bytes × InMemoryStateMachine) : Type 0 where
    answered : r.0 ≡ spec.0
    seen : view r.1 ≡ spec.1
    distinct : NoRepeat r.1.state

  get_word-Does :
      (o : Option Bytes) (k : Str) (s : InMemoryStateMachine)
      → NoRepeat s.state
      → Does
          (answer_of o, view s)
          (elim o [ some value ↦ (value, s) | none ↦ (utf8 (bytes "NOT_FOUND"), s) ])
  get_word-Does (some v) k s h = record { answered = refl; seen = refl; distinct = h }
  get_word-Does none k s h = record { answered = refl; seen = refl; distinct = h }

  delete-Does :
      (b : Bool) (k : Str) (s : InMemoryStateMachine)
      → is_some (Dict.get k s.state) ≡ b
      → NoRepeat s.state
      → Does
          (
            if b then utf8 (bytes "OK") else utf8 (bytes "NOT_FOUND"),
            λ j. if bytes_eq j k then none else view s j,
          )
          (if b
            then (utf8 (bytes "OK"), count_version (record s { state = remove k s.state }))
            else (utf8 (bytes "NOT_FOUND"), s))
  delete-Does true k s e h = record {
    answered = refl;
    seen = fun_ext (λ j. get-remove k j s.state h);
    distinct = remove-NoRepeat k s.state h;
  }
  delete-Does false k s e h = record {
    answered = refl;
    seen = fun_ext (λ j.
        if_all (λ x. Dict.get j s.state ≡ x) (bytes_eq j k) _ _
          (λ p. ap (λ i. Dict.get i s.state) ((bytes_eq_iff j k).0 p) ∙ is_some-none _ e)
          (λ _. refl));
    distinct = h;
  }

  apply_words-Does :
      (c : TextCommand) (s : InMemoryStateMachine)
      → NoRepeat s.state
      → Does (spec_one c (view s)) (apply_words utf8 (words_of c) s)
  apply_words-Does (set k v) s h = record {
    answered = refl;
    seen = fun_ext (λ j. get-insert k j (utf8 v) s.state);
    distinct = insert-NoRepeat k (utf8 v) s.state h;
  }
  apply_words-Does (get k) s h = get_word-Does (Dict.get k s.state) k s h
  apply_words-Does (delete k) s h = delete-Does (is_some (Dict.get k s.state)) k s refl h

-- An answer put before the rest, as `apply_commands` does.
abbrev consed :
    Bytes → Result (List Bytes) → InMemoryStateMachine → Result (List Bytes) × InMemoryStateMachine
consed b r t = elim r [ err e ↦ (err e, t) | ok bs ↦ (ok (b ∷ bs), t) ]

consed-ok :
    (a b : Bytes) (r : Result (List Bytes)) (bs : List Bytes) (t : InMemoryStateMachine)
    → a ≡ b
    → r ≡ ok bs
    → consed a r t ≡ (ok (b ∷ bs), t)
consed-ok a b r bs t p q = ap (λ x. consed a x t) q ∙ ap (λ x. (ok (x ∷ bs), t)) p

-- A command whose text is the words of `c` with a blank between.
abbrev pub Says : (Bytes → Str) → Command → TextCommand → Type 0
Says lossy m c = (lossy m.payload ≡ join_words (words_of c)) × All IsWord (words_of c)

abbrev pub AllSay : (Bytes → Str) → List Command → List TextCommand → Type 0
AllSay lossy [] [] = Unit
AllSay lossy (m ∷ ms) (c ∷ cs) = Says lossy m c × AllSay lossy ms cs
AllSay lossy _ _ = ⊥

module _ (utf8 : Str → Bytes) (lossy : Bytes → Str) (hash : Bytes → ℕ)
    (to_json : Dict Str Bytes → Result Bytes) (from_json : Bytes → Result (Dict Str Bytes)) where
  apply_text-words :
      (m : Command) (c : TextCommand) (s : InMemoryStateMachine)
      → Says lossy m c
      → apply_text utf8 lossy m s ≡ apply_words utf8 (words_of c) s
  unfolding apply_text
  apply_text-words m c s h =
      ap (λ t. apply_words utf8 (split_whitespace t) s) h.0
      ∙ ap (λ ws. apply_words utf8 ws s) (split_whitespace-join_words (words_of c) h.1)

  -- A sequence of commands that are well-formed texts, on a machine in which no key stands twice,
  -- succeeds; its answers, and the value that the machine then has under every key, are those of the
  -- same commands on a function from keys to values.
  pub apply_commands_refines :
      (ms : List Command) (cs : List TextCommand) (s : InMemoryStateMachine)
      → AllSay lossy ms cs
      → NoRepeat s.state
      → let spec = spec_all utf8 cs (view s) in
        let r = apply_commands (local_machine utf8 lossy hash to_json from_json) ms s in
        (r.0 ≡ ok spec.0) × (view r.1 ≡ spec.1)
  unfolding apply_commands
  apply_commands_refines [] [] s a h = (refl, refl)
  apply_commands_refines [] (c ∷ cs) s a h = absurd a
  apply_commands_refines (m ∷ ms) [] s a h = absurd a
  apply_commands_refines (m ∷ ms) (c ∷ cs) s a h =
      let machine = local_machine utf8 lossy hash to_json from_json in
      let t = (apply_text utf8 lossy m s).1 in
      let one =
        subst (Does utf8 (spec_one utf8 c (view s))) (sym (apply_text-words m c s a.0))
          (apply_words-Does utf8 c s h) in
      let rest =
        subst
          (λ f.
            ((apply_commands machine ms t).0 ≡ ok (spec_all utf8 cs f).0)
            × (view (apply_commands machine ms t).1 ≡ (spec_all utf8 cs f).1))
          one.seen (apply_commands_refines ms cs t a.1 one.distinct) in
      let whole = consed-ok _ _ _ _ (apply_commands machine ms t).1 one.answered rest.0 in
      (ap (λ r. r.0) whole, ap (λ r. view r.1) whole ∙ rest.1)
