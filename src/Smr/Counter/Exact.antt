-- ===== src/Smr/Counter/Exact.antt =====
-- The counter of examples/counter_smr/src/lib.rs beside a counter on plain numbers. A number stands
-- there with 2^63 added, so that nothing is negative and nothing wraps.
use mathlib.Core.Path.{subst}
use rabia.Base.{
  ℕ, ◌+◌, ◌-◌, ◌<◌, ◌≡◌, refl, Bool, true, false, ◌&&◌, Option, none, some, List, [], ◌∷◌, map,
  arith, leb, ltb, u64_mod, if◌then◌else◌,
}
use rabia.Base.Text.{Str}
use rabia.Smr.{run_commands}
use rabia.Smr.I64.{
  I64, i64_half, shifted, IsExact, checked_add, checked_sub, checked_add-IsExact,
  checked_sub-IsExact,
}
use rabia.Smr.Counter.{
  CounterCommand, increment, decrement, set_to, get_value, reset, CounterResponse, CounterState,
  change_value, apply_counter_command, counter_machine,
}

abbrev pub HasI64 : CounterCommand → Type 0
HasI64 (increment n) = n < u64_mod
HasI64 (decrement n) = n < u64_mod
HasI64 (set_to n) = n < u64_mod
HasI64 _ = Unit

abbrev pub AllI64 : List CounterCommand → Type 0
AllI64 [] = Unit
AllI64 (c ∷ cs) = HasI64 c × AllI64 cs

-- `y - z` if that is in range, and otherwise a refusal that keeps `x`.
abbrev pub keep_range : ℕ → ℕ → ℕ → Bool × ℕ
keep_range x y z = if leb z y && ltb y (u64_mod + z) then (true, y - z) else (false, x)

abbrev pub count_exactly : CounterCommand → ℕ → Bool × ℕ
count_exactly (increment n) x = keep_range x (x + shifted n) i64_half
count_exactly (decrement n) x = keep_range x (x + i64_half) (shifted n)
count_exactly (set_to n) x = (true, shifted n)
count_exactly get_value x = (true, x)
count_exactly reset x = (true, i64_half)

abbrev pub count_all : List CounterCommand → ℕ → List Bool × ℕ
count_all [] x = ([], x)
count_all (c ∷ cs) x = let (b, y) = count_exactly c x in let (bs, z) = count_all cs y in (b ∷ bs, z)

abbrev Agrees : Bool × ℕ → CounterResponse × CounterState → Type 0
Agrees e r =
    (r.0.success ≡ e.0)
    × (shifted r.1.value ≡ e.1)
    × (r.0.value ≡ r.1.value)
    × (r.1.value < u64_mod)

change_value-Agrees :
    (o : Option I64) (m : Str) (y z : ℕ) (s : CounterState)
    → s.value < u64_mod
    → IsExact y z o
    → Agrees (keep_range (shifted s.value) y z) (change_value o m s)
change_value-Agrees none m y z s h e = ground arith
change_value-Agrees (some c) m y z s h e = ground arith

apply_counter-Agrees :
    (c : CounterCommand) (s : CounterState)
    → HasI64 c
    → s.value < u64_mod
    → Agrees (count_exactly c (shifted s.value)) (apply_counter_command c s)
unfolding apply_counter_command
apply_counter-Agrees (increment n) s i h =
    change_value-Agrees (checked_add s.value n) _ _ i64_half _ h (checked_add-IsExact s.value n h i)
apply_counter-Agrees (decrement n) s i h =
    change_value-Agrees (checked_sub s.value n) _ _ (shifted n) _ h
      (checked_sub-IsExact s.value n h i)
apply_counter-Agrees (set_to n) s i h = (refl, refl, refl, i)
apply_counter-Agrees get_value s i h = (refl, refl, refl, h)
apply_counter-Agrees reset s i h = (refl, refl, refl, omega arith)

-- A counter that runs any commands answers success exactly where the exact result of the command is
-- a signed 64-bit number, keeps its value elsewhere, and ends with the value of the exact counter,
-- where both read numbers with 2^63 added.
pub run_commands-exact :
    (cs : List CounterCommand) (s : CounterState)
    → AllI64 cs
    → s.value < u64_mod
    → let (rs, t) = run_commands counter_machine cs s in
      let (bs, x) = count_all cs (shifted s.value) in
      (map (λ (r : CounterResponse). r.success) rs ≡ bs) × (shifted t.value ≡ x)
unfolding run_commands
run_commands-exact [] s i h = (refl, refl)
run_commands-exact (c ∷ cs) s i h =
    let (r, t) = apply_counter_command c s in
    let (rs, u) = run_commands counter_machine cs t in
    let one = apply_counter-Agrees c s i.0 h in
    let rest =
      subst
        (λ x.
          (map (λ (q : CounterResponse). q.success) rs ≡ (count_all cs x).0)
          × (shifted u.value ≡ (count_all cs x).1))
        one.1 (run_commands-exact cs t i.1 one.3) in
    (cc (one.0, rest.0), rest.1)
