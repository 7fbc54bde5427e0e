-- ===== src/Smr.antt =====
-- State machines to be replicated: the interface of rabia-core/src/smr.rs, and the machines of the
-- folder examples.
pub mod I64
pub mod Banking
pub mod Counter
pub mod Kv
pub mod Examples
use rabia.Base.{List, [], ◌∷◌}

-- The trait `StateMachine` of smr.rs: a machine over `M`, with the state `S` that is taken out of it
-- and put back. The byte encoding of the state is a crate's.
pub record Machine (M S C R : Type 0) : Type 0 where
  pub apply_command : C → M → R × M
  pub get_state : M → S
  pub set_state : S → M → M

-- `apply_commands`: the responses in the order of the commands.
unfoldable pub run_commands : {M S C R : Type 0} → Machine M S C R → List C → M → List R × M
run_commands m [] s = ([], s)
run_commands m (c ∷ cs) s =
    let (r, t) = m.apply_command c s in let (rs, u) = run_commands m cs t in (r ∷ rs, u)
