-- ===== src/Testing/InMemory/Routes.antt =====
-- Where messages on the bus of rabia-testing/src/network/in_memory.rs go.
use mathlib.Core.Option
use rabia.Base.{
  ◌≡◌, refl, ap, ◌∙◌, Bool, true, false, List, [], ◌∷◌, Option, none, some, ◌==◌, ==_iff,
  if◌then◌else◌, arith,
}
use rabia.Base.Dict
use rabia.Base.Dict.{Dict, nat_key, update}
use rabia.Core.Types.{NodeId}
use rabia.Testing.InMemory.{Routed, Channel, put, run_bus}

-- What is addressed to a node, in the order of the bus.
abbrev pub addressed : NodeId → List Routed → List Routed
addressed k [] = []
addressed k (r ∷ rs) = let rest = addressed k rs in if k == r.to then r ∷ rest else rest

abbrev pub put_all : List Routed → Channel → Channel
put_all [] c = c
put_all (r ∷ rs) c = put_all rs (put r c)

get-put :
    (k j : NodeId) (r : Routed) (d : Dict NodeId Channel)
    → Dict.get k (update j (put r) d)
      ≡ Option.map (λ c. if k == j then put r c else c) (Dict.get k d)
get-put k j r [] = refl
get-put k j r ((i, c) ∷ d) = ground (arith, ==_iff j i, ==_iff k j, ==_iff k i, get-put k j r d)

put_all-addressed :
    (k : NodeId) (r : Routed) (rs : List Routed) (o : Option Channel)
    → Option.map (put_all (addressed k rs)) (Option.map (λ c. if k == r.to then put r c else c) o)
      ≡ Option.map (put_all (addressed k (r ∷ rs))) o
put_all-addressed k r rs none = refl
put_all-addressed k r rs (some c) = both (k == r.to)
  where
    both :
        (b : Bool)
        → some (put_all (addressed k rs) (if b then put r c else c))
          ≡ some (put_all (if b then r ∷ addressed k rs else addressed k rs) c)
    both true = refl
    both false = refl

-- The bus hands every node that is on it, if its receiver is there, the messages addressed to it, all
-- of them and in the order in which they were put on the bus, and to no node any other.
pub get-run_bus :
    (rs : List Routed) (nodes : Dict NodeId Channel) (k : NodeId)
    → Dict.get k (run_bus rs nodes) ≡ Option.map (put_all (addressed k rs)) (Dict.get k nodes)
unfolding run_bus
get-run_bus [] nodes k = go (Dict.get k nodes)
  where
    go : (o : Option Channel) → o ≡ Option.map (λ c. c) o
    go none = refl
    go (some c) = refl
get-run_bus (r ∷ rs) nodes k =
    get-run_bus rs (update r.to (put r) nodes) k
    ∙ ap (Option.map (put_all (addressed k rs))) (get-put k r.to r nodes)
    ∙ put_all-addressed k r rs (Dict.get k nodes)
