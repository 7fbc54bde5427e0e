-- ===== src/Core/Phase/Quorum.antt =====
-- Nodes that count the votes of one round with `PhaseData` (rabia-core/src/messages.rs), each from
-- the messages that it happened to receive.
use rabia.Base.{
  ℕ, ◌≡◌, refl, true, false, List, [], ◌∷◌, some, arith, le→leb, count_if, All, inl, inr,
  Bool-cases,
}
use rabia.Base.Assoc
use rabia.Base.Assoc.{Assoc, values, keys, insert-Distinct}
use rabia.Base.NodeSet.{NodeSet, contains, Distinct, Subset, count_if-Subset}
use rabia.Core.Types.{NodeId, PhaseId, StateValue, v0, v1, v_question, value_eq}
use rabia.Core.Network.{new_cluster, is_majority}
use rabia.Core.Network.Majority.{Disjoint, majorities_meet}
use rabia.Core.Phase.{
  PhaseData, new_phase, add_round1_vote, add_round2_vote, count_votes, has_round1_majority,
  has_round2_majority,
}
use rabia.Core.Phase.Count.{votes_for, count_votes_sound}

-- The votes come from nodes of the cluster, and each node's vote is the one that it cast.
abbrev pub Honest : NodeSet → (NodeId → StateValue) → Assoc StateValue → Type 0
Honest nodes cast = All (λ e. (contains e.0 nodes ≡ true) × (e.1 ≡ cast e.0))

insert-Honest :
    (nodes : NodeSet) (cast : NodeId → StateValue) (n : NodeId) (v : StateValue)
    (votes : Assoc StateValue)
    → contains n nodes ≡ true
    → v ≡ cast n
    → Honest nodes cast votes
    → Honest nodes cast (Assoc.insert n v votes)
insert-Honest nodes cast n v [] m e h = ((m, e), tt)
insert-Honest nodes cast n v (x ∷ votes) m e h =
    ground (arith, insert-Honest nodes cast n v votes m e h.1)

Honest-Subset :
    (nodes : NodeSet) (cast : NodeId → StateValue) (votes : Assoc StateValue)
    → Honest nodes cast votes
    → Subset (keys votes) nodes
Honest-Subset nodes cast [] h a m = cc
Honest-Subset nodes cast (x ∷ votes) h a m = ground (arith, Honest-Subset nodes cast votes h.1 a)

votes_for-Honest :
    (nodes : NodeSet) (cast : NodeId → StateValue) (v : StateValue) (votes : Assoc StateValue)
    → Honest nodes cast votes
    → votes_for v (values votes) ≡ count_if (λ k. value_eq v (cast k)) (keys votes)
votes_for-Honest nodes cast v [] h = refl
votes_for-Honest nodes cast v (x ∷ votes) h =
    ground (arith, votes_for-Honest nodes cast v votes h.1)

value_eq→eq : (a b : StateValue) → value_eq a b ≡ true → a ≡ b
value_eq→eq v0 v0 h = refl
value_eq→eq v1 v1 h = refl
value_eq→eq v_question v_question h = refl
value_eq→eq v0 v1 h = cc
value_eq→eq v0 v_question h = cc
value_eq→eq v1 v0 h = cc
value_eq→eq v1 v_question h = cc
value_eq→eq v_question v0 h = cc
value_eq→eq v_question v1 h = cc

value_eq-Disjoint :
    (a b : StateValue) (cast : NodeId → StateValue)
    → value_eq a b ≡ false
    → Disjoint (λ k. value_eq a (cast k)) (λ k. value_eq b (cast k))
value_eq-Disjoint v0 v0 cast h n = cc
value_eq-Disjoint a b cast h n = ground arith

-- A table of votes that a node built up: one entry for each voter, all of them honest.
abbrev pub Table : NodeSet → (NodeId → StateValue) → Assoc StateValue → Type 0
Table nodes cast votes = Distinct (keys votes) × Honest nodes cast votes

majority_of_quorum :
    (me : NodeId) (nodes : NodeSet) (cast : NodeId → StateValue) (votes : Assoc StateValue)
    (v : StateValue)
    → Table nodes cast votes
    → count_votes votes (new_cluster me nodes).quorum_size ≡ some v
    → is_majority (new_cluster me nodes) (count_if (λ k. value_eq v (cast k)) nodes) ≡ true
unfolding is_majority
majority_of_quorum me nodes cast votes v t h =
    le→leb (new_cluster me nodes).quorum_size (count_if (λ k. value_eq v (cast k)) nodes) (
      omega (
        arith,
        count_votes_sound votes (new_cluster me nodes).quorum_size v h,
        votes_for-Honest nodes cast v votes t.1,
        count_if-Subset (λ k. value_eq v (cast k)) (keys votes) nodes t.0
            (Honest-Subset nodes cast votes t.1),
      ))

-- Two counts over the votes of one round, each from a table of its own, agree.
pub count_votes_agree :
    (me you : NodeId) (nodes : NodeSet) (cast : NodeId → StateValue) (s t : Assoc StateValue)
    (a b : StateValue)
    → Table nodes cast s
    → Table nodes cast t
    → count_votes s (new_cluster me nodes).quorum_size ≡ some a
    → count_votes t (new_cluster you nodes).quorum_size ≡ some b
    → a ≡ b
unfolding new_cluster
count_votes_agree me you nodes cast s t a b hs ht p q = elim (Bool-cases (value_eq a b)) [
  | inl same ↦ value_eq→eq a b same
  | inr other ↦ ground (
    arith,
    majorities_meet me nodes (λ k. value_eq a (cast k)) (λ k. value_eq b (cast k))
        (value_eq-Disjoint a b cast other) (majority_of_quorum me nodes cast s a hs p),
    majority_of_quorum me nodes cast t b ht q,
  )
]

-- The votes that a node receives in one round, in the order in which they arrive, with repeats.
abbrev pub receive_round1 : List (NodeId × StateValue) → PhaseData → PhaseData
receive_round1 [] p = p
receive_round1 ((n, v) ∷ ms) p = receive_round1 ms (add_round1_vote n v p)

abbrev pub receive_round2 : List (NodeId × StateValue) → PhaseData → PhaseData
receive_round2 [] p = p
receive_round2 ((n, v) ∷ ms) p = receive_round2 ms (add_round2_vote n v p)

receive_round1-Table :
    (nodes : NodeSet) (cast : NodeId → StateValue) (ms : List (NodeId × StateValue)) (p : PhaseData)
    → Honest nodes cast ms
    → Table nodes cast p.round1_votes
    → Table nodes cast (receive_round1 ms p).round1_votes
unfolding add_round1_vote
receive_round1-Table nodes cast [] p h t = t
receive_round1-Table nodes cast ((n, v) ∷ ms) p h t =
    receive_round1-Table nodes cast ms (add_round1_vote n v p) h.1 (
      insert-Distinct n v p.round1_votes t.0,
      insert-Honest nodes cast n v p.round1_votes h.0.0 h.0.1 t.1,
    )

receive_round2-Table :
    (nodes : NodeSet) (cast : NodeId → StateValue) (ms : List (NodeId × StateValue)) (p : PhaseData)
    → Honest nodes cast ms
    → Table nodes cast p.round2_votes
    → Table nodes cast (receive_round2 ms p).round2_votes
unfolding add_round2_vote
receive_round2-Table nodes cast [] p h t = t
receive_round2-Table nodes cast ((n, v) ∷ ms) p h t =
    receive_round2-Table nodes cast ms (add_round2_vote n v p) h.1 (
      insert-Distinct n v p.round2_votes t.0,
      insert-Honest nodes cast n v p.round2_votes h.0.0 h.0.1 t.1,
    )

-- If every node casts one vote in a phase's second round, then any two nodes of the cluster that
-- find a majority among the votes they received, whichever, in whatever order and however often
-- each arrived, find the same one.
pub round2_agreement :
    (me you : NodeId) (nodes : NodeSet) (cast : NodeId → StateValue)
    (xs ys : List (NodeId × StateValue)) (phase : PhaseId) (t u : ℕ) (a b : StateValue)
    → Honest nodes cast xs
    → Honest nodes cast ys
    → has_round2_majority (new_cluster me nodes).quorum_size (receive_round2 xs (new_phase t phase))
      ≡ some a
    → has_round2_majority
        (new_cluster you nodes).quorum_size
        (receive_round2 ys (new_phase u phase))
      ≡ some b
    → a ≡ b
unfolding has_round2_majority new_phase
round2_agreement me you nodes cast xs ys phase t u a b hx hy p q =
    count_votes_agree me you nodes cast _ _ a b
      (receive_round2-Table nodes cast xs (new_phase t phase) hx (tt, tt))
      (receive_round2-Table nodes cast ys (new_phase u phase) hy (tt, tt)) p q

-- If every node casts one vote in a phase's first round, then any two nodes of the cluster that find
-- a majority among the votes they received, whichever, in whatever order and however often each
-- arrived, find the same one; so they never go on to the second round with different majorities.
pub round1_agreement :
    (me you : NodeId) (nodes : NodeSet) (cast : NodeId → StateValue)
    (xs ys : List (NodeId × StateValue)) (phase : PhaseId) (t u : ℕ) (a b : StateValue)
    → Honest nodes cast xs
    → Honest nodes cast ys
    → has_round1_majority (new_cluster me nodes).quorum_size (receive_round1 xs (new_phase t phase))
      ≡ some a
    → has_round1_majority
        (new_cluster you nodes).quorum_size
        (receive_round1 ys (new_phase u phase))
      ≡ some b
    → a ≡ b
unfolding has_round1_majority new_phase
round1_agreement me you nodes cast xs ys phase t u a b hx hy p q =
    count_votes_agree me you nodes cast _ _ a b
      (receive_round1-Table nodes cast xs (new_phase t phase) hx (tt, tt))
      (receive_round1-Table nodes cast ys (new_phase u phase) hy (tt, tt)) p q
