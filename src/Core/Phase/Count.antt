-- ===== src/Core/Phase/Count.antt =====
-- `PhaseData::count_votes` of rabia-core/src/messages.rs, and a plain count of the votes for a value.
use rabia.Base.{
  ℕ, ◌+◌, ◌≤◌, ◌<◌, ◌≡◌, ◌↔◌, List, [], ◌∷◌, none, some, arith, leb, length, count_if,
  if◌then◌else◌,
}
use rabia.Base.Assoc.{Assoc, values}
use rabia.Core.Types.{StateValue, v0, v1, v_question, value_eq}
use rabia.Core.Phase.{Tally, tally, count_one, no_votes, count_votes}

-- The number of votes for a value.
abbrev pub votes_for : StateValue → List StateValue → ℕ
votes_for v = count_if (value_eq v)

tally_v0 : (vs : List StateValue) (t : Tally) → (tally vs t).v0_count ≡ t.v0_count + votes_for v0 vs
unfolding tally
tally_v0 [] t = omega arith
tally_v0 (v0 ∷ vs) t = omega (arith, tally_v0 vs (count_one v0 t))
tally_v0 (v1 ∷ vs) t = tally_v0 vs (count_one v1 t)
tally_v0 (v_question ∷ vs) t = tally_v0 vs (count_one v_question t)

tally_v1 : (vs : List StateValue) (t : Tally) → (tally vs t).v1_count ≡ t.v1_count + votes_for v1 vs
unfolding tally
tally_v1 [] t = omega arith
tally_v1 (v0 ∷ vs) t = tally_v1 vs (count_one v0 t)
tally_v1 (v1 ∷ vs) t = omega (arith, tally_v1 vs (count_one v1 t))
tally_v1 (v_question ∷ vs) t = tally_v1 vs (count_one v_question t)

tally_vq :
    (vs : List StateValue) (t : Tally)
    → (tally vs t).vq_count ≡ t.vq_count + votes_for v_question vs
unfolding tally
tally_vq [] t = omega arith
tally_vq (v0 ∷ vs) t = tally_vq vs (count_one v0 t)
tally_vq (v1 ∷ vs) t = tally_vq vs (count_one v1 t)
tally_vq (v_question ∷ vs) t = omega (arith, tally_vq vs (count_one v_question t))

-- The result of a count in terms of the number of votes for each value.
pub count_votes_lem :
    (votes : Assoc StateValue) (q : ℕ)
    → count_votes votes q ≡ (
        if leb q (votes_for v0 (values votes))
        then some v0
        else if leb q (votes_for v1 (values votes))
        then some v1
        else if leb q (votes_for v_question (values votes))
        then some v_question
        else none)
unfolding count_votes
count_votes_lem votes q = ground (
  arith,
  tally_v0 (values votes) no_votes,
  tally_v1 (values votes) no_votes,
  tally_vq (values votes) no_votes,
)

-- Every vote is for exactly one value.
pub votes_total :
    (vs : List StateValue) → votes_for v0 vs + votes_for v1 vs + votes_for v_question vs ≡ length vs
votes_total [] = omega arith
votes_total (v0 ∷ vs) = omega (arith, votes_total vs)
votes_total (v1 ∷ vs) = omega (arith, votes_total vs)
votes_total (v_question ∷ vs) = omega (arith, votes_total vs)

-- A result has the votes of a quorum behind it.
pub count_votes_sound :
    (votes : Assoc StateValue) (q : ℕ) (v : StateValue)
    → count_votes votes q ≡ some v
    → q ≤ votes_for v (values votes)
count_votes_sound votes q v0 h = ground (arith, count_votes_lem votes q)
count_votes_sound votes q v1 h = ground (arith, count_votes_lem votes q)
count_votes_sound votes q v_question h = ground (arith, count_votes_lem votes q)

-- Where a quorum is more than half of the votes that were cast, the count returns a value exactly
-- when a quorum voted for it, so the order in which the three counters are tested does not matter.
pub count_votes_iff :
    (votes : Assoc StateValue) (q : ℕ) (v : StateValue)
    → length (values votes) < q + q
    → (count_votes votes q ≡ some v) ↔ (q ≤ votes_for v (values votes))
count_votes_iff votes q v0 h =
    (count_votes_sound votes q v0, λ k. ground (arith, count_votes_lem votes q))
count_votes_iff votes q v1 h = (
  count_votes_sound votes q v1,
  λ k. ground (arith, count_votes_lem votes q, votes_total (values votes)),
)
count_votes_iff votes q v_question h = (
  count_votes_sound votes q v_question,
  λ k. ground (arith, count_votes_lem votes q, votes_total (values votes)),
)
