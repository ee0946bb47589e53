-- ===== src/Disputes/Votes.antt =====
-- The votes that indexer/src/oracleDisputes.js reads and counts.
use Prim.Native.String.{String}
use mathlib.Core.Path.{subst}
use pero_j.Base.{
  ◌+◌, ◌≡◌, Option, none, some, List, [], ◌∷◌, Outcome, returned, bind_returned, arith, length,
}
use pero_j.Disputes.{
  affirmative, negative, Problem, RawVote, Vote, decision_of, named, read_votes, same_decision,
  tally,
}

-- The vote was read as it stands in the row.
unfoldable pub Reads : RawVote → Vote → Type 0
Reads r v = (decision_of r.vote ≡ returned v.vote) × (r.member ≡ some v.member)

unfoldable pub ReadsAll : List RawVote → List Vote → Type 0
ReadsAll [] [] = Unit
ReadsAll (r ∷ rs) (v ∷ vs) = Reads r v × ReadsAll rs vs
ReadsAll _ _ = ⊥

named-some : (o : Option String) (s : String) → named o ≡ returned s → o ≡ some s
unfolding named
named-some none s h = absurd (cc)
named-some (some t) s h = ground arith

of_returned :
    (a b : List Vote) → ◌≡◌ {A = Outcome Problem (List Vote)} (returned a) (returned b) → a ≡ b
of_returned a b h = cc

read_votes-ReadsAll :
    (rs : List RawVote) (vs : List Vote) → read_votes rs ≡ returned vs → ReadsAll rs vs
unfolding read_votes ReadsAll Reads
read_votes-ReadsAll [] vs h = subst (ReadsAll []) (of_returned [] vs h) tt
read_votes-ReadsAll (r ∷ rs) vs h =
    let (d, p, h1) = bind_returned (decision_of r.vote) _ vs h in
    let (s, q, h2) = bind_returned (named r.member) _ vs h1 in
    let (rest, e, h3) = bind_returned (read_votes rs) _ vs h2 in
    subst (ReadsAll (r ∷ rs)) (of_returned _ vs h3)
      ((p, named-some r.member s q), read_votes-ReadsAll rs rest e)

tally_all : (vs : List Vote) → tally affirmative vs + tally negative vs ≡ length vs
unfolding tally same_decision
tally_all [] = omega arith
tally_all (v ∷ vs) = ground (arith, tally_all vs)

-- If the votes of a row are read, then every one of them was, in order, with its member and its
-- decision, and the affirmative and the negative votes are together all votes.
pub read_votes-tally :
    (rs : List RawVote) (vs : List Vote)
    → read_votes rs ≡ returned vs
    → ReadsAll rs vs × (tally affirmative vs + tally negative vs ≡ length vs)
read_votes-tally rs vs h = (read_votes-ReadsAll rs vs h, tally_all vs)
