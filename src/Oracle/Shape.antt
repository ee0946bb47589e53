-- ===== src/Oracle/Shape.antt =====
-- The statuses, phases and counts of one market that go together while calls of
-- `submitExpiredMarket` of oracle/src/workers/auto-submitter.js are under way.
use pero_j.Base.{
  ℕ, ◌+◌, ◌≤◌, ◌≡◌, ◌≢◌, refl, Bool, true, Option, none, some, List, [], ◌∷◌, ◌++◌, arith, length,
}
use pero_j.Oracle.{
  Status, opened, submitting, submitted, Phase, claimed, ready, sent, failing, Event, mark_failed,
  mark_lost, submit_lost, Move, move, claim,
}

-- How many submissions a market in this status and phase can have, beyond those that an unmarked
-- one explains.
unfoldable pub Shape : Status → List Phase → ℕ → ℕ → Type 0
Shape opened [] c u = c ≤ u
Shape submitting [] c u = c ≤ u + 1
Shape submitted [] c u = c ≤ u + 1
Shape submitting (sent ∷ []) c u = c ≤ u + 1
Shape submitting (claimed ∷ []) c u = c ≤ u
Shape submitting (ready o ∷ []) c u = c ≤ u
Shape submitting (failing ∷ []) c u = c ≤ u
Shape submitted (failing ∷ []) c u = c ≤ u
Shape _ _ c u = ⊥

pub Shape-claim :
    (s : Status) (ps : List Phase) (c u : ℕ)
    → (claim s).0 ≡ true
    → Shape s ps c u
    → Shape (claim s).1 (claimed ∷ ps) c u
unfolding claim Shape
Shape-claim opened [] c u h k = k
Shape-claim opened (p ∷ ps) c u h k = absurd (k)
Shape-claim submitting ps c u h k = absurd (cc)
Shape-claim submitted ps c u h k = absurd (cc)

pub only :
    (s : Status) (xs ys : List Phase) (p : Phase) (c u : ℕ)
    → Shape s (xs ++ p ∷ ys) c u
    → (xs ≡ []) × (ys ≡ [])
unfolding Shape
only opened [] ys p c u h = absurd h
only opened (x ∷ xs) ys p c u h = absurd h
only submitted [] [] p c u h = (refl, refl)
only submitted [] (y ∷ ys) p c u h = ground (arith, h)
only submitted (x ∷ []) ys p c u h = ground (arith, h)
only submitted (x ∷ y ∷ xs) ys p c u h = ground (arith, h)
only submitting [] [] p c u h = (refl, refl)
only submitting [] (y ∷ ys) p c u h = ground (arith, h)
only submitting (x ∷ []) ys p c u h = ground (arith, h)
only submitting (x ∷ y ∷ xs) ys p c u h = ground (arith, h)

unfoldable pub extra : Option Bool → ℕ
extra none = 0
extra (some o) = 1

unfoldable pub lost : Event → ℕ
lost mark_failed = 1
lost mark_lost = 1
lost submit_lost = 1
lost _ = 0

unfoldable pub over : Option Status → Status → Status
over none s = s
over (some s) t = s

unfoldable pub phase_list : Option Phase → List Phase
phase_list none = []
phase_list (some p) = p ∷ []

pub Shape-move :
    (s : Status) (p : Phase) (e : Event) (m : Move) (c u : ℕ)
    → move p e ≡ some m
    → Shape s (p ∷ []) c u
    → Shape (over m.status s) (phase_list m.next) (extra m.on_chain + c) (lost e + u)
unfolding Shape move extra lost over phase_list
Shape-move opened p e m c u h k = absurd k
Shape-move submitting claimed e m c u h k = ground arith
Shape-move submitting (ready o) e m c u h k = ground arith
Shape-move submitting sent e m c u h k = ground arith
Shape-move submitting failing e m c u h k = ground arith
Shape-move submitted claimed e m c u h k = absurd k
Shape-move submitted (ready o) e m c u h k = absurd k
Shape-move submitted sent e m c u h k = absurd k
Shape-move submitted failing e m c u h k = ground arith

pub append_empty : (o : Option Phase) → phase_list o ++ [] ≡ phase_list o
unfolding phase_list
append_empty none = refl
append_empty (some p) = refl

pub alone :
    (s : Status) (ps : List Phase) (c u : ℕ)
    → Shape s ps c u
    → (length ps ≤ 1) × (ps ≢ [] → s ≢ opened) × (c ≤ u + 1)
unfolding Shape
alone s [] c u h = (omega arith, λ n. absurd (n refl), ground (arith, h))
alone s (p ∷ []) c u h = (omega arith, λ n. ground (arith, h), ground (arith, h))
alone s (p ∷ q ∷ ps) c u h = ground (arith, h)
