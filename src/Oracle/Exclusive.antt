-- ===== src/Oracle/Exclusive.antt =====
-- Mutual exclusion of the calls of `submitExpiredMarket` of oracle/src/workers/auto-submitter.js.
use pero_j.Base.{
  ◌+◌, ◌≤◌, ◌≡◌, ◌≢◌, sym, subst, Bool, true, some, List, [], ◌∷◌, ◌++◌, arith, length,
}
use pero_j.Oracle.{Status, opened, submitting, submitted, Phase, claimed, Event, Move, move, claim}
use pero_j.Oracle.Calls.{
  System, started, claims, moves, push_chain, push_unmarked, push_call, write, Reachable, phases,
  on_chain, times_unmarked, phases-append,
}
use pero_j.Oracle.Shape.{
  Shape, Shape-claim, only, over, phase_list, Shape-move, append_empty, alone,
}
use pero_j.Oracle.Moves.{
  write_self, write_other, phases_self, phases_other, on_chain_self, on_chain_other, unmarked_self,
  unmarked_other, middle_self, middle_other,
}

module _ {K : Type 0} (dec : Discrete K) where
  abbrev Holds : System K → K → Type 0
  Holds s k =
      Shape (s.status k) (phases dec k s.calls) (on_chain dec k s.chain)
        (times_unmarked dec k s.unmarked)

  started-Holds : (st : Status) → Shape st [] 0 0
  unfolding Shape
  started-Holds opened = omega arith
  started-Holds submitting = omega arith
  started-Holds submitted = omega arith

  claims_self :
      (k : K) (s : System K)
      → (claim (s.status k)).0 ≡ true
      → Holds s k
      → Shape
          (write dec k (some (claim (s.status k)).1) s.status k)
          (phases dec k ((k, claimed) ∷ s.calls))
          (on_chain dec k s.chain)
          (times_unmarked dec k s.unmarked)
  unfolding phase_list over push_call
  claims_self k s c h =
      rw
        (
          write_self dec k (some (claim (s.status k)).1) s.status,
          phases_self dec k (some claimed) s.calls,
        )
        (Shape-claim (s.status k) (phases dec k s.calls) (on_chain dec k s.chain)
          (times_unmarked dec k s.unmarked) c h)

  claims-Holds :
      (k j : K) (s : System K)
      → (claim (s.status k)).0 ≡ true
      → Holds s j
      → Shape
          (write dec k (some (claim (s.status k)).1) s.status j)
          (phases dec j ((k, claimed) ∷ s.calls))
          (on_chain dec j s.chain)
          (times_unmarked dec j s.unmarked)
  unfolding push_call
  claims-Holds k j s c h = elim (dec k j) [
    | yes e ↦
        subst
          (λ i.
            Shape (write dec k (some (claim (s.status k)).1) s.status i)
              (phases dec i ((k, claimed) ∷ s.calls)) (on_chain dec i s.chain)
              (times_unmarked dec i s.unmarked))
          e (claims_self k s c (subst (λ i. Holds s i) (sym e) h))
    | no ne ↦
        rw
          (
            write_other dec k j (some (claim (s.status k)).1) s.status ne,
            phases_other dec k j (some claimed) s.calls ne,
          )
          h
  ]

  moves_self :
      (k : K) (p : Phase) (e : Event) (m : Move) (st : K → Status)
      (before behind : List (K × Phase)) (chain : List (K × Bool)) (unmarked : List K)
      → move p e ≡ some m
      → Holds
          (record {
            status = st;
            calls = before ++ (k, p) ∷ behind;
            chain = chain;
            unmarked = unmarked;
          })
          k
      → Shape
          (write dec k m.status st k)
          (phases dec k (push_call k m.next (before ++ behind)))
          (on_chain dec k (push_chain k m.on_chain chain))
          (times_unmarked dec k (push_unmarked k e unmarked))
  moves_self k p e m st before behind chain unmarked c h =
      let x = phases dec k before in
      let y = phases dec k behind in
      let z = on_chain dec k chain in
      let u = times_unmarked dec k unmarked in
      let shape = subst (λ l. Shape (st k) l z u) (middle_self dec k p before behind) h in
      let (b, a) = only (st k) x y p z u shape in
      rw
        (
          write_self dec k m.status st,
          phases_self dec k m.next (before ++ behind),
          on_chain_self dec k m.on_chain chain,
          unmarked_self dec k e unmarked,
          phases-append dec k before behind,
          b,
          a,
          append_empty m.next,
        )
        (Shape-move (st k) p e m z u c (
          subst (λ l. Shape (st k) (p ∷ l) z u) a
            (subst (λ l. Shape (st k) (l ++ p ∷ y) z u) b shape)))

  moves-Holds :
      (k j : K) (p : Phase) (e : Event) (m : Move) (st : K → Status)
      (before behind : List (K × Phase)) (chain : List (K × Bool)) (unmarked : List K)
      → move p e ≡ some m
      → Holds
          (record {
            status = st;
            calls = before ++ (k, p) ∷ behind;
            chain = chain;
            unmarked = unmarked;
          })
          j
      → Holds
          (record {
            status = write dec k m.status st;
            calls = push_call k m.next (before ++ behind);
            chain = push_chain k m.on_chain chain;
            unmarked = push_unmarked k e unmarked;
          })
          j
  moves-Holds k j p e m st before behind chain unmarked c h = elim (dec k j) [
    | yes q ↦
        let held =
          subst
            (λ i.
              Holds
                (record {
                  status = st;
                  calls = before ++ (k, p) ∷ behind;
                  chain = chain;
                  unmarked = unmarked;
                })
                i)
            (sym q) h in
        subst
          (λ i.
            Shape (write dec k m.status st i) (phases dec i (push_call k m.next (before ++ behind)))
              (on_chain dec i (push_chain k m.on_chain chain))
              (times_unmarked dec i (push_unmarked k e unmarked)))
          q (moves_self k p e m st before behind chain unmarked c held)
    | no ne ↦
        rw
          (
            write_other dec k j m.status st ne,
            phases_other dec k j m.next (before ++ behind) ne,
            on_chain_other dec k j m.on_chain chain ne,
            unmarked_other dec k j e unmarked ne,
            sym (middle_other dec k j p before behind ne),
          )
          h
  ]

  reachable-Holds : (st : K → Status) (s : System K) → Reachable dec st s → (k : K) → Holds s k
  unfolding phases on_chain times_unmarked
  reachable-Holds st _ started k = started-Holds (st k)
  reachable-Holds st _ (claims j s r c) k = claims-Holds j k s c (reachable-Holds st s r k)
  reachable-Holds st _ (moves j p e m st' before behind chain unmarked c r) k =
      moves-Holds j k p e m st' before behind chain unmarked c (reachable-Holds st _ r k)

  -- However the steps of concurrent calls interleave, and whichever fail or stop: at most one call
  -- is at work on a market, and only while the market's status is not `open`; and the market's
  -- outcome goes on the chain at most once, and once more for each time that the chain took it and
  -- the submission itself or the query that marks it as submitted then threw, even if that query
  -- took effect.
  pub reachable-alone :
      (st : K → Status) (s : System K)
      → Reachable dec st s
      → (k : K)
      → (length (phases dec k s.calls) ≤ 1)
        × (phases dec k s.calls ≢ [] → s.status k ≢ opened)
        × (on_chain dec k s.chain ≤ times_unmarked dec k s.unmarked + 1)
  reachable-alone st s r k =
      alone (s.status k) (phases dec k s.calls) (on_chain dec k s.chain)
        (times_unmarked dec k s.unmarked) (reachable-Holds st s r k)
