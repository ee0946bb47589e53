-- ===== src/Oracle.antt =====
-- The oracle daemon: oracle/src/workers/auto-submitter.js and `pollOnce` of oracle/src/daemon.js.
-- Several workers may run at once. Every query and every call of the chain or of an adapter is a
-- point where others may run, and where the worker may stop for good.
pub mod Unanimous
pub mod Calls
pub mod Shape
pub mod Moves
pub mod Exclusive
pub mod Freshness
mod Tests
use Prim.Native.String.{String}
use pero_j.Base.{
  ℕ, ◌+◌, Bool, true, false, Option, none, some, List, [], ◌∷◌, ◌++◌, Outcome, returned, thrown,
  ◌>>=◌, ite, ◌≡◌, if◌then◌else◌,
}

pub data Status : Type 0 where
  opened submitting submitted : Status

-- What stops a submission.
pub data Trouble (E : Type 0) : Type 0 where
  no_adapters : Trouble E
  disagree : List Bool → Trouble E
  adapter : E → Trouble E

-- What one adapter answers, before the answers of the others.
unfoldable pub together :
    {E : Type 0}
    → Outcome E Bool
    → Outcome (Trouble E) (List Bool)
    → Outcome (Trouble E) (List Bool)
together (thrown e) rest = thrown (adapter e)
together (returned o) rest = rest >>= λ os. returned (o ∷ os)

-- `Promise.all` over the adapters of the category: the values in order, or what an adapter throws.
unfoldable pub ask_all :
    {E P : Type 0}
    → (String → P → Outcome E Bool)
    → P
    → List String
    → Outcome (Trouble E) (List Bool)
ask_all impl params [] = returned []
ask_all impl params (n ∷ ns) = together (impl n params) (ask_all impl params ns)

-- `new Set(outcomes)`: each value where it first stands.
unfoldable pub same_bool : Bool → Bool → Bool
same_bool true b = b
same_bool false true = false
same_bool false false = true

unfoldable pub has_bool : Bool → List Bool → Bool
has_bool b [] = false
has_bool b (x ∷ xs) = let rest = has_bool b xs in if same_bool b x then true else rest

unfoldable pub set_of : List Bool → List Bool → List Bool
set_of seen [] = seen
set_of seen (x ∷ xs) = if has_bool x seen then set_of seen xs else set_of (seen ++ x ∷ []) xs

unfoldable pub agreed : {E : Type 0} → List Bool → List Bool → Outcome (Trouble E) Bool
agreed outcomes (o ∷ []) = returned o
agreed outcomes _ = thrown (disagree outcomes)

unfoldable pub determine_outcome :
    {E P : Type 0}
    → (String → Option (List String))
    → (String → P → Outcome E Bool)
    → String
    → P
    → Outcome (Trouble E) Bool
determine_outcome category_adapters impl category params = elim (category_adapters category) [
  | none ↦ thrown no_adapters
  | some names ↦ ask_all impl params names >>= λ outcomes. agreed outcomes (set_of [] outcomes)
]

-- Where a call of `submitExpiredMarket` stands: the market is claimed; its outcome is known; the
-- outcome is on the chain; the call is in its catch block.
pub data Phase : Type 0 where
  claimed : Phase
  ready : Bool → Phase
  sent : Phase
  failing : Phase

-- How the call's next step ends. `stopped`: the process ends. A step that is `lost` took effect and
-- then threw; after
-- `submit_stopped` the outcome is on the chain, but the process ended before the answer.
pub data Event : Type 0 where
  determined : Bool → Event
  not_determined submit_done submit_failed mark_done mark_failed : Event
  release_done release_failed stopped : Event
  submit_lost submit_stopped mark_lost release_lost : Event

-- What a step does: the phase that follows, none if the call is over; the status that the market
-- gets; the outcome that goes on the chain.
pub record Move : Type 0 where
  pub next : Option Phase
  pub status : Option Status
  pub on_chain : Option Bool

abbrev pub go_to : Phase → Move
go_to p = record { next = some p; status = none; on_chain = none }

abbrev pub finish : Move
finish = record { next = none; status = none; on_chain = none }

unfoldable pub move : Phase → Event → Option Move
move claimed (determined o) = some (go_to (ready o))
move claimed not_determined = some (go_to failing)
move (ready o) submit_done = some (record (go_to sent) { on_chain = some o })
move (ready o) submit_failed = some (go_to failing)
move (ready o) submit_lost = some (record (go_to failing) { on_chain = some o })
move (ready o) submit_stopped = some (record finish { on_chain = some o })
move sent mark_lost = some (record (go_to failing) { status = some submitted })
move sent mark_done = some (record finish { status = some submitted })
move sent mark_failed = some (go_to failing)
move failing release_done = some (record finish { status = some opened })
move failing release_lost = some (record finish { status = some opened })
move failing release_failed = some finish
move _ stopped = some finish
move _ _ = none

-- `UPDATE markets SET status = 'submitting' WHERE id = $1 AND status = 'open'`: whether a row was
-- changed, and the status after it.
unfoldable pub claim : Status → Bool × Status
claim opened = (true, submitting)
claim s = (false, s)
