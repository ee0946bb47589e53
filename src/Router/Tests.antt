-- ===== src/Router/Tests.antt =====
-- Runs of the event router of indexer/src/router/registry.js.
use Prim.Native.String.{String}
use native.Mathlib.Decide.{ℕ_discrete}
use pero_j.Base.{ℕ, ◌≡◌, ◌≢◌, refl, none, some, [], ◌∷◌, if◌then◌else◌, ap}
use pero_j.Base.Text.{String-discrete}
use pero_j.Base.Codes.{Text, Text-discrete, codes}
use pero_j.Base.Dict.{Dict, lookup, IsUnique}
use pero_j.Router.{
  Key, Action, named, bytes, is_named, Event, event_action, domain_of, is_explorer_update_event,
  explorer_update, fallback, handler, first_of, register_event_handler, is_current, put_back,
  unregister, find_handler, dispatch_contract_event,
}
use pero_j.Router.Sessions.{registered, done, nested, run, run-lookup}
use pero_j.Router.Precedence.{dispatch-register}

both : {a c : String} {b d : Action} → a ≡ c → b ≡ d → ◌≡◌ {A = Key} (a, b) (c, d)
both p q = cc

names : {s t : String} → s ≡ t → ◌≡◌ {A = Action} (named s) (named t)
names p = cc

other_names : {s t : String} → s ≢ t → ◌≢◌ {A = Action} (named s) (named t)
other_names n p = n (cc)

byte_lists : {s t : Text} → s ≡ t → ◌≡◌ {A = Action} (bytes s) (bytes t)
byte_lists p = cc

other_bytes : {s t : Text} → s ≢ t → ◌≢◌ {A = Action} (bytes s) (bytes t)
other_bytes n p = n (cc)

name_bytes : (s : String) (t : Text) → ◌≢◌ {A = Action} (named s) (bytes t)
name_bytes s t p = cc

bytes_name : (s : String) (t : Text) → ◌≢◌ {A = Action} (bytes t) (named s)
bytes_name s t p = cc

unfoldable action_discrete : Discrete Action
unfolding String-discrete Text-discrete
action_discrete (named s) (named t) = elim (String-discrete s t) [
  | yes p ↦ yes (names p)
  | no n ↦ no (other_names n)
]
action_discrete (named s) (bytes t) = no (name_bytes s t)
action_discrete (bytes s) (named t) = no (bytes_name t s)
action_discrete (bytes s) (bytes t) = elim (Text-discrete s t) [
  | yes p ↦ yes (byte_lists p)
  | no n ↦ no (other_bytes n)
]

unfoldable key_discrete : Discrete Key
unfolding String-discrete action_discrete
key_discrete (a, b) (c, d) = elim (String-discrete a c) [
  | yes p ↦ elim (action_discrete b d) [
    | yes q ↦ yes (both p q)
    | no n ↦ no (λ e. n (ap (λ x. x.1) e))
  ]
  | no n ↦ no (λ e. n (ap (λ x. x.0) e))
]

program : Unit {0}
unfolding codes event_action domain_of is_explorer_update_event first_of register_event_handler
    is_current put_back unregister find_handler dispatch_contract_event is_named registered run
    String-discrete Text-discrete action_discrete key_discrete ℕ_discrete
program = tt

abbrev transfer : Event
transfer = record { contract_id = some "CA"; topic = some (named "transfer") }

abbrev table : Dict Key ℕ
table = (("CA", named "*"), 1) ∷ (("*", named "transfer"), 2) ∷ []

by_domain : dispatch_contract_event key_discrete ℕ_discrete none transfer table ≡ handler 1
unfolding program
by_domain = refl

run-lookup_example :
    ((j : Key)
      → lookup key_discrete j (
          run key_discrete ℕ_discrete
            (nested ("CA", named "*") 7 (nested ("CA", named "*") 8 done done) done)
            table)
        ≡ lookup key_discrete j table)
    × IsUnique key_discrete (
        run key_discrete ℕ_discrete
          (nested ("CA", named "*") 7 (nested ("CA", named "*") 8 done done) done)
          table)
unfolding program
run-lookup_example =
    run-lookup key_discrete ℕ_discrete
      (nested ("CA", named "*") 7 (nested ("CA", named "*") 8 done done) done) table
      (refl, (refl, tt))

-- The bytes of "transfer": the handler of the text does not get the event.
from_xdr :
    dispatch_contract_event key_discrete ℕ_discrete none
      (record { contract_id = some "CA"; topic = some (bytes (codes "transfer")) })
      ((("CA", named "transfer"), 5) ∷ [])
    ≡ fallback
unfolding program
from_xdr = refl

abbrev one_handler : Dict Key ℕ
one_handler = (("CA", named "transfer"), 5) ∷ []

dispatch-register_example :
    (dispatch_contract_event key_discrete ℕ_discrete none transfer one_handler
      ≡ (if is_explorer_update_event none transfer then explorer_update else handler 5))
    × ((other : Event)
        → ◌≢◌ {A = Key} (domain_of other, event_action other.topic) ("CA", named "transfer")
        → ◌≢◌ {A = Key} (domain_of other, named "*") ("CA", named "transfer")
        → ◌≢◌ {A = Key} ("*", event_action other.topic) ("CA", named "transfer")
        → dispatch_contract_event key_discrete ℕ_discrete none other one_handler
          ≡ dispatch_contract_event key_discrete ℕ_discrete none other [])
    × ((other : Event)
        → dispatch_contract_event key_discrete ℕ_discrete none other (
            unregister key_discrete ℕ_discrete
              (registered key_discrete ℕ_discrete ("CA", named "transfer") 5 [])
              one_handler)
          ≡ dispatch_contract_event key_discrete ℕ_discrete none other [])
unfolding program
dispatch-register_example =
    dispatch-register key_discrete ℕ_discrete none transfer "transfer" 5 [] one_handler
      (registered key_discrete ℕ_discrete ("CA", named "transfer") 5 []) tt refl refl
