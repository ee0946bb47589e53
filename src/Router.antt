-- ===== src/Router.antt =====
-- The event router: indexer/src/router/registry.js. Handlers are compared by identity, which is a
-- decidable equality on their names. `JSON.stringify` of a pair tells every two pairs apart, bytes
-- from texts too, and is modelled as the pair.
pub mod Sessions
pub mod Precedence
mod Tests
use Prim.Native.String.{String}
use text.Mathlib.Text.{◌==◌ as str_eq}
use pero_j.Base.{
  ℕ, Bool, true, false, not, ◌&&◌, ◌||◌, Option, none, some, List, [], ◌∷◌, Outcome, returned,
  thrown, if◌then◌else◌, ite,
}
use pero_j.Base.Dict.{Dict, lookup, insert, erase}
use pero_j.Base.Text.{is_empty, String-discrete}

-- An action: a text, or the bytes that the SDK's `sym()` gives for a symbol read from XDR.
pub data Action : Type 0 where
  named : String → Action
  bytes : List ℕ → Action

abbrev pub Key : Type 0
Key = String × Action

-- A registration that can be taken back: what the returned function closes over.
pub record Registration (H : Type 0) : Type 0 where
  pub handler_key : Key
  pub handler : H
  pub previous : Option H

pub data Problem : Type 0 where
  empty_name not_a_function : Problem

-- `topic.sym()` or what `scValToNative` makes of the topic; `none` if there is no topic or one of
-- the two throws.
unfoldable pub event_action : Option Action → Action
event_action none = named "unknown"
event_action (some action) = action

pub record Event : Type 0 where
  pub contract_id : Option String
  pub topic : Option Action

unfoldable pub domain_of : Event → String
domain_of e = elim e.contract_id [ none ↦ "unknown" | some id ↦ id ]

-- `action === "…"`
unfoldable pub is_named : String → Action → Bool
is_named s (named action) = str_eq action s
is_named s (bytes b) = false

-- The explorer's contract id is `none` if the variable is not set.
unfoldable pub is_explorer_update_event : Option String → Event → Bool
is_explorer_update_event explorer e = elim explorer [
  | none ↦ false
  | some x ↦ elim e.contract_id [
    | none ↦ false
    | some id ↦ not (is_empty x) && (str_eq id x && is_named "update" (event_action e.topic))
  ]
]

-- Where an event goes.
pub data Route (H : Type 0) : Type 0 where
  explorer_update fallback : Route H
  handler : H → Route H

unfoldable pub first_of : {H : Type 0} → Option H → Option H → Option H
first_of none b = b
first_of (some a) b = some a

module _ {H : Type 0} (dec : Discrete Key) (same : Discrete H) where
  unfoldable pub register_event_handler :
      String → String → Option H → Dict Key H → Outcome Problem (Registration H × Dict Key H)
  register_event_handler domain action none handlers =
      if is_empty domain || is_empty action then thrown empty_name else thrown not_a_function
  register_event_handler domain action (some h) handlers =
      if is_empty domain || is_empty action
      then thrown empty_name
      else returned (
        record {
          handler_key = (domain, named action);
          handler = h;
          previous = lookup dec (domain, named action) handlers;
        },
        insert dec (domain, named action) h handlers,
      )

  unfoldable pub is_current : Registration H → Dict Key H → Bool
  is_current r handlers = elim (lookup dec r.handler_key handlers) [
    | none ↦ false
    | some h ↦ ite (same h r.handler) true false
  ]

  unfoldable pub put_back : Registration H → Dict Key H → Dict Key H
  put_back r handlers = elim r.previous [
    | none ↦ erase dec r.handler_key handlers
    | some h ↦ insert dec r.handler_key h handlers
  ]

  -- The function that `registerEventHandler` returns.
  unfoldable pub unregister : Registration H → Dict Key H → Dict Key H
  unregister r handlers = if is_current r handlers then put_back r handlers else handlers

  unfoldable pub find_handler : Event → Dict Key H → Option H
  find_handler e handlers =
      let domain = domain_of e in
      let action = event_action e.topic in
      first_of (lookup dec (domain, action) handlers)
        (first_of (lookup dec (domain, named "*") handlers) (lookup dec ("*", action) handlers))

  unfoldable pub dispatch_contract_event : Option String → Event → Dict Key H → Route H
  dispatch_contract_event explorer e handlers =
      if is_explorer_update_event explorer e
      then explorer_update
      else elim (find_handler e handlers) [ none ↦ fallback | some h ↦ handler h ]
