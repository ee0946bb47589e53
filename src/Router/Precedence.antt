-- ===== src/Router/Precedence.antt =====
-- What registering a handler does to the events that indexer/src/router/registry.js dispatches.
use Prim.Native.String.{String}
use pero_j.Base.{
  ◌≡◌, ◌≢◌, refl, sym, ap, ◌∙◌, Bool, true, false, ◌||◌, Option, some, Outcome, returned, thrown,
  if◌then◌else◌, arith, inl, inr, Bool-cases,
}
use pero_j.Base.Text.{is_empty}
use pero_j.Base.Dict.{Dict, lookup, insert, IsUnique, lookup-insert_self, lookup-insert_ne}
use pero_j.Router.{
  Key, named, empty_name, Registration, Event, event_action, domain_of, is_explorer_update_event,
  explorer_update, handler, first_of, register_event_handler, unregister, find_handler,
  dispatch_contract_event,
}
use pero_j.Router.Sessions.{registered, done, nested, run, run-lookup}

chosen : {A : Type 0} (b : Bool) (x y : A) → b ≡ true → (if b then x else y) ≡ x
chosen b x y p = rw p refl

other_chosen : {A : Type 0} (b : Bool) (x y : A) → b ≡ false → (if b then x else y) ≡ y
other_chosen b x y p = rw p refl

not_both : {E A : Type 0} (o : Outcome E A) (a : A) (e : E) → o ≡ returned a → o ≢ thrown e
not_both o a e p q = cc

of_pair :
    {E A B : Type 0} (o : Outcome E (A × B)) (a c : A) (b d : B)
    → o ≡ returned (a, b)
    → o ≡ returned (c, d)
    → (a ≡ c) × (b ≡ d)
of_pair o a c b d p q = ground (arith, p, q)

module _ {H : Type 0} (dec : Discrete Key) (same : Discrete H) where
  same_lookups :
      (explorer : Option String) (e : Event) (m n : Dict Key H)
      → ((j : Key) → lookup dec j n ≡ lookup dec j m)
      → dispatch_contract_event dec same explorer e n
        ≡ dispatch_contract_event dec same explorer e m
  unfolding dispatch_contract_event find_handler
  same_lookups explorer e m n h =
      let domain = domain_of e in
      let action = event_action e.topic in
      rw
        (
          dispatch_contract_event,
          find_handler,
          h (domain, action),
          h (domain, named "*"),
          h ("*", action),
        )
        refl

  exact_handler :
      (explorer : Option String) (e : Event) (m : Dict Key H) (h : H)
      → is_explorer_update_event explorer e ≡ false
      → lookup dec (domain_of e, event_action e.topic) m ≡ some h
      → dispatch_contract_event dec same explorer e m ≡ handler h
  unfolding dispatch_contract_event find_handler first_of
  exact_handler explorer e m h no_update l =
      rw (dispatch_contract_event, find_handler, no_update, l) refl

  update_event :
      (explorer : Option String) (e : Event) (m : Dict Key H)
      → is_explorer_update_event explorer e ≡ true
      → dispatch_contract_event dec same explorer e m ≡ explorer_update
  unfolding dispatch_contract_event
  update_event explorer e m up = rw (dispatch_contract_event, up) refl

  exact_event :
      (explorer : Option String) (e : Event) (m : Dict Key H) (h : H)
      → lookup dec (domain_of e, event_action e.topic) m ≡ some h
      → dispatch_contract_event dec same explorer e m
        ≡ (if is_explorer_update_event explorer e then explorer_update else handler h)
  exact_event explorer e m h l = elim (Bool-cases (is_explorer_update_event explorer e)) [
    | inl up ↦ update_event explorer e m up ∙ sym (chosen _ explorer_update (handler h) up)
    | inr other ↦
        exact_handler explorer e m h other l
        ∙ sym (other_chosen _ explorer_update (handler h) other)
  ]

  accepted :
      (domain action : String) (h : H) (m m' : Dict Key H) (r : Registration H)
      → register_event_handler dec same domain action (some h) m ≡ returned (r, m')
      → (r ≡ registered dec same (domain, named action) h m)
        × (m' ≡ insert dec (domain, named action) h m)
  unfolding register_event_handler registered
  accepted domain action h m m' r e = elim (Bool-cases (is_empty domain || is_empty action)) [
    | inl p ↦
        let t : register_event_handler dec same domain action (some h) m ≡ thrown empty_name =
          rw (register_event_handler, p) refl in
        absurd (not_both _ _ _ e t)
    | inr p ↦
        let t : register_event_handler dec same domain action (some h) m
            ≡ returned (
              registered dec same (domain, named action) h m,
              insert dec (domain, named action) h m,
            ) =
          rw (register_event_handler, p) refl in
        of_pair _ _ _ _ _ e t
  ]

  insert-others :
      (explorer : Option String) (k : Key) (h : H) (m : Dict Key H) (other : Event)
      → ◌≢◌ {A = Key} (domain_of other, event_action other.topic) k
      → ◌≢◌ {A = Key} (domain_of other, named "*") k
      → ◌≢◌ {A = Key} ("*", event_action other.topic) k
      → dispatch_contract_event dec same explorer other (insert dec k h m)
        ≡ dispatch_contract_event dec same explorer other m
  unfolding dispatch_contract_event find_handler
  insert-others explorer k h m other exact domain_wide action_wide =
      rw
        (
          dispatch_contract_event,
          find_handler,
          lookup-insert_ne dec _ k h m exact,
          lookup-insert_ne dec _ k h m domain_wide,
          lookup-insert_ne dec _ k h m action_wide,
        )
        refl

  -- A handler that is registered for a domain and a named action gets every event of that domain
  -- and action, before any wildcard handler, except the explorer's updates. Every event for which
  -- neither the exact key nor one of its two wildcard keys is the registered one goes where it went
  -- before. Once the registration is taken back, every event goes where it went before.
  pub dispatch-register :
      (explorer : Option String) (e : Event) (action : String) (h : H) (m m' : Dict Key H)
      (r : Registration H)
      → IsUnique dec m
      → event_action e.topic ≡ named action
      → register_event_handler dec same (domain_of e) action (some h) m ≡ returned (r, m')
      → (dispatch_contract_event dec same explorer e m'
          ≡ (if is_explorer_update_event explorer e then explorer_update else handler h))
        × ((other : Event)
            → ◌≢◌ {A = Key} (domain_of other, event_action other.topic) (domain_of e, named action)
            → ◌≢◌ {A = Key} (domain_of other, named "*") (domain_of e, named action)
            → ◌≢◌ {A = Key} ("*", event_action other.topic) (domain_of e, named action)
            → dispatch_contract_event dec same explorer other m'
              ≡ dispatch_contract_event dec same explorer other m)
        × ((other : Event)
            → dispatch_contract_event dec same explorer other (unregister dec same r m')
              ≡ dispatch_contract_event dec same explorer other m)
  unfolding run
  dispatch-register explorer e action h m m' r u is_text acc =
      let k : Key = (domain_of e, named action) in
      let (p, q) = accepted (domain_of e) action h m m' r acc in
      let back = run-lookup dec same (nested k h done done) m u in
      let found : lookup dec (domain_of e, event_action e.topic) (insert dec k h m) ≡ some h =
        ap (λ a. lookup dec (domain_of e, a) (insert dec k h m)) is_text
        ∙ lookup-insert_self dec k h m in
      (
        rw q (exact_event explorer e (insert dec k h m) h found),
        (λ other x y z. rw q (insert-others explorer k h m other x y z)),
        (λ other. rw (p, q) (same_lookups explorer other m _ back.0)),
      )
