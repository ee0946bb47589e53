-- ===== src/Router/Sessions.antt =====
-- Registering handlers of indexer/src/router/registry.js and taking registrations back.
use mathlib.Core.Logic.{if_pos, if_neg}
use mathlib.Core.Path.{subst, ap}
use pero_j.Base.{◌≡◌, ◌≢◌, refl, sym, ◌∙◌, some, ite, inl, inr, Option-cases}
use pero_j.Base.Dict.{
  Dict, lookup, insert, IsUnique, lookup-insert_self, lookup-insert_ne, lookup-erase_self,
  lookup-erase_ne, insert-IsUnique, erase-IsUnique,
}
use pero_j.Router.{Key, Registration, unregister, is_current, put_back}

module _ {H : Type 0} (dec : Discrete Key) (same : Discrete H) where
  -- What a successful `registerEventHandler` gives.
  unfoldable pub registered : Key → H → Dict Key H → Registration H
  registered k h handlers = record {
    handler_key = k;
    handler = h;
    previous = lookup dec k handlers;
  }

  put_back_self :
      (r : Registration H) (m : Dict Key H)
      → IsUnique dec m
      → lookup dec r.handler_key (put_back dec same r m) ≡ r.previous
  unfolding put_back
  put_back_self r m u = elim (Option-cases r.previous) [
    | inl e ↦ rw (put_back, e) (lookup-erase_self dec r.handler_key m u)
    | inr (h, e) ↦ rw (put_back, e) (lookup-insert_self dec r.handler_key h m)
  ]

  put_back_other :
      (r : Registration H) (m : Dict Key H) (j : Key)
      → j ≢ r.handler_key
      → lookup dec j (put_back dec same r m) ≡ lookup dec j m
  unfolding put_back
  put_back_other r m j ne = elim (Option-cases r.previous) [
    | inl e ↦ rw (put_back, e) (lookup-erase_ne dec j r.handler_key m ne)
    | inr (h, e) ↦ rw (put_back, e) (lookup-insert_ne dec j r.handler_key h m ne)
  ]

  lookup-put_back :
      (r : Registration H) (m : Dict Key H) (j : Key)
      → IsUnique dec m
      → lookup dec j (put_back dec same r m) ≡ ite (dec j r.handler_key) r.previous (lookup dec j m)
  unfolding put_back
  lookup-put_back r m j u = elim (dec j r.handler_key) [
    | yes e ↦ rw (if_pos (dec j r.handler_key) e) (
        subst (λ i. lookup dec i (put_back dec same r m) ≡ r.previous) (sym e)
          (put_back_self r m u))
    | no ne ↦ rw (if_neg (dec j r.handler_key) ne) (put_back_other r m j ne)
  ]

  -- Outside the key nothing changed, and at the key the earlier handler is back.
  was :
      (k : Key) (h : H) (m : Dict Key H) (j : Key) (inside : Dict Key H)
      → ((i : Key) → lookup dec i inside ≡ lookup dec i (insert dec k h m))
      → ite (dec j k) (lookup dec k m) (lookup dec j inside) ≡ lookup dec j m
  was k h m j inside kept = elim (dec j k) [
    | yes e ↦ rw (if_pos (dec j k) e) (ap (λ i. lookup dec i m) (sym e))
    | no ne ↦ rw (if_neg (dec j k) ne) (kept j ∙ lookup-insert_ne dec j k h m ne)
  ]

  put_back-IsUnique :
      (r : Registration H) (m : Dict Key H) → IsUnique dec m → IsUnique dec (put_back dec same r m)
  unfolding put_back
  put_back-IsUnique r m u = elim (Option-cases r.previous) [
    | inl e ↦ rw (put_back, e) (erase-IsUnique dec r.handler_key m u)
    | inr (h, e) ↦ rw (put_back, e) (insert-IsUnique dec r.handler_key h m u)
  ]

  unregister_current :
      (r : Registration H) (m : Dict Key H)
      → lookup dec r.handler_key m ≡ some r.handler
      → unregister dec same r m ≡ put_back dec same r m
  unfolding unregister is_current
  unregister_current r m e =
      rw (unregister, is_current, e, if_pos (same r.handler r.handler) refl) refl

  -- Registrations that are taken back in the reverse order: a handler is registered, other
  -- sessions run, the registration is taken back, and more sessions follow.
  pub data Session : Type 0 where
    done : Session
    nested : Key → H → Session → Session → Session

  unfoldable pub run : Session → Dict Key H → Dict Key H
  run done m = m
  run (nested k h inner rest) m =
      run rest (unregister dec same (registered k h m) (run inner (insert dec k h m)))

  -- However sessions nest and follow one another, they leave what every key is handled by as it
  -- was before.
  pub run-lookup :
      (s : Session) (m : Dict Key H)
      → IsUnique dec m
      → ((j : Key) → lookup dec j (run s m) ≡ lookup dec j m) × IsUnique dec (run s m)
  unfolding run registered
  run-lookup done m u = (λ j. refl, u)
  run-lookup (nested k h inner rest) m u =
      let r = registered k h m in
      let (same1, u1) = run-lookup inner (insert dec k h m) (insert-IsUnique dec k h m u) in
      let inside = run inner (insert dec k h m) in
      let back = unregister_current r inside (same1 k ∙ lookup-insert_self dec k h m) in
      let (same2, u2) =
        run-lookup rest (put_back dec same r inside) (put_back-IsUnique r inside u1) in
      rw back ((λ j. same2 j ∙ lookup-put_back r inside j u1 ∙ was k h m j inside same1), u2)
