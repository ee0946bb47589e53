-- ===== src/Api/Register.antt =====
-- `POST /contracts` of indexer/src/api.js. The name of who registered a contract is a text, null or
-- absent in the body.
use pero_j.Base.{
  Bool, true, false, not, ◌&&◌, Option, none, some, [], ◌∷◌, ◌≡◌, ◌≢◌, ◌⊎◌, if◌then◌else◌,
}
use pero_j.Base.Dict.{Dict}
use pero_j.Base.Codes.{Text, codes}
use pero_j.ScVal.{Js, JsMembers, js_null, js_object}
use pero_j.Db.Store.{ContractMeta, get_contract_meta, upsert_contract_meta}
use pero_j.Api.{require_admin_key, BadBody, get_member, text_member, check_contract}

pub data Reply : Type 0 where
  created registered_by_required unauthorized : Reply
  invalid : BadBody → Reply

unfoldable pub text_or_blank : Option Text → Text
text_or_blank none = []
text_or_blank (some s) = s

unfoldable pub js_or_null : Option Js → Js
js_or_null none = js_null
js_or_null (some v) = v

-- `body.registered_by ?? existing?.registered_by`
unfoldable pub registered_by_of : Option Text → Option ContractMeta → Option Text
registered_by_of (some s) existing = some s
registered_by_of none none = none
registered_by_of none (some m) = m.registered_by

-- Neither absent nor the empty text.
unfoldable pub is_truthy : Option Text → Bool
is_truthy none = false
is_truthy (some []) = false
is_truthy (some (c ∷ s)) = true

unfoldable pub known_registrar : Option ContractMeta → Bool
known_registrar none = false
known_registrar (some m) = is_truthy m.registered_by

unfoldable pub meta_of : JsMembers → Option Text → ContractMeta
meta_of body registrar = record {
  id = text_or_blank (text_member (codes "id") body);
  name = text_or_blank (text_member (codes "name") body);
  description = text_or_blank (text_member (codes "description") body);
  functions = js_or_null (get_member (codes "functions") body);
  registered_by = registrar;
}

unfoldable pub store_contract : JsMembers → Dict Text ContractMeta → Reply × Dict Text ContractMeta
store_contract body contracts =
    let existing = get_contract_meta (text_or_blank (text_member (codes "id") body)) contracts in
    let registrar = registered_by_of (text_member (codes "registered_by") body) existing in
    if known_registrar existing && not (is_truthy registrar)
    then (registered_by_required, contracts)
    else (created, upsert_contract_meta (meta_of body registrar) contracts)

unfoldable pub reply_of :
    JsMembers → Option BadBody → Dict Text ContractMeta → Reply × Dict Text ContractMeta
reply_of body (some problem) contracts = (invalid problem, contracts)
reply_of body none contracts = store_contract body contracts

unfoldable pub checked_body : Js → Dict Text ContractMeta → Reply × Dict Text ContractMeta
checked_body (js_object body) contracts = reply_of body (check_contract body) contracts
checked_body v contracts = (invalid BadBody.not_an_object, contracts)

unfoldable pub post_contract :
    (key previous authorization : Text)
    → Js
    → Dict Text ContractMeta
    → Reply × Dict Text ContractMeta
post_contract key previous authorization body contracts =
    if require_admin_key key previous authorization
    then checked_body body contracts
    else (unauthorized, contracts)

-- The contract that is stored has the id, the name and the functions of the body, its description
-- if that is a text, and the registrar of the body, or else the one from before.
unfoldable pub IsStored : JsMembers → Option ContractMeta → ContractMeta → Type 0
IsStored body before m =
    (text_member (codes "id") body ≡ some m.id)
    × (text_member (codes "name") body ≡ some m.name)
    × (get_member (codes "functions") body ≡ some m.functions)
    × ((text_member (codes "description") body ≡ some m.description)
        ⊎ ((text_member (codes "description") body ≡ none) × (m.description ≡ [])))
    × (((s : Text) × (text_member (codes "registered_by") body ≡ some s)
          × (m.registered_by ≡ some s))
        ⊎ ((text_member (codes "registered_by") body ≡ none)
            × (((before ≡ none) × (m.registered_by ≡ none))
                ⊎ ((old : ContractMeta) × (before ≡ some old)
                    × (m.registered_by ≡ old.registered_by)))))

-- What a request with an accepted key does to the contracts.
unfoldable pub Registers :
    JsMembers → Dict Text ContractMeta → Reply × Dict Text ContractMeta → Type 0
Registers body contracts r =
    ((r.1 ≡ contracts)
      × (((p : BadBody) × (check_contract body ≡ some p) × (r.0 ≡ invalid p))
          ⊎ ((check_contract body ≡ none)
              × ((id : Text) × (text_member (codes "id") body ≡ some id)
                  × (known_registrar (get_contract_meta id contracts) ≡ true))
              × (text_member (codes "registered_by") body ≡ some [])
              × (r.0 ≡ registered_by_required))))
    ⊎ ((r.0 ≡ created)
        × (check_contract body ≡ none)
        × ((m : ContractMeta) × IsStored body (get_contract_meta m.id contracts) m
            × (get_contract_meta m.id r.1 ≡ some m)
            × (known_registrar (get_contract_meta m.id contracts) ≡ true
                → is_truthy m.registered_by ≡ true)
            × ((other : Text)
                → other ≢ m.id
                → get_contract_meta other r.1 ≡ get_contract_meta other contracts)))
