-- ===== src/Session/Discover.antt =====
-- GetLoginMethods and GetCompanyWithProxy of web/internal/corplink/client.go. The decoders of the
-- answers are parameters.
use fu_corplink.Common.{
  Bool, false, Option, none, some, Text, List, [], if◌then◌else◌, is_empty, codes,
}
use fu_corplink.Session.Api.{login_method, tps_login_method}
use fu_corplink.Session.Client.{Code, is_code, World, Client, Answer, ok, err, request}

-- TpsLoginOption
pub record TpsLoginOption : Type 0 where
  pub alias : Text
  pub login_url : Text
  pub token : Text

-- LoginMethods
pub record LoginMethods : Type 0 where
  pub login_orders : List Text
  pub login_enable_ldap : Bool
  pub login_enable : Bool
  pub tps : List TpsLoginOption

-- respLoginMethod where no data was decoded
abbrev pub no_methods : LoginMethods
no_methods = record { login_orders = []; login_enable_ldap = false; login_enable = false; tps = [] }

-- GetLoginMethods: whatever the code of an answer says, a failure of the second request is ignored
unfoldable pub get_login_methods :
    World
    → (Text → Option LoginMethods)
    → (Text → Option (List TpsLoginOption))
    → Client
    → Answer LoginMethods × Client
get_login_methods w methods options c =
    let first = request w login_method none methods c in
    let second = request w tps_login_method none options first.1 in
    elim first.0 [
      | err e ↦ (err e, first.1)
      | ok (raw, m) ↦
          let found : List TpsLoginOption = elim second.0 [
            | err e ↦ []
            | ok (raw', o) ↦ elim o [ none ↦ [] | some os ↦ os ]
          ] in
          let lm : LoginMethods = elim m [ none ↦ no_methods | some x ↦ x ] in
          (ok (record lm { tps = found }), second.1)
    ]

-- respCompany, as far as it is read
pub record Company : Type 0 where
  pub zh_name : Text
  pub en_name : Text
  pub domain : Text

-- the envelope of the company lookup
pub record CompanyResp : Type 0 where
  pub code : Code
  pub message : Text
  pub company : Option Company

-- a company, or the text of an error
pub data Found : Type 0 where
  found : Company → Found
  refused : Text → Found
  unanswered : Found

-- GetCompanyWithProxy, with the body that comes back, if one does
unfoldable pub get_company : (Text → Option CompanyResp) → Option Text → Found
get_company decode none = unanswered
get_company decode (some body) = elim (decode body) [
  | none ↦ unanswered
  | some r ↦
      let message : Text =
        if is_empty r.message then codes "failed to fetch company info" else r.message in
      if is_code 0 r.code
      then elim r.company [ none ↦ refused message | some c ↦ found c ]
      else refused message
]
