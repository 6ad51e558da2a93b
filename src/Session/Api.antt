-- ===== src/Session/Api.antt =====
-- The endpoints of web/internal/corplink/api.go.
use fu_corplink.Common.{
  Bool, true, false, ◌&&◌, Text, [], ◌∷◌, ◌++◌, if◌then◌else◌, ◌==◌, is_empty, codes,
}

pub data ApiName : Type 0 where
  login_method tps_login_method tps_token_check corplink_login_method request_email_code : ApiName
  login_email login_password login_password_v1 list_vpn ping_vpn connect_vpn : ApiName
  keep_alive_vpn disconnect_vpn otp logout : ApiName

-- isVPNScoped
unfoldable pub is_vpn_scoped : ApiName → Bool
is_vpn_scoped ping_vpn = true
is_vpn_scoped connect_vpn = true
is_vpn_scoped keep_alive_vpn = true
is_vpn_scoped disconnect_vpn = true
is_vpn_scoped _ = false

-- apiTemplates: the path between {{url}} and the query
unfoldable pub path_of : ApiName → Text
path_of login_method = codes "/api/login/setting"
path_of tps_login_method = codes "/api/tpslogin/link"
path_of tps_token_check = codes "/api/tpslogin/token/check"
path_of corplink_login_method = codes "/api/lookup"
path_of request_email_code = codes "/api/login/code/send"
path_of login_email = codes "/api/login/code/verify"
path_of login_password = codes "/api/login"
path_of login_password_v1 = codes "/api/v1/login"
path_of list_vpn = codes "/api/vpn/list"
path_of ping_vpn = codes "/vpn/ping"
path_of connect_vpn = codes "/vpn/conn"
path_of keep_alive_vpn = codes "/vpn/report"
path_of disconnect_vpn = codes "/vpn/report"
path_of otp = codes "/api/v2/p/otp"
path_of logout = codes "/api/logout"

-- apiTemplates: what two of them have behind the query
unfoldable pub query_tail : ApiName → Text
query_tail login_password_v1 = codes "&client_source=FeiLian"
query_tail logout = codes "&logout_all=false"
query_tail _ = []

-- strings.TrimRight(s, "/")
unfoldable pub trim_slashes : Text → Text
trim_slashes [] = []
trim_slashes (c ∷ s) =
    let rest = trim_slashes s in if is_empty rest && c == b'/' then [] else c ∷ rest

-- renderURL
unfoldable pub render_url : ApiName → Text → Text
unfolding path_of query_tail trim_slashes
render_url api base =
    trim_slashes base ++ (path_of api ++ (codes "?os=Android&os_version=2" ++ query_tail api))
