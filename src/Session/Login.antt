-- ===== src/Session/Login.antt =====
-- The login flows of web/internal/corplink/client.go. SHA-256, the AES encryption of the v1 login
-- and the decoders of the answers are parameters.
use fu_corplink.Common.{
  ℕ, Bool, true, false, Option, none, some, Text, List, [], ◌∷◌, if◌then◌else◌, ◌==◌, text_eq,
  is_empty, codes, length,
}
use fu_corplink.Session.Api.{
  tps_token_check, request_email_code, login_email, login_password, login_password_v1, otp, logout,
}
use fu_corplink.Session.Totp.{totp_offset, six_digits}
use fu_corplink.Session.Client.{
  Value, text, flag, RawResp, World, Client, failed, Answer, ok, err, is_code, request,
}

-- what the login flows take from elsewhere
pub record Crypto : Type 0 where
  pub sha256_hex : Text → Text
  pub encrypt_v1 : Text → Text
  pub hmac : Text → Text → Text
  pub b32_decode : Text → Option Text
  pub to_upper : Text → Text
  pub query_secret : Text → Text

-- json.Unmarshal into the answers' types
pub record Decoders : Type 0 where
  pub login : Text → Option Text
  pub login_v1 : Text → Option Text
  pub otp : Text → Option Text

-- no value to decode into
abbrev pub ignore_data : Text → Option Bool
ignore_data t = some true

-- requestOtpURI
unfoldable pub request_otp_uri : World → Decoders → Client → Option Text × Client
request_otp_uri w d c =
    let r = request w otp (some []) d.otp c in
    elim r.0 [
      | err e ↦ (none, r.1)
      | ok (raw, uri) ↦
          if is_code 0 raw.code
          then (some (elim uri [ none ↦ [] | some u ↦ u ]), r.1)
          else (none, r.1)
    ]

-- Save; `ok` when it succeeds
unfoldable pub save : World → Client → Answer Bool
save w c = if w.saves c.sent then ok true else err failed

-- finalizeLogin
unfoldable pub finalize_login : World → Crypto → Decoders → Client → Answer Bool × Client
unfolding request_otp_uri save
finalize_login w k d c =
    let r = request_otp_uri w d c in
    let secret : Text = elim r.0 [
      | none ↦ []
      | some uri ↦ if is_empty uri then [] else k.query_secret uri
    ] in
    let c' =
      if is_empty secret then r.1 else record r.1 { conf = record r.1.conf { code = secret } } in
    (save w c', c')

-- an answer whose code decides: behind code 0 the login is finalized
unfoldable pub finish :
    World → Crypto → Decoders → Answer (RawResp × Option Text) × Client → Answer Bool × Client
unfolding finalize_login
finish w k d (err e, c) = (err e, c)
finish w k d (ok (raw, a), c) =
    let finalized = finalize_login w k d c in
    if is_code 0 raw.code then finalized else (err failed, c)

-- loginV1 behind its answer: the result has to be "success" too
unfoldable pub finish_v1 :
    World → Crypto → Decoders → Answer (RawResp × Option Text) × Client → Answer Bool × Client
unfolding finish
finish_v1 w k d (err e, c) = (err e, c)
finish_v1 w k d (ok (raw, none), c) = (err failed, c)
finish_v1 w k d (ok (raw, some result), c) =
    let finalized = finish w k d (ok (raw, some result), c) in
    if text_eq result (codes "success") then finalized else (err failed, c)

-- loginV1
unfoldable pub login_v1 : World → Crypto → Decoders → Text → Text → Client → Answer Bool × Client
unfolding finish_v1
login_v1 w k d username password c =
    let body =
      (codes "login_scene", text (codes "feilian"))
      ∷ (codes "account_type", text (codes "userid"))
      ∷ (codes "account", text username)
      ∷ (codes "password", text (k.encrypt_v1 password))
      ∷ [] in
    let r = finish_v1 w k d (request w login_password_v1 (some body) d.login_v1 c) in
    if is_empty password then (err failed, c) else r

-- the password as it is sent to the platform feilian
abbrev pub hashed : Crypto → Text → Text
hashed k password = if length password == 64 then password else k.sha256_hex password

-- the body of a password login, for the platforms that have one
unfoldable pub login_body : Crypto → Text → Text → Text → Option (List (Text × Value))
login_body k username password platform =
    if text_eq platform (codes "ldap")
    then some (
        (codes "user_name", text username)
        ∷ (codes "platform", text (codes "ldap"))
        ∷ (codes "password", text password)
        ∷ [])
    else if text_eq platform (codes "feilian")
    then some
        ((codes "user_name", text username) ∷ (codes "password", text (hashed k password)) ∷ [])
    else none

-- LoginWithPassword
unfoldable pub login_with_password :
    World → Crypto → Decoders → Text → Text → Text → Client → Answer Bool × Client
unfolding login_v1 login_body finish
login_with_password w k d username password platform' c =
    let platform = if is_empty platform' then codes "feilian" else platform' in
    let c' = record c { conf = record c.conf { username = username; platform = platform } } in
    let v1 = login_v1 w k d username password c' in
    if text_eq platform (codes "feilian_v1")
    then v1
    else (elim (login_body k username password platform) [
      | none ↦ (err failed, c')
      | some body ↦ finish w k d (request w login_password (some body) d.login c')
    ])

-- RequestEmailCode
unfoldable pub ask_email_code : World → Text → Client → Answer Bool × Client
ask_email_code w username c =
    let body =
      (codes "forget_password", flag false)
      ∷ (codes "code_type", text (codes "email"))
      ∷ (codes "user_name", text username)
      ∷ [] in
    let r =
      request w request_email_code (some body) ignore_data
        (record c { conf = record c.conf { username = username } }) in
    (elim r.0 [ err e ↦ err e | ok a ↦ ok true ], r.1)

-- LoginWithEmail
unfoldable pub login_with_email :
    World → Crypto → Decoders → Text → Text → Client → Answer Bool × Client
unfolding finish
login_with_email w k d username code c =
    let body =
      (codes "forget_password", flag false)
      ∷ (codes "code_type", text (codes "email"))
      ∷ (codes "code", text code)
      ∷ [] in
    finish w k d (
      request w login_email (some body) d.login
        (record c { conf = record c.conf { username = username } }))

-- CheckTpsToken
unfoldable pub check_tps_token : World → Decoders → Text → Client → Answer Text × Client
check_tps_token w d token c =
    let r = request w tps_token_check (some ((codes "token", text token) ∷ [])) d.login c in
    elim r.0 [
      | err e ↦ (err e, r.1)
      | ok (raw, url) ↦
          if is_code 0 raw.code
          then (ok (elim url [ none ↦ [] | some u ↦ u ]), r.1)
          else (err failed, r.1)
    ]

-- genOTP; the time is in seconds
unfoldable pub gen_otp : Crypto → ℕ → Client → Answer Text
gen_otp k now c =
    if is_empty c.conf.code then ok [] else (elim (k.b32_decode (k.to_upper c.conf.code)) [
      | none ↦ err failed
      | some key ↦ ok (six_digits (totp_offset k.hmac key now c.time_offset).0)
    ])

-- Logout
unfoldable pub log_out : World → Client → Answer Bool × Client
log_out w c =
    let r = request w logout none ignore_data c in
    (elim r.0 [ err e ↦ err e | ok a ↦ ok true ], record r.1 { jar = [] })
