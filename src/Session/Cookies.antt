-- ===== src/Session/Cookies.antt =====
-- How the session of web/internal/corplink/client.go follows to a node.
use fu_corplink.Common.{
  ◌≡◌, refl, ap, sym, ◌∙◌, subst, false, Option, none, some, Text, [], ◌∷◌, if◌then◌else◌, text_eq,
  text_eq_iff, text_eq_refl, All, inl, inr, arith, Bool-cases,
}
use fu_corplink.Common.Table.{lookup, insert, lookup-insert}
use fu_corplink.Session.Jar.{
  StoredCookie, ByName, Jar, by_name, set_cookie, with_path, get, copy_cookies, copy_host,
}

-- the cookies of a host are filed under their names
abbrev pub IsNamed : ByName → Type 0
IsNamed m = All (λ e. e.1.name ≡ e.0) m

-- the value that a cookie has in a table
unfoldable value_in : Text → ByName → Option Text
value_in name m = elim (lookup name m) [ none ↦ none | some c ↦ some c.value ]

value_in-insert :
    (k name : Text) (c : StoredCookie) (m : ByName)
    → value_in name (insert k c m) ≡ (if text_eq k name then some c.value else value_in name m)
unfolding value_in
value_in-insert k name c m = ground (arith, lookup-insert k name c m)

by_name-set_cookie :
    (h : Text) (c : StoredCookie) (j : Jar)
    → by_name h (set_cookie c j)
      ≡ (if text_eq c.host h then insert c.name (with_path c) (by_name c.host j) else by_name h j)
unfolding set_cookie by_name
by_name-set_cookie h c j =
    ground (arith, lookup-insert c.host h (insert c.name (with_path c) (by_name c.host j)) j)

get-value_in : (h name : Text) (j : Jar) → get h name j ≡ value_in name (by_name h j)
unfolding get value_in
get-value_in h name j = refl

with_path-value : (c : StoredCookie) → (with_path c).value ≡ c.value
with_path-value c = ground arith

-- Setting a cookie changes what is read under its host and its name to its value, and nothing else.
get-set_cookie :
    (h name : Text) (c : StoredCookie) (j : Jar)
    → get h name (set_cookie c j) ≡ (
        if text_eq c.host h
        then (if text_eq c.name name then some c.value else get h name j)
        else get h name j)
get-set_cookie h name c j = elim (Bool-cases (text_eq c.host h)) [
  | inr e ↦ rw e (
      get-value_in h name (set_cookie c j)
      ∙ ap (value_in name) (by_name-set_cookie h c j ∙ rw e refl)
      ∙ sym (get-value_in h name j))
  | inl e ↦ rw e (
      get-value_in h name (set_cookie c j)
      ∙ ap (value_in name) (by_name-set_cookie h c j ∙ rw e refl)
      ∙ value_in-insert c.name name (with_path c) (by_name c.host j)
      ∙ ground (
        arith,
        with_path-value c,
        get-value_in h name j,
        subst (λ k. by_name c.host j ≡ by_name k j) ((text_eq_iff c.host h).0 e) refl,
      ))
]

-- what a host reads behind a copy to it: the first of the copied cookies of the name, or its own
get-copy_cookies :
    (dst name : Text) (m : ByName) (j : Jar)
    → IsNamed m
    → get dst name (copy_cookies dst m j)
      ≡ (elim (value_in name m) [ none ↦ get dst name j | some v ↦ some v ])
unfolding copy_cookies value_in lookup
get-copy_cookies dst name [] j n = refl
get-copy_cookies dst name ((k, c) ∷ m) j n =
    get-set_cookie dst name (record c { host = dst }) (copy_cookies dst m j)
    ∙ ground (arith, n.0, text_eq_refl dst, get-copy_cookies dst name m j n.1)

-- a copy leaves every other host alone
get-copy_cookies_other :
    (dst h name : Text) (m : ByName) (j : Jar)
    → text_eq dst h ≡ false
    → get h name (copy_cookies dst m j) ≡ get h name j
unfolding copy_cookies
get-copy_cookies_other dst h name [] j e = refl
get-copy_cookies_other dst h name ((k, c) ∷ m) j e =
    get-set_cookie h name (record c { host = dst }) (copy_cookies dst m j)
    ∙ ground (arith, e, get-copy_cookies_other dst h name m j e)

-- Behind copyHost the node reads each cookie of the server with the server's value, and its own where
-- the server has none of the name; every other host, the server included, reads what it did.
pub get-copy_host :
    (src dst name : Text) (j : Jar)
    → IsNamed (by_name src j)
    → (get dst name (copy_host src dst j)
        ≡ (elim (get src name j) [ none ↦ get dst name j | some v ↦ some v ]))
      × ((h : Text) → text_eq dst h ≡ false → get h name (copy_host src dst j) ≡ get h name j)
unfolding copy_host
get-copy_host src dst name j n = (
  get-copy_cookies dst name (by_name src j) j n
      ∙ ap (λ o. elim o as (λ x. Option Text) [ none ↦ get dst name j | some v ↦ some v ])
          (sym (get-value_in src name j)),
  λ h e. get-copy_cookies_other dst h name (by_name src j) j e,
)
