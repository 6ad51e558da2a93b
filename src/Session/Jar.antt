-- ===== src/Session/Jar.antt =====
-- persistentJar of web/internal/corplink/cookiejar.go, without the file it is kept in. A cookie's
-- expiry is nanoseconds, `none` the zero time.
use fu_corplink.Common.{
  ℕ, Bool, false, Option, none, some, Text, List, [], ◌∷◌, if◌then◌else◌, ltb, is_empty, codes,
}
use fu_corplink.Common.Table.{lookup, insert}

pub record StoredCookie : Type 0 where
  pub name : Text
  pub value : Text
  pub host : Text
  pub path : Text
  pub expires : Option ℕ

-- the cookies of a host by name
abbrev pub ByName : Type 0
ByName = List (Text × StoredCookie)

abbrev pub Jar : Type 0
Jar = List (Text × ByName)

-- `j.store[host]`, a nil map where the host has none
unfoldable pub by_name : Text → Jar → ByName
by_name host j = elim (lookup host j) [ none ↦ [] | some m ↦ m ]

-- the path that setLocked fills in
abbrev pub with_path : StoredCookie → StoredCookie
with_path c = if is_empty c.path then record c { path = codes "/" } else c

-- setLocked
unfoldable pub set_cookie : StoredCookie → Jar → Jar
unfolding by_name
set_cookie c j = insert c.host (insert c.name (with_path c) (by_name c.host j)) j

-- load, and the loop of SetCookies
unfoldable pub set_cookies : List StoredCookie → Jar → Jar
set_cookies [] j = j
set_cookies (c ∷ cs) j = set_cookies cs (set_cookie c j)

-- set
abbrev pub set : Text → Text → Text → Jar → Jar
set host name value j =
    set_cookie
      (record { name = name; value = value; host = host; path = codes "/"; expires = none }) j

-- get
unfoldable pub get : Text → Text → Jar → Option Text
unfolding by_name
get host name j = elim (lookup name (by_name host j)) [ none ↦ none | some c ↦ some c.value ]

-- the loop of copyHost: a map is ranged over in any order, here the last entry first
unfoldable pub copy_cookies : Text → ByName → Jar → Jar
unfolding set_cookie
copy_cookies dst [] j = j
copy_cookies dst ((n, c) ∷ m) j = set_cookie (record c { host = dst }) (copy_cookies dst m j)

-- copyHost
unfoldable pub copy_host : Text → Text → Jar → Jar
unfolding copy_cookies
copy_host src dst j = copy_cookies dst (by_name src j) j

-- whether Cookies leaves a cookie out
abbrev pub is_expired : ℕ → StoredCookie → Bool
is_expired now c = elim c.expires [ none ↦ false | some at ↦ ltb at now ]

-- the loop of Cookies: names and values
unfoldable pub unexpired : ℕ → ByName → List (Text × Text)
unexpired now [] = []
unexpired now ((n, c) ∷ m) =
    let rest = unexpired now m in if is_expired now c then rest else (c.name, c.value) ∷ rest

-- Cookies
unfoldable pub cookies : ℕ → Text → Jar → List (Text × Text)
unfolding by_name unexpired
cookies now host j = unexpired now (by_name host j)
