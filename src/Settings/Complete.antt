-- ===== src/Settings/Complete.antt =====
-- What ensureDefaults of web/internal/corplink/config.go leaves to fill in: nothing.
use fu_corplink.Common.{
  ◌≡◌, refl, ap, sym, ◌∙◌, subst, Bool, true, false, Option, none, some, Text, is_empty, codes, inl,
  inr, arith, Bool-cases, Option-cases,
}
use fu_corplink.Settings.Config.{
  Config, Keys, default, with_defaults, lacks_defaults, with_keys, with_outcome, ensure_defaults,
  validate,
}

-- the keys' functions give keys that are not empty, MD5 a sum that is not
pub record IsKeys (k : Keys) : Type 0 where
  pub sum : (t : Text) → is_empty (k.md5_hex t) ≡ false
  pub derived : (t pk : Text) → k.public_from_private t ≡ some pk → is_empty pk ≡ false
  pub made :
      (pk sk : Text) → k.generated ≡ some (pk, sk) → (is_empty pk ≡ false) × (is_empty sk ≡ false)

is_empty-default : (v d : Text) → is_empty d ≡ false → is_empty (default v d) ≡ false
is_empty-default v d h = ground (arith, h)

filled : (k : Keys) (c : Config) → IsKeys k → lacks_defaults (with_defaults k c) ≡ false
unfolding lacks_defaults with_defaults is_empty
filled k c ok = ground (
  arith,
  is_empty-default c.device_name (codes "DollarOS") refl,
  is_empty-default c.device_id (k.md5_hex (default c.device_name (codes "DollarOS")))
      (ok.sum (default c.device_name (codes "DollarOS"))),
  is_empty-default c.android_release (codes "14") refl,
  is_empty-default c.security_patch (codes "2024-05-01") refl,
  is_empty-default c.socks_listen (codes "0.0.0.0:8989") refl,
  is_empty-default c.route_mode (codes "full") refl,
  is_empty-default c.vpn_select_strategy (codes "default") refl,
)

with_keys-kept :
    (k : Keys) (c c' : Config) (b : Bool)
    → IsKeys k
    → with_keys k c ≡ some (b, c')
    → (lacks_defaults c' ≡ lacks_defaults c) × (validate c' ≡ true)
unfolding with_keys lacks_defaults validate
with_keys-kept k c c' b ok h = elim (Bool-cases (is_empty c.private_key)) [
  | inl e ↦ elim (Option-cases k.generated) [
    | inl g ↦ absurd (ground (arith, h, e, g))
    | inr ((pk, sk), g) ↦
        let made = ok.made pk sk g in
        into (record c { public_key = pk; private_key = sk }) true (ground (arith, e, g))
          (refl, ground (arith, made.0, made.1))
  ]
  | inr e ↦ elim (Bool-cases (is_empty c.public_key)) [
    | inl f ↦ elim (Option-cases (k.public_from_private c.private_key)) [
      | inl g ↦ absurd (ground (arith, h, e, f, g))
      | inr (pk, g) ↦
          into (record c { public_key = pk }) true (ground (arith, e, f, g))
            (refl, ground (arith, ok.derived c.private_key pk g, e))
    ]
    | inr f ↦ into c false (ground (arith, e, f)) (refl, ground (arith, e, f))
  ]
]
  where
    some-inj : {x y : Bool × Config} → some x ≡ some y → x.1 ≡ y.1
    some-inj q = cc

    into :
        (x : Config) (b' : Bool)
        → with_keys k c ≡ some (b', x)
        → (lacks_defaults x ≡ lacks_defaults c) × (validate x ≡ true)
        → (lacks_defaults c' ≡ lacks_defaults c) × (validate c' ≡ true)
    into x b' q r =
        subst (λ y. (lacks_defaults y ≡ lacks_defaults c) × (validate y ≡ true))
          (some-inj {x = (b', x)} {y = (b, c')} (sym q ∙ h)) r

with_defaults_kept : (k : Keys) (c : Config) → lacks_defaults c ≡ false → with_defaults k c ≡ c
unfolding lacks_defaults with_defaults
with_defaults_kept k c h =
    let p1 : is_empty c.device_name ≡ false = ground (arith, h) in
    let p2 : is_empty c.device_id ≡ false = ground (arith, h) in
    let p3 : is_empty c.android_release ≡ false = ground (arith, h) in
    let p4 : is_empty c.security_patch ≡ false = ground (arith, h) in
    let p5 : is_empty c.socks_listen ≡ false = ground (arith, h) in
    let p6 : is_empty c.route_mode ≡ false = ground (arith, h) in
    let p7 : is_empty c.vpn_select_strategy ≡ false = ground (arith, h) in
    simp (with_defaults, p1, p2, p3, p4, p5, p6, p7)

with_keys_kept : (k : Keys) (c : Config) → validate c ≡ true → with_keys k c ≡ some (false, c)
unfolding with_keys validate
with_keys_kept k c h = ground (arith, h)

ensured :
    (k : Keys) (c : Config)
    → lacks_defaults c ≡ false
    → validate c ≡ true
    → ensure_defaults k c ≡ (some false, c)
unfolding ensure_defaults with_outcome
ensured k c full valid =
    ap (λ x. with_outcome (lacks_defaults c) x (with_keys k x)) (with_defaults_kept k c full)
    ∙ ap (with_outcome (lacks_defaults c) c) (with_keys_kept k c valid)
    ∙ ap (λ b. with_outcome b c (some (false, c))) full

-- With a working MD5 and working keys, what ensureDefaults returns without an error passes Validate,
-- lacks no default, and is left as it is, and reported unchanged, by another run.
pub ensure_defaults-again :
    (k : Keys) (c c' : Config) (changed : Bool)
    → IsKeys k
    → ensure_defaults k c ≡ (some changed, c')
    → (validate c' ≡ true) × (lacks_defaults c' ≡ false) × (ensure_defaults k c' ≡ (some false, c'))
unfolding ensure_defaults with_outcome
ensure_defaults-again k c c' changed ok h = elim (Option-cases (with_keys k (with_defaults k c))) [
  | inl e ↦ absurd (failed (sym (ap (with_outcome (lacks_defaults c) (with_defaults k c)) e) ∙ h))
  | inr ((b, d), e) ↦
      let kept = with_keys-kept k (with_defaults k c) d b ok e in
      let same : d ≡ c' =
        sym (ap (λ o. (with_outcome (lacks_defaults c) (with_defaults k c) o).1) e)
        ∙ ap (λ x. x.1) h in
      let full : lacks_defaults d ≡ false = kept.0 ∙ filled k c ok in
      subst
        (λ x.
          (validate x ≡ true)
          × (lacks_defaults x ≡ false)
          × (ensure_defaults k x ≡ (some false, x)))
        same (kept.1, full, ensured k d full kept.1)
]
  where
    failed : ◌≡◌ {A = Option Bool × Config} (none, with_defaults k c) (some changed, c') → ⊥
    failed q = absurd (ground (arith, ap (λ (x : Option Bool × Config). x.0) q))
