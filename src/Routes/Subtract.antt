-- ===== src/Routes/Subtract.antt =====
-- subtractCIDR of web/internal/corplink/wgconf.go, on every branch.
use fu_corplink.Common.{
  ℕ, zero, suc, ◌-◌, ◌≡◌, ◌≤◌, refl, sym, ◌∙◌, Bool, true, false, ◌&&◌, ◌||◌, not, length, ◌==◌,
  leb, leb→le, arith, Bool-cases, inl, inr,
}
use fu_corplink.Routes.Carve.{
  Addr, Prefix, bit, same_bit, agrees, mask, masked, contains, carve, subtract_cidr, covers,
}
use fu_corplink.Routes.Cover.{
  agrees_mono, agrees-cong, agrees-swap, bit-mask, length-mask, carve-covers, contains-agrees,
}

agrees-sym : (n : ℕ) (a x : Addr) → agrees n a x ≡ agrees n x a
unfolding agrees same_bit
agrees-sym zero a x = refl
agrees-sym (suc n) a x = ground (arith, agrees-sym n a x, flipped (bit n a) (bit n x))
  where
    flipped : (b c : Bool) → same_bit b c ≡ same_bit c b
    flipped true true = refl
    flipped true false = refl
    flipped false true = refl
    flipped false false = refl

agrees-masked :
    (p : Prefix) (x : Addr) → agrees p.bits (mask p.bits p.addr) x ≡ agrees p.bits p.addr x
agrees-masked p x =
    agrees-cong p.bits (mask p.bits p.addr) p.addr x
      (λ i lt. bit-mask i p.bits p.addr ∙ ground (arith, lt))

-- two prefixes that share an address: the shorter one has the longer one
shared :
    (n m : ℕ) (a b x : Addr)
    → n ≤ m
    → agrees n a x ≡ true
    → agrees m b x ≡ true
    → agrees n a b ≡ true
shared n m a b x le h h' = agrees-swap n a x b h ∙ agrees-sym n x b ∙ agrees_mono n m b x le h'

contains-masked : (p : Prefix) (x : Addr) → contains (masked p) x ≡ contains p x
unfolding contains
contains-masked p x = rw (length-mask p.bits p.addr, agrees-masked p x) refl

other_family : (p : Prefix) (x : Addr) → (length p.addr == length x) ≡ false → contains p x ≡ false
unfolding contains
other_family p x e = rw e refl

true_false : {A : Type 0} → false ≡ true → A
true_false e = absurd (ground (arith, e))

clash : {b : Bool} → b ≡ false → b ≡ true → false ≡ true
clash e f = sym e ∙ f

-- What subtractCIDR answers for two prefixes routes exactly the addresses of the outer one's family
-- that are in the outer prefix and not in the inner one, on every branch.
pub subtract_cidr-covers :
    (outer inner : Prefix) (x : Addr)
    → outer.bits ≤ length outer.addr
    → inner.bits ≤ length inner.addr
    → length x ≡ length outer.addr
    → covers (subtract_cidr outer inner) x ≡ (contains outer x && not (contains inner x))
unfolding subtract_cidr covers
subtract_cidr-covers outer inner x fits fits' family =
    elim (Bool-cases (length op.addr == length ip.addr)) [
      | inr apart ↦ rw apart (
          whole (contains outer x) (contains inner x)
            (λ _. other_family inner x (ground (arith, apart, op_len, ip_len, family))))
      | inl same ↦
          let len : length ip.addr ≡ length op.addr = ground (arith, same) in
          elim (Bool-cases (leb inner.bits outer.bits && contains ip op.addr)) [
            | inl all ↦
                rw (all, same)
                  (nothing (contains outer x) (contains inner x)
                    (λ h. covered len (both_first _ _ all) (both_second _ _ all) h))
            | inr part ↦ elim (Bool-cases (contains op ip.addr)) [
              | inr out ↦
                  rw (out, part, same)
                    (whole (contains outer x) (contains inner x) (λ h. disjoint len part out h))
              | inl within ↦ rw (within, part, same) (carved len part within)
            ]
          ]
    ]
  where
    op : Prefix
    op = masked outer

    ip : Prefix
    ip = masked inner

    op_len : length op.addr ≡ length outer.addr
    op_len = length-mask outer.bits outer.addr

    ip_len : length ip.addr ≡ length inner.addr
    ip_len = length-mask inner.bits inner.addr

    whole : (a b : Bool) → (a ≡ true → b ≡ false) → (a || false) ≡ (a && not b)
    whole true b h = ground (arith, h refl)
    whole false b h = refl

    nothing : (a b : Bool) → (a ≡ true → b ≡ true) → false ≡ (a && not b)
    nothing true b h = ground (arith, h refl)
    nothing false b h = refl

    both_first : (a b : Bool) → (a && b) ≡ true → a ≡ true
    both_first a b e = ground (arith, e)

    both_second : (a b : Bool) → (a && b) ≡ true → b ≡ true
    both_second a b e = ground (arith, e)

    in_outer : contains outer x ≡ agrees outer.bits op.addr x
    in_outer = sym (contains-masked outer x) ∙ contains-agrees op x (op_len ∙ sym family)

    in_inner : length ip.addr ≡ length op.addr → contains inner x ≡ agrees inner.bits ip.addr x
    in_inner len = sym (contains-masked inner x) ∙ contains-agrees ip x (len ∙ op_len ∙ sym family)

    covered :
        length ip.addr ≡ length op.addr
        → leb inner.bits outer.bits ≡ true
        → contains ip op.addr ≡ true
        → contains outer x ≡ true
        → contains inner x ≡ true
    covered len le c h =
        in_inner len
        ∙ agrees-swap inner.bits ip.addr op.addr x (sym (contains-agrees ip op.addr len) ∙ c)
        ∙ agrees_mono inner.bits outer.bits op.addr x (leb→le _ _ le) (sym in_outer ∙ h)

    inner_first :
        length ip.addr ≡ length op.addr
        → (leb inner.bits outer.bits && contains ip op.addr) ≡ false
        → inner.bits ≤ outer.bits
        → agrees inner.bits ip.addr op.addr ≡ false
    inner_first len part le = sym (contains-agrees ip op.addr len) ∙ ground (arith, part, le)

    disjoint :
        length ip.addr ≡ length op.addr
        → (leb inner.bits outer.bits && contains ip op.addr) ≡ false
        → contains op ip.addr ≡ false
        → contains outer x ≡ true
        → contains inner x ≡ false
    disjoint len part out h = elim (Bool-cases (contains inner x)) [
      | inr missed ↦ missed
      | inl found ↦ elim (Bool-cases (leb inner.bits outer.bits)) [
        | inl le ↦ true_false (
            clash (inner_first len part (leb→le _ _ le)) (
              shared inner.bits outer.bits ip.addr op.addr x (leb→le _ _ le)
                (sym (in_inner len) ∙ found) (sym in_outer ∙ h)))
        | inr gt ↦ true_false (
            clash (sym (contains-agrees op ip.addr (sym len)) ∙ out) (
              shared outer.bits inner.bits op.addr ip.addr x (ground (arith, gt)) (sym in_outer ∙ h)
                (sym (in_inner len) ∙ found)))
      ]
    ]

    carved :
        length ip.addr ≡ length op.addr
        → (leb inner.bits outer.bits && contains ip op.addr) ≡ false
        → contains op ip.addr ≡ true
        → covers (carve (inner.bits - outer.bits) op ip) x
          ≡ (contains outer x && not (contains inner x))
    carved len part within =
        carve-covers (inner.bits - outer.bits) op ip x (omega (arith, longer))
          (omega (arith, fits', ip_len, len)) (family ∙ sym op_len) len cleared op_ip
        ∙ rw (in_outer, in_inner len) refl
      where
        op_ip : agrees outer.bits op.addr ip.addr ≡ true
        op_ip = sym (contains-agrees op ip.addr (sym len)) ∙ within

        cleared : bit outer.bits op.addr ≡ false
        cleared = bit-mask outer.bits outer.bits outer.addr ∙ ground arith

        longer : outer.bits ≤ inner.bits
        longer = elim (Bool-cases (leb inner.bits outer.bits)) [
          | inr gt ↦ ground (arith, gt)
          | inl le ↦
              (true_false (
                clash (inner_first len part (leb→le _ _ le)) (
                  agrees-sym inner.bits ip.addr op.addr
                  ∙ agrees_mono inner.bits outer.bits op.addr ip.addr (leb→le _ _ le) op_ip)))
        ]
