-- ===== src/DoubleConvert/Laws.antt =====
-- The double that the fast reader gives is next to the number.
use idris2_rc.Prelude.{
  ℕ, ◌+◌, ◌-◌, ◌*◌, ◌^◌, ◌<◌, ◌≤◌, ◌≡◌, refl, ◌∙◌, ap, Bool, false, arith, ◌||◌, some, u64,
  get_elem?, ◌==◌, bind_some, none_if,
}
use idris2_rc.Prelude.Int.{
  ℤ, pos, negsuc, ◌+ℤ◌, ◌-ℤ◌, ltb_ℤ, pos_part, neg_part, int_laws, +ℤ_parts, -ℤ_parts,
}
use idris2_rc.Rounding.Nearest.{IsNearest, InReach, power_pos}
use idris2_rc.ParseDouble.Powers.{equal_ratio-IsNearest, equal_ratio-InReach, ten_pos, product_pos}
use idris2_rc.DoubleConvert.{
  Product, Mantissa, mulhi128, clzll, normalize_product, round_product, bin_exp, assemble, convert,
}
use idris2_rc.DoubleConvert.Entry.{Pow5Entry, significand}
use idris2_rc.DoubleConvert.Table.{pow5_table, pow5_table-is_row}
use idris2_rc.DoubleConvert.Rows.{IsRow, is_row-IsRow}
use idris2_rc.DoubleConvert.Ratio.{five_pos, same_ratio}
use idris2_rc.DoubleConvert.Fields.{bits_of, assemble-bits}
use idris2_rc.DoubleConvert.Bounds.{shifted_bounds}
use idris2_rc.DoubleConvert.Words.{
  product_le, upper_product, upper_product-floor, mulhi128_lem, clzll_lem, IsNormal,
  normalize_product-IsNormal,
}
use idris2_rc.DoubleConvert.Nearest.{round_product-IsNearest}

module _ (w i : ℕ) (ent : Pow5Entry) (r : IsRow i ent) (positive : 0 < w) (small : w < 2 ^ 64) where
  abbrev shifted : ℕ
  shifted = w * 2 ^ clzll w

  abbrev product : Product
  product = normalize_product (mulhi128 (u64 shifted) ent.hi ent.lo)

  upper_bits : ℕ
  upper_bits = upper_product shifted ent.hi ent.lo

  unit_pos : 0 < 2 ^ 65 * (5 ^ (342 - i) * 2 ^ neg_part ent.e)
  unit_pos =
      product_pos (2 ^ 65) _ (omega arith)
        (product_pos (5 ^ (342 - i)) _ (five_pos (342 - i)) (power_pos (neg_part ent.e)))

  product-IsNormal : IsNormal upper_bits product
  unfolding upper_bits
  product-IsNormal =
      let clz = clzll_lem w positive small in
      let same : u64 shifted ≡ shifted = omega (arith, clz) in
      let floor = upper_product-floor shifted ent.hi ent.lo in
      let (fits, words) =
        mulhi128_lem shifted ent.hi ent.lo (omega (arith, clz)) (omega (arith, r.fits)) r.lo_fits in
      let least : 2 ^ 63 * 2 ^ 127 ≤ shifted * significand ent =
        product_le _ _ _ _ clz.0 r.top_set in
      rw (same, words)
        (normalize_product-IsNormal (upper_product shifted ent.hi ent.lo)
          (omega (arith, floor, least)) fits)

  near_fraction :
      (m : Mantissa)
      → round_product product ≡ some m
      → (2 ^ 52 ≤ m.mant53)
        × (m.mant53 < 2 ^ 53)
        × IsNearest m.mant53
            (shifted * (2 * (5 ^ (i - 342) * 2 ^ pos_part ent.e)) * 2 ^ product.extra)
            (2 ^ 65 * (5 ^ (342 - i) * 2 ^ neg_part ent.e) * 2 ^ 75 * 2 ^ m.carry)
        × InReach
            (shifted * (2 * (5 ^ (i - 342) * 2 ^ pos_part ent.e)) * 2 ^ product.extra)
            (2 ^ 65 * (5 ^ (342 - i) * 2 ^ neg_part ent.e) * 2 ^ 75 * 2 ^ m.carry)
  unfolding upper_bits
  near_fraction m e =
      let clz = clzll_lem w positive small in
      let floor = upper_product-floor shifted ent.hi ent.lo in
      let normal = product-IsNormal in
      let (from, to) =
        shifted_bounds shifted (significand ent) upper_bits
          (2 * (5 ^ (i - 342) * 2 ^ pos_part ent.e)) (5 ^ (342 - i) * 2 ^ neg_part ent.e)
          (omega (arith, clz)) (omega (arith, r.top_set)) floor.0 floor.1 r.from r.to product.extra
          (product.hi * 2 ^ 64 + product.lo) normal.one_shift normal.value in
      round_product-IsNearest product _ _ unit_pos normal.top_set normal.hi_fits from to m e

-- The exponent that the code computes is that of the fraction.
exponents :
    (q e s : ℤ) (clz extra carry : ℕ)
    → s ≡ pos 52 -ℤ bin_exp q clz e extra carry
    → clz + pos_part e + extra + neg_part q + neg_part s
      ≡ pos_part q + pos_part s + 139 + neg_part e + carry
exponents q e s clz extra carry h =
    let e1 = +ℤ_parts (pos 191) q in
    let e2 = -ℤ_parts (pos 191 +ℤ q) (pos clz) in
    let e3 = -ℤ_parts (pos 191 +ℤ q -ℤ pos clz) e in
    let e4 = -ℤ_parts (pos 191 +ℤ q -ℤ pos clz -ℤ e) (pos extra) in
    let e5 = +ℤ_parts (pos 191 +ℤ q -ℤ pos clz -ℤ e -ℤ pos extra) (pos carry) in
    let e6 = -ℤ_parts (pos 52) (bin_exp q clz e extra carry) in
    let p = ap pos_part h in let n = ap neg_part h in omega arith

field_exponent : (exp : ℤ) → exp +ℤ pos 1023 ≡ pos 1075 -ℤ (pos 52 -ℤ exp)
field_exponent exp = omega int_laws

-- The row for an exponent.
index_lem :
    (q : ℤ)
    → (ltb_ℤ q (negsuc 341) || ltb_ℤ (pos 308) q) ≡ false
    → (pos_part (q +ℤ pos 342) - 342 ≡ pos_part q) × (342 - pos_part (q +ℤ pos 342) ≡ neg_part q)
unfolding ◌+ℤ◌
index_lem (pos n) h = (ground arith, ground arith)
index_lem (negsuc n) h = (ground arith, ground arith)

range_lem :
    (q : ℤ)
    → (ltb_ℤ q (negsuc 341) || ltb_ℤ (pos 308) q) ≡ false
    → (neg_part q ≤ 342) × (pos_part q ≤ 308)
range_lem (pos n) h = (omega arith, ground arith)
range_lem (negsuc n) h = (ground arith, omega arith)

-- Bits of a double that is neither subnormal nor infinite, and next to `w` times ten to the power of
-- `q`: its sign, its exponent and the fraction of its mantissa of 53 bits. No integer is nearer to
-- the number times `2 ^ s` than the mantissa, and where two are as near it is even; nor is a double
-- of the next smaller exponent.
pub record IsDouble (neg : Bool) (w : ℕ) (q : ℤ) (b : ℕ) : Type 0 where
  pub least : neg_part q ≤ 342
  pub most : pos_part q ≤ 308
  pub mant : ℕ
  pub field : ℕ
  pub s : ℤ
  pub bits : b ≡ bits_of neg field mant
  pub normal : 1 ≤ field
  pub finite : field ≤ 2046
  pub exponent : pos field ≡ pos 1075 -ℤ s
  pub first_bit : 2 ^ 52 ≤ mant
  pub fits : mant < 2 ^ 53
  pub nearest :
      IsNearest mant (w * 10 ^ pos_part q * 2 ^ pos_part s) (10 ^ neg_part q * 2 ^ neg_part s)
  pub reach : InReach (w * 10 ^ pos_part q * 2 ^ pos_part s) (10 ^ neg_part q * 2 ^ neg_part s)

module _ (neg : Bool) (w : ℕ) (q : ℤ) (b : ℕ) (positive : 0 < w) (small : w < 2 ^ 64)
    (in_range : (ltb_ℤ q (negsuc 341) || ltb_ℤ (pos 308) q) ≡ false) (ent : Pow5Entry)
    (m : Mantissa) where
  abbrev i : ℕ
  i = pos_part (q +ℤ pos 342)

  abbrev x : ℕ
  x = (normalize_product (mulhi128 (u64 (w * 2 ^ clzll w)) ent.hi ent.lo)).extra

  abbrev exp : ℤ
  exp = bin_exp q (clzll w) ent.e x m.carry

  abbrev scaled_num : ℕ
  scaled_num = w * 2 ^ clzll w * (2 * (5 ^ pos_part q * 2 ^ pos_part ent.e)) * 2 ^ x

  abbrev scaled_den : ℕ
  scaled_den = 2 ^ 65 * (5 ^ neg_part q * 2 ^ neg_part ent.e) * 2 ^ 75 * 2 ^ m.carry

  abbrev shift : ℤ
  shift = pos 52 -ℤ exp

  scaled_den_pos : 0 < scaled_den
  scaled_den_pos =
      product_pos _ (2 ^ m.carry)
        (product_pos _ (2 ^ 75)
          (product_pos (2 ^ 65) _ (omega arith)
            (product_pos _ _ (five_pos (neg_part q)) (power_pos (neg_part ent.e))))
          (omega arith))
        (power_pos m.carry)

  ratio :
      scaled_num * (10 ^ neg_part q * 2 ^ neg_part shift)
      ≡ w * 10 ^ pos_part q * 2 ^ pos_part shift * scaled_den
  ratio =
      same_ratio w (pos_part q) (neg_part q) (clzll w) (pos_part ent.e) (neg_part ent.e) x m.carry
        (pos_part shift) (neg_part shift) (exponents q ent.e shift (clzll w) x m.carry refl)

  converted :
      get_elem? pow5_table i ≡ some ent
      → round_product (normalize_product (mulhi128 (u64 (w * 2 ^ clzll w)) ent.hi ent.lo)) ≡ some m
      → assemble neg exp m.mant53 ≡ some b
      → IsDouble neg w q b
  converted found is_rounded assembled =
      let row = is_row-IsRow i ent (pow5_table-is_row i ent found) in
      let (lo, hi, near, reach) = near_fraction w i ent row positive small m is_rounded in
      let range = range_lem q in_range in
      let (up, down) = index_lem q in_range in
      let near' = (rw (up, down) at near) in
      let reach' = (rw (up, down) at reach) in
      let (field, whole, one, most, bits) = assemble-bits neg exp m.mant53 b lo hi assembled in
      record {
        least = range.0;
        most = range.1;
        mant = m.mant53;
        field = field;
        s = shift;
        bits = bits;
        normal = one;
        finite = most;
        exponent = whole ∙ field_exponent exp;
        first_bit = lo;
        fits = hi;
        nearest =
            equal_ratio-IsNearest m.mant53 scaled_num scaled_den _ _ scaled_den_pos
              (product_pos _ _ (ten_pos (neg_part q)) (power_pos (neg_part shift))) ratio near';
        reach = equal_ratio-InReach scaled_num scaled_den _ _ scaled_den_pos ratio reach';
      }

-- Where the fast reader gives bits for a number that is not zero and has 64 bits, they are those of
-- the double next to it, which is neither subnormal nor infinite.
pub convert-IsDouble :
    (neg : Bool) (w : ℕ) (q : ℤ) (b : ℕ)
    → 0 < w
    → w < 2 ^ 64
    → convert neg w q ≡ some b
    → IsDouble neg w q b
unfolding convert
convert-IsDouble neg w q b positive small e =
    let not_zero : (w == 0) ≡ false = ground arith in
    let (in_range, looked_up) = none_if _ _ (rw not_zero at e) in
    let (ent, found, rounded) = bind_some _ _ looked_up in
    let (m, is_rounded, assembled) = bind_some _ _ rounded in
    converted neg w q b positive small in_range ent m found is_rounded assembled
