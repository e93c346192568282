-- ===== src/Immediate/Laws.antt =====
-- What is packed is read back.
use idris2_rc.Prelude.{
  ℕ, ◌+◌, ◌-◌, ◌*◌, ◌/◌, ◌%◌, ◌^◌, ◌≤◌, ◌<◌, ◌≡◌, ap, ◌∙◌, inl, inr, true, false, ◌&&◌, arith, u64,
  ltb, Bool-cases, bit_and,
}
use idris2_rc.Prelude.Int.{ℤ, pos, negsuc, leb_ℤ, ltb_ℤ, ◌≤ℤ◌}
use idris2_rc.Prelude.Bits.{or_shifted, and_one}
use idris2_rc.Strings.{to_size}
use idris2_rc.Immediate.{
  is_unboxed, immediate, signed, half, mk_bits64, to_u64, mk_int64, to_i64, mk_bits32, to_u32,
  mk_int32, to_i32,
}

pub immediate-sum : (bits : ℕ) → immediate bits ≡ bits % 2 ^ 63 * 2 + 1
unfolding immediate
immediate-sum bits =
    let wraps : u64 (bits * 2 ^ 1) ≡ bits % 2 ^ 63 * 2 ^ 1 = omega arith in
    rw wraps (or_shifted 1 (bits % 2 ^ 63) 1 (omega arith) ∙ omega arith)

-- An immediate word is told from a pointer, which is even, whatever bits it carries.
pub immediate-is_unboxed : (bits : ℕ) → is_unboxed (immediate bits) ≡ true
unfolding is_unboxed
immediate-is_unboxed bits =
    let odd : bit_and (immediate bits) 1 ≡ 1 =
      omega (arith, and_one (immediate bits), immediate-sum bits) in
    rw odd

-- A `Bits64` is read back, whether it is packed into the word or boxed.
pub to_u64-mk_bits64 : (i : ℕ) → to_u64 (mk_bits64 i) ≡ i
unfolding to_u64 mk_bits64
to_u64-mk_bits64 i = elim (Bool-cases (ltb i (2 ^ 63))) [
  | inl fits ↦ rw fits (ground (arith, immediate-sum i))
  | inr large ↦ rw large
]

pub signed-pos : (n : ℕ) → n < 2 ^ 63 → signed 64 n ≡ pos n
unfolding signed
signed-pos n h = let small : ltb n (2 ^ 63) ≡ true = ground arith in rw small

pub signed-negsuc : (n : ℕ) → 2 ^ 63 ≤ n → signed 64 n ≡ negsuc (2 ^ 64 - 1 - n)
unfolding signed
signed-negsuc n h = let large : ltb n (2 ^ 63) ≡ false = ground arith in rw large

-- An `Int64` is read back, whether it is packed into the word or boxed.
pub to_i64-mk_int64 : (i : ℤ) → to_i64 (mk_int64 i) ≡ i
unfolding to_i64 mk_int64 to_size half
to_i64-mk_int64 (pos n) =
    elim (Bool-cases (leb_ℤ (negsuc (2 ^ 62 - 1)) (pos n) && ltb_ℤ (pos n) (pos (2 ^ 62)))) [
      | inl fits ↦
          let short : n < 2 ^ 62 = ground arith in
          let sum : immediate (n % 2 ^ 64) ≡ n * 2 + 1 =
            omega (arith, immediate-sum (n % 2 ^ 64)) in
          rw (fits, sum, signed-pos (n * 2 + 1) (omega arith)) (ap pos (omega arith))
      | inr large ↦ rw large
    ]
to_i64-mk_int64 (negsuc n) =
    elim (Bool-cases (leb_ℤ (negsuc (2 ^ 62 - 1)) (negsuc n) && ltb_ℤ (negsuc n) (pos (2 ^ 62)))) [
      | inl fits ↦
          let short : n < 2 ^ 62 = ground arith in
          let sum : immediate (2 ^ 64 - 1 - n % 2 ^ 64) ≡ 2 ^ 64 - 1 - n * 2 =
            omega (arith, immediate-sum (2 ^ 64 - 1 - n % 2 ^ 64)) in
          rw (fits, sum, signed-negsuc (2 ^ 64 - 1 - n * 2) (omega arith)) (ap negsuc (omega arith))
      | inr large ↦ rw large
    ]

-- A value of at most 32 bits is read back from the upper half: `Bits32` and `Char`.
pub to_u32-mk_bits32 : (x : ℕ) → x < 2 ^ 32 → to_u32 (mk_bits32 x) ≡ x
unfolding to_u32 mk_bits32
to_u32-mk_bits32 x h = omega arith

-- An `Int32` is read back with its sign.
pub to_i32-mk_int32 :
    (x : ℤ) → negsuc (2 ^ 31 - 1) ≤ℤ x → x ≤ℤ pos (2 ^ 31 - 1) → to_i32 (mk_int32 x) ≡ x
unfolding to_i32 mk_int32 to_size signed
to_i32-mk_int32 (pos n) low high =
    let upper : u64 (n % 2 ^ 64 % 2 ^ 32 * 2 ^ 32) + 1 ≡ n * 2 ^ 32 + 1 = omega arith in
    let back : (n * 2 ^ 32 + 1) / 2 ^ 32 % 2 ^ 32 ≡ n = omega arith in
    let small : ltb n (2 ^ 31) ≡ true = ground arith in rw (upper, back, small)
to_i32-mk_int32 (negsuc n) low high =
    let m : ℕ = 2 ^ 32 - 1 - n in
    let upper : u64 ((2 ^ 64 - 1 - n % 2 ^ 64) % 2 ^ 32 * 2 ^ 32) + 1 ≡ m * 2 ^ 32 + 1 =
      omega arith in
    let back : (m * 2 ^ 32 + 1) / 2 ^ 32 % 2 ^ 32 ≡ m = omega arith in
    let large : ltb m (2 ^ 31) ≡ false = ground arith in
    rw (upper, back, large) (ap negsuc (omega arith))
