-- ===== src/Utf8/Strict.antt =====
-- The decoder accepts nothing but what the encoder writes: no overlong form, no surrogate, no
-- value past U+10FFFF.
use idris2_rc.Prelude.{
  ℕ, zero, suc, ◌+◌, ◌-◌, ◌%◌, ◌≤◌, ◌<◌, ◌≡◌, ◌≢◌, refl, sym, ◌∙◌, ◌&&◌, true, List, [], ◌∷◌, arith,
  ltb, ◌==◌, ==_iff, take, holds_under, holds_at, not, ◌||◌,
}
use idris2_rc.Utf8.{
  replacement, is_continuation, lead_byte_len, is_scalar_of_len, lead_bits, finish, encode_into,
}
use idris2_rc.Utf8.Decode.{
  tail, decode, IsBytes, decode-IsScalar, decode-consumed, lead_byte_len-le,
}
use idris2_rc.Utf8.Encode.{lead, encode_sum, encode_into-sum}

abbrev room : ℕ → ℕ
room (suc zero) = 128
room (suc (suc zero)) = 32
room (suc (suc (suc zero))) = 16
room n = 8

lead_bits_table :
    holds_under
      (λ b.
        lead_byte_len b == 0
        || (lead (lead_byte_len b) (lead_bits (lead_byte_len b) b) == b
            && ltb (lead_bits (lead_byte_len b) b) (room (lead_byte_len b))))
      256
    ≡ true
unfolding holds_under lead_byte_len lead_bits
lead_bits_table = refl

-- A lead byte is its marker and its bits.
lead_bits_lem :
    (n b : ℕ)
    → b < 256
    → lead_byte_len b ≡ suc n
    → (lead (suc n) (lead_bits (suc n) b) ≡ b) × (lead_bits (suc n) b < room (suc n))
lead_bits_lem n b h e =
    let found = holds_at _ 256 b h lead_bits_table in
    ground (arith, rw e at found, ==_iff (lead (suc n) (lead_bits (suc n) b)) b)

continuation_bits_table :
    holds_under (λ c. not (is_continuation c) || (128 + c % 64 == c)) 256 ≡ true
unfolding holds_under is_continuation
continuation_bits_table = refl

continuation_bits : (c : ℕ) → c < 256 → is_continuation c ≡ true → c ≡ 128 + c % 64
continuation_bits c h e =
    let found = holds_at _ 256 c h continuation_bits_table in
    ground (arith, ==_iff (128 + c % 64) c)

-- The bytes that a step takes are the encoding of what it gives, where `n` is the length that
-- the lead byte claims.
abbrev Strict : ℕ → ℕ → List ℕ → Type 0
Strict n q r =
    let d = finish n (tail (n - 1) r 1 q) in
    d.cp ≢ replacement → lead n q ∷ take (d.consumed - 1) r ≡ encode_sum d.cp

Strict-one : (q : ℕ) (r : List ℕ) → q < 128 → Strict 1 q r
unfolding encode_sum finish tail
Strict-one q r h ne = ground arith

Strict-two : (q : ℕ) (r : List ℕ) → IsBytes r → q < 32 → Strict 2 q r
unfolding encode_sum finish tail is_scalar_of_len
Strict-two q [] bytes h ne = absurd (ne refl)
Strict-two q (c ∷ r) bytes h ne = ground (arith, continuation_bits c)

Strict-three : (q : ℕ) (r : List ℕ) → IsBytes r → q < 16 → Strict 3 q r
unfolding encode_sum finish tail is_scalar_of_len
Strict-three q [] bytes h ne = absurd (ne refl)
Strict-three q (c ∷ []) bytes h ne = ground arith
Strict-three q (c ∷ d ∷ r) bytes h ne = ground (arith, continuation_bits c, continuation_bits d)

Strict-four : (q : ℕ) (r : List ℕ) → IsBytes r → q < 8 → Strict 4 q r
unfolding encode_sum finish tail is_scalar_of_len
Strict-four q [] bytes h ne = absurd (ne refl)
Strict-four q (c ∷ []) bytes h ne = ground arith
Strict-four q (c ∷ d ∷ []) bytes h ne = ground arith
Strict-four q (c ∷ d ∷ e ∷ r) bytes h ne =
    ground (arith, continuation_bits c, continuation_bits d, continuation_bits e)

strict : (n q : ℕ) (r : List ℕ) → IsBytes r → suc n ≤ 4 → q < room (suc n) → Strict (suc n) q r
strict zero q r bytes le h = Strict-one q r h
strict (suc zero) q r bytes le h = Strict-two q r bytes h
strict (suc (suc zero)) q r bytes le h = Strict-three q r bytes h
strict (suc (suc (suc zero))) q r bytes le h = Strict-four q r bytes h
strict (suc (suc (suc (suc n)))) q r bytes le h = absurd (omega arith)

decode-finish :
    (n b : ℕ) (r : List ℕ)
    → lead_byte_len b ≡ suc n
    → decode (b ∷ r) ≡ finish (suc n) (tail (suc n - 1) r 1 (lead_bits (suc n) b))
unfolding decode
decode-finish n b r e = rw e (ground arith)

take-suc {ℓ} :
    {A : Type ℓ} (k : ℕ) (x : A) (r : List A) → 1 ≤ k → take k (x ∷ r) ≡ x ∷ take (k - 1) r
take-suc zero x r h = absurd (omega arith)
take-suc (suc k) x r h = rw sub-one_suc
  where
    sub-one_suc : suc k - 1 ≡ k
    sub-one_suc = omega arith

by_length :
    (n b : ℕ) (r : List ℕ)
    → b < 256
    → IsBytes r
    → lead_byte_len b ≡ n
    → (decode (b ∷ r)).cp ≢ replacement
    → take (decode (b ∷ r)).consumed (b ∷ r) ≡ encode_sum (decode (b ∷ r)).cp
by_length zero b r hb hr e ne = absurd (ne (unfold decode in rw e))
by_length (suc n) b r hb hr e ne =
    let l = lead_bits_lem n b hb e in
    let s = strict n (lead_bits (suc n) b) r hr (rw (← e) (lead_byte_len-le b)) l.1 in
    let eq = decode-finish n b r e in
    rw (take-suc (decode (b ∷ r)).consumed b r (decode-consumed b r).0)
      (rw eq (rw l.0 at (s (rw eq at ne))))

-- A step that does not give U+FFFD took exactly the bytes that the encoder writes for its value.
pub encode_into-decode :
    (u : List ℕ)
    → IsBytes u
    → (decode u).cp ≢ replacement
    → take (decode u).consumed u ≡ encode_into (decode u).cp
encode_into-decode [] bytes ne = absurd (ne (unfold decode in refl))
encode_into-decode (b ∷ r) bytes ne =
    by_length (lead_byte_len b) b r bytes.0 bytes.1 refl ne
    ∙ sym (encode_into-sum (decode (b ∷ r)).cp (decode-IsScalar (b ∷ r)).0)
