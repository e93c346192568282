-- ===== src/Utf8/Chars.antt =====
-- The characters of a byte string.
use idris2_rc.Prelude.{
  ℕ, zero, suc, ◌+◌, ◌-◌, ◌*◌, ◌%◌, ◌≤◌, ◌≡◌, refl, sym, ap, ◌∙◌, List, [], ◌∷◌, ◌++◌, arith, drop,
  take, get_or, length, length-drop, drop-length_append, take-drop, All,
}
use idris2_rc.Utf8.{replacement, lead_byte_len, lead_bits, finish, encode_into, encode_len}
use idris2_rc.Utf8.Decode.{tail, decode, IsScalar, tail-consumed, decode-consumed}
use idris2_rc.Utf8.Encode.{decode-encode_into, length-encode_into}
use mathlib.Core.List.{append_assoc}

chars_upto : ℕ → List ℕ → List ℕ
chars_upto zero u = []
chars_upto (suc fuel) [] = []
chars_upto (suc fuel) (b ∷ r) =
    (decode (b ∷ r)).cp ∷ chars_upto fuel (drop (decode (b ∷ r)).consumed (b ∷ r))

-- The text that a byte string stands for: its code points, each malformed sequence one U+FFFD.
unfoldable pub chars : List ℕ → List ℕ
unfolding chars_upto
chars u = chars_upto (length u) u

length-drop_consumed :
    (b : ℕ) (r : List ℕ) → length (drop (decode (b ∷ r)).consumed (b ∷ r)) ≤ length r
length-drop_consumed b r =
    omega (arith, length-drop (decode (b ∷ r)).consumed (b ∷ r), decode-consumed b r)

-- Fuel that covers the bytes is enough.
chars_upto_cover :
    (f g : ℕ) (u : List ℕ) → length u ≤ f → length u ≤ g → chars_upto f u ≡ chars_upto g u
unfolding chars_upto
chars_upto_cover zero zero u hf hg = refl
chars_upto_cover zero (suc g) [] hf hg = refl
chars_upto_cover (suc f) zero [] hf hg = refl
chars_upto_cover (suc f) (suc g) [] hf hg = refl
chars_upto_cover zero g (b ∷ r) hf hg = absurd (omega arith)
chars_upto_cover (suc f) zero (b ∷ r) hf hg = absurd (omega arith)
chars_upto_cover (suc f) (suc g) (b ∷ r) hf hg =
    let less = length-drop_consumed b r in
    ap (λ t. (decode (b ∷ r)).cp ∷ t)
      (chars_upto_cover f g (drop (decode (b ∷ r)).consumed (b ∷ r)) (omega arith) (omega arith))

pub chars-cons :
    (b : ℕ) (r : List ℕ)
    → chars (b ∷ r) ≡ (decode (b ∷ r)).cp ∷ chars (drop (decode (b ∷ r)).consumed (b ∷ r))
unfolding chars
chars-cons b r =
    ap (λ t. (decode (b ∷ r)).cp ∷ t)
      (chars_upto_cover (length r) _ (drop (decode (b ∷ r)).consumed (b ∷ r))
        (length-drop_consumed b r) (omega arith))

-- A valid text: the encoding of scalar values.
unfoldable pub encode_all : List ℕ → List ℕ
encode_all [] = []
encode_all (c ∷ cs) = encode_into c ++ encode_all cs

chars-append_scalar :
    (u rest : List ℕ) (c k : ℕ)
    → 1 ≤ length u
    → decode (u ++ rest) ≡ record { cp = c; consumed = k }
    → k ≡ length u
    → chars (u ++ rest) ≡ c ∷ chars rest
chars-append_scalar [] rest c k p e l = absurd (omega arith)
chars-append_scalar (b ∷ u) rest c k p e l =
    rw (chars-cons b (u ++ rest), e, l, drop-length_append (b ∷ u) rest)

-- A character in front of a string, whatever bytes the string has, is its first character.
pub chars-encode_into :
    (c : ℕ) (rest : List ℕ) → IsScalar c → chars (encode_into c ++ rest) ≡ c ∷ chars rest
chars-encode_into c rest scalar =
    chars-append_scalar (encode_into c) rest c (encode_len c) (rw length-encode_into (some_byte c))
      (decode-encode_into c rest scalar) (sym (length-encode_into c))
  where
    some_byte : (c : ℕ) → 1 ≤ encode_len c
    some_byte c = unfold encode_len in ground arith

-- The characters of an encoded text are the text.
pub chars-encode_all :
    (cs : List ℕ) (rest : List ℕ)
    → All IsScalar cs
    → chars (encode_all cs ++ rest) ≡ cs ++ chars rest
unfolding encode_all
chars-encode_all [] rest h = refl
chars-encode_all (c ∷ cs) rest h = rw append_assoc (
    chars-encode_into c (encode_all cs ++ rest) h.0
    ∙ ap (λ t. c ∷ t) (chars-encode_all cs rest h.1))

tail-take :
    (left m : ℕ) (r : List ℕ) (k cp : ℕ)
    → (tail left r k cp).consumed ≤ k + m
    → tail left (take m r) k cp ≡ tail left r k cp
unfolding tail
tail-take zero m r k cp h = refl
tail-take (suc left) zero [] k cp h = refl
tail-take (suc left) (suc m) [] k cp h = refl
tail-take (suc left) zero (b ∷ r) k cp h =
    ground (arith, tail-consumed left r (k + 1) (cp * 64 + b % 64))
tail-take (suc left) (suc m) (b ∷ r) k cp h =
    ground (arith, tail-take left m r (k + 1) (cp * 64 + b % 64))

-- A step looks at no byte behind those that it consumes, but for the one that ends it.
decode-take :
    (b : ℕ) (r : List ℕ) (m : ℕ)
    → (decode (b ∷ r)).consumed ≤ suc m
    → decode (b ∷ take m r) ≡ decode (b ∷ r)
unfolding decode finish
decode-take b r m h =
    ground (arith, tail-take (lead_byte_len b - 1) m r 1 (lead_bits (lead_byte_len b) b))

-- So the bytes up to a later boundary stand for the same characters.
pub chars-take :
    (b : ℕ) (r : List ℕ) (k : ℕ)
    → (decode (b ∷ r)).consumed ≤ k
    → chars (take k (b ∷ r))
      ≡ (decode (b ∷ r)).cp
        ∷ chars (take (k - (decode (b ∷ r)).consumed) (drop (decode (b ∷ r)).consumed (b ∷ r)))
chars-take b r zero h = absurd (omega (arith, decode-consumed b r))
chars-take b r (suc m) h = chars-cons b (take m r) ∙ rw (decode-take b r m h, take-drop)

-- A step gives the first character.
pub decode-get_or : (u : List ℕ) → (decode u).cp ≡ get_or (chars u) 0 replacement
decode-get_or [] = unfold decode in unfold chars in refl
decode-get_or (b ∷ r) = rw (chars-cons b r)

pub chars_nil : chars [] ≡ []
unfolding chars
chars_nil = refl
