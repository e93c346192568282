-- ===== src/Strings/Reverse/Laws.antt =====
-- The reversed string has the characters in the other order.
use idris2_rc.Prelude.{
  ℕ, suc, ◌+◌, ◌-◌, ◌^◌, ◌<◌, ◌≡◌, refl, sym, ap, ◌∙◌, some, List, [], ◌∷◌, ◌++◌, arith, u64, drop,
  length, replicate, length-append, take-length_append, drop-length_append, get_elem?, add_assoc,
  zero-add, add-zero, All,
}
use mathlib.Core.List.{append-nil, append_assoc, reverse, reverse-cons, reverse-reverse}
use idris2_rc.Prelude.Run.{ok}
use idris2_rc.Utf8.{decode_at, encode_len, encode_into}
use idris2_rc.Utf8.Decode.{IsScalar, decode_at-decode}
use idris2_rc.Utf8.Encode.{decode-encode_into, length-encode_into, encode_len_bounds}
use idris2_rc.Utf8.Chars.{encode_all}
use idris2_rc.Utf8.Walk.{utf8_length-chars}
use idris2_rc.Strings.Copy.{of_bytes, mk_empty_string-ok}
use idris2_rc.Strings.Ops.{IsContent, memory-IsBytes, memory-covers}
use idris2_rc.Strings.Pack.Laws.{memcpy-piece, encode_all-IsBytes, chars-encoded}
use idris2_rc.Strings.Reverse.{offsets_loop, reverse_loop, str_reverse}

-- Where the characters of a text start.
starts : ℕ → List ℕ → List ℕ
starts o [] = []
starts o (c ∷ cs) = o ∷ starts (o + encode_len c) cs

encode_all-append : (xs ys : List ℕ) → encode_all (xs ++ ys) ≡ encode_all xs ++ encode_all ys
unfolding encode_all
encode_all-append [] ys = refl
encode_all-append (x ∷ xs) ys =
    rw (encode_all-append xs ys)
      (sym (append_assoc (encode_into x) (encode_all xs) (encode_all ys)))

length-cons :
    (c : ℕ) (cs : List ℕ) (o : ℕ)
    → o + length (encode_all (c ∷ cs)) ≡ o + encode_len c + length (encode_all cs)
unfolding encode_all
length-cons c cs o =
    omega (arith, length-append (encode_into c) (encode_all cs), length-encode_into c)

-- The offsets of a text with its end: the offset behind a part of it is the length of that part.
starts-get :
    (xs ys : List ℕ) (o : ℕ)
    → get_elem? (starts o (xs ++ ys) ++ (o + length (encode_all (xs ++ ys))) ∷ []) (length xs)
      ≡ some (o + length (encode_all xs))
unfolding starts
starts-get [] [] o = refl
starts-get [] (y ∷ ys) o = unfold encode_all in ap some (sym (add-zero o))
starts-get (x ∷ xs) ys o =
    rw (length-cons x (xs ++ ys) o, length-cons x xs o) (starts-get xs ys (o + encode_len x))

-- The step at the start of a character.
decode_at-char :
    (bs front : List ℕ) (c : ℕ) (cs : List ℕ)
    → IsContent bs
    → IsScalar c
    → bs ≡ front ++ encode_all (c ∷ cs)
    → decode_at (bs ++ 0 ∷ []) (length bs) (length front)
      ≡ some (record { cp = c; consumed = encode_len c })
decode_at-char bs front c cs content scalar e =
    let behind : drop (length front) bs ≡ encode_into c ++ encode_all cs =
      rw e (drop-length_append front (encode_all (c ∷ cs)) ∙ unfold encode_all in refl) in
    decode_at-decode (bs ++ 0 ∷ []) (length bs) (length front) (memory-IsBytes bs content)
      (memory-covers bs content)
    ∙ rw (take-length_append bs (0 ∷ []), behind)
        (ap some (decode-encode_into c (encode_all cs) scalar))

-- One character more in front.
move_char :
    (front : List ℕ) (c : ℕ) (cs : List ℕ)
    → front ++ encode_all (c ∷ cs) ≡ (front ++ encode_into c) ++ encode_all cs
unfolding encode_all
move_char front c cs = sym (append_assoc front (encode_into c) (encode_all cs))

length-move_char :
    (front : List ℕ) (c : ℕ) → length (front ++ encode_into c) ≡ length front + encode_len c
length-move_char front c = omega (arith, length-append front (encode_into c), length-encode_into c)

offsets_loop-starts :
    (bs cs front : List ℕ)
    → IsContent bs
    → All IsScalar cs
    → bs ≡ front ++ encode_all cs
    → offsets_loop (length cs) (bs ++ 0 ∷ []) (length bs) (length front)
      ≡ ok (starts (length front) cs)
unfolding offsets_loop starts
offsets_loop-starts bs [] front content h e = refl
offsets_loop-starts bs (c ∷ cs) front content h e =
    let later =
      offsets_loop-starts bs cs (front ++ encode_into c) content h.1 (e ∙ move_char front c cs) in
    rw (decode_at-char bs front c cs content h.0 e, ← length-move_char front c, later) refl

length-reversed : (rs : List ℕ) → length (reverse rs) ≡ length rs
length-reversed [] = refl
length-reversed (c ∷ rs) =
    rw (reverse-cons c rs) (omega (arith, length-append (reverse rs) (c ∷ []), length-reversed rs))

no_bytes : length (encode_all []) ≡ 0
unfolding encode_all
no_bytes = refl

length-encode_all-reverse :
    (cs : List ℕ) → length (encode_all (reverse cs)) ≡ length (encode_all cs)
length-encode_all-reverse [] = refl
length-encode_all-reverse (c ∷ cs) =
    rw (reverse-cons c cs, encode_all-append (reverse cs) (c ∷ []))
      (omega (
        arith,
        length-append (encode_all (reverse cs)) (encode_all (c ∷ [])),
        length-cons c [] 0,
        length-cons c cs 0,
        length-encode_all-reverse cs,
        no_bytes,
      ))

encoded_first :
    (c : ℕ) (cs rest : List ℕ)
    → encode_all (c ∷ cs) ++ rest ≡ encode_into c ++ (encode_all cs ++ rest)
unfolding encode_all
encoded_first c cs rest = append_assoc (encode_into c) (encode_all cs) rest

module _ (bs cs : List ℕ) (small : length bs < 2 ^ 32) (e : bs ≡ encode_all cs) where
  abbrev offsets : List ℕ
  offsets = starts 0 cs ++ length bs ∷ []

  get-offsets :
      (xs ys : List ℕ)
      → cs ≡ xs ++ ys
      → get_elem? offsets (length xs) ≡ some (length (encode_all xs))
  get-offsets xs ys f =
      rw (e, f)
        (rw (zero-add (length (encode_all (xs ++ ys))), zero-add (length (encode_all xs))) at
          (starts-get xs ys 0))

  next-offsets :
      (xs : List ℕ) (c : ℕ) (ys : List ℕ)
      → cs ≡ xs ++ c ∷ ys
      → get_elem? offsets (suc (length xs)) ≡ some (length (encode_all xs) + encode_len c)
  next-offsets xs c ys f =
      let one_more : length (xs ++ c ∷ []) ≡ suc (length xs) =
        omega (arith, length-append xs (c ∷ [])) in
      let last : encode_all (c ∷ []) ≡ encode_into c =
        unfold encode_all in append-nil (encode_into c) in
      let size : length (encode_all (xs ++ c ∷ [])) ≡ length (encode_all xs) + encode_len c =
        rw (encode_all-append xs (c ∷ []), last) (length-move_char (encode_all xs) c) in
      rw (one_more, size) at (get-offsets (xs ++ c ∷ []) ys (f ∙ sym (append_assoc xs (c ∷ []) ys)))

  drop-char :
      (xs : List ℕ) (c : ℕ) (ys : List ℕ)
      → cs ≡ xs ++ c ∷ ys
      → drop (length (encode_all xs)) (bs ++ 0 ∷ []) ≡ encode_into c ++ (encode_all ys ++ 0 ∷ [])
  drop-char xs c ys f =
      let text : bs ++ 0 ∷ [] ≡ encode_all xs ++ (encode_into c ++ (encode_all ys ++ 0 ∷ [])) =
        rw (e, f, encode_all-append xs (c ∷ ys))
          (append_assoc (encode_all xs) (encode_all (c ∷ ys)) (0 ∷ [])
            ∙ ap (λ t. encode_all xs ++ t) (encoded_first c ys (0 ∷ []))) in
      rw text (drop-length_append (encode_all xs) (encode_into c ++ (encode_all ys ++ 0 ∷ [])))

  -- The characters of `reverse rs`, which stand in front, are put behind what has been written.
  reverse_loop-encode_all :
      (rs done front : List ℕ) (k : ℕ)
      → cs ≡ reverse rs ++ done
      → reverse_loop
          (length rs)
          offsets
          (bs ++ 0 ∷ [])
          (front ++ replicate (length (encode_all rs) + k) 0)
          (length front)
        ≡ ok ((front ++ encode_all rs) ++ replicate k 0)
  unfolding reverse_loop encode_all
  reverse_loop-encode_all [] done front k f = rw (append-nil, zero-add)
  reverse_loop-encode_all (c ∷ rs) done front k f =
      let f' : cs ≡ reverse rs ++ c ∷ done =
        f ∙ rw (reverse-cons c rs) (append_assoc (reverse rs) (c ∷ []) done) in
      let width : u64 (
            length (encode_all (reverse rs))
            + encode_len c
            + 2 ^ 64
            - length (encode_all (reverse rs)))
          ≡ length (encode_into c) =
        omega (arith, length-encode_into c, encode_len_bounds c) in
      rw
        (
          (rw (length-reversed rs) at (get-offsets (reverse rs) (c ∷ done) f')),
          (rw (length-reversed rs) at (next-offsets (reverse rs) c done f')),
          width,
          drop-char (reverse rs) c done f',
          length-append (encode_into c) (encode_all rs),
          add_assoc (length (encode_into c)) (length (encode_all rs)) k,
          memcpy-piece front (encode_into c) (encode_all done ++ 0 ∷ [])
              (length (encode_all rs) + k),
          ← length-append front (encode_into c),
        )
        (reverse_loop-encode_all rs (c ∷ done) (front ++ encode_into c) k f'
          ∙ ap (λ t. ok (t ++ replicate k 0)) (append_assoc front (encode_into c) (encode_all rs)))

-- `idris2rc2_strReverse` reverses the characters of a valid text of less than `2 ^ 32` bytes, of
-- whatever widths they are: the result has the same characters in the other order, each encoded as
-- before.
pub str_reverse-encode_all :
    (cs : List ℕ)
    → All IsScalar cs
    → length (encode_all cs) < 2 ^ 32
    → str_reverse (of_bytes (encode_all cs)) ≡ ok (of_bytes (encode_all (reverse cs)))
unfolding str_reverse
str_reverse-encode_all cs scalars short =
    let bs = encode_all cs in
    let content : IsContent bs = record { bytes = encode_all-IsBytes cs; short = short } in
    let count =
      utf8_length-chars (bs ++ 0 ∷ []) (length bs) (memory-IsBytes bs content)
        (memory-covers bs content) in
    let found = offsets_loop-starts bs cs [] content scalars refl in
    let back : cs ≡ reverse (reverse cs) ++ [] =
      sym (append-nil (reverse (reverse cs)) ∙ reverse-reverse cs) in
    let size : length (encode_all (reverse cs)) ≡ length bs = length-encode_all-reverse cs in
    let copied =
      (rw (length-reversed cs, size) at
        (reverse_loop-encode_all bs cs short refl (reverse cs) [] [] 1 back)) in
    rw
      (
        count,
        take-length_append bs (0 ∷ []),
        chars-encoded cs scalars,
        found,
        mk_empty_string-ok (length bs) short,
        copied,
      )
      (ap ok (ap (λ n. record { len = n; str = encode_all (reverse cs) ++ 0 ∷ [] }) (sym size)))
