-- ===== src/DoubleConvert/Rows.antt =====
-- What the test of a row of the table says.
use idris2_rc.Prelude.{
  ℕ, ◌+◌, ◌-◌, ◌*◌, ◌^◌, ◌<◌, ◌≤◌, ◌≡◌, refl, some, List, [], ◌∷◌, zero, suc, length, get_elem?,
  Bool, true, false, ◌&&◌, leb, ltb, arith,
}
use idris2_rc.Prelude.Int.{pos_part, neg_part}
use idris2_rc.DoubleConvert.Entry.{Pow5Entry, significand, is_row}
use idris2_rc.DoubleConvert.Table.{pow5_table, pow5_table-is_row, length-pow5_table}

-- A row of the table: 128 bits, next to the power of five times a power of two.
pub record IsRow (i : ℕ) (x : Pow5Entry) : Type 0 where
  pub top_set : 2 ^ 127 ≤ significand x
  pub fits : significand x < 2 ^ 128
  pub lo_fits : x.lo < 2 ^ 64
  pub from :
      (2 * significand x - 1) * (5 ^ (342 - i) * 2 ^ neg_part x.e)
      ≤ 2 * (5 ^ (i - 342) * 2 ^ pos_part x.e)
  pub to :
      2 * (5 ^ (i - 342) * 2 ^ pos_part x.e)
      ≤ (2 * significand x + 1) * (5 ^ (342 - i) * 2 ^ neg_part x.e)

leb-le : (a b : ℕ) → leb a b ≡ true → a ≤ b
leb-le a b h = ground arith

ltb-lt : (a b : ℕ) → ltb a b ≡ true → a < b
ltb-lt a b h = ground arith

and_both : (a b : Bool) → (a && b) ≡ true → (a ≡ true) × (b ≡ true)
and_both true b h = (refl, h)
and_both false b h = absurd (ground arith)

pub is_row-IsRow : (i : ℕ) (x : Pow5Entry) → is_row i x ≡ true → IsRow i x
unfolding is_row
is_row-IsRow i x h =
    let (h1, to) = and_both _ _ h in
    let (h2, from) = and_both _ _ h1 in
    let (h3, lo_fits) = and_both _ _ h2 in
    let (top_set, fits) = and_both _ _ h3 in
    record {
      top_set = leb-le _ _ top_set;
      fits = ltb-lt _ _ fits;
      lo_fits = ltb-lt _ _ lo_fits;
      from = leb-le _ _ from;
      to = leb-le _ _ to;
    }

get_elem?-length :
    {A : Type 0} (xs : List A) (i : ℕ) → i < length xs → (x : A) × (get_elem? xs i ≡ some x)
get_elem?-length [] i h = absurd (omega arith)
get_elem?-length (x ∷ xs) zero h = (x, refl)
get_elem?-length (x ∷ xs) (suc i) h = get_elem?-length xs i (omega arith)

-- The table of powers of five has a row for each exponent from -342 to 308. Its 128 bits start with a
-- one, and the power of five is, up to the row's power of two, at most half a unit away from them.
pub pow5_table-IsRow :
    (i : ℕ) → i < 651 → (x : Pow5Entry) × (get_elem? pow5_table i ≡ some x) × IsRow i x
pow5_table-IsRow i h =
    let (x, found) = get_elem?-length pow5_table i (omega (arith, length-pow5_table)) in
    (x, found, is_row-IsRow i x (pow5_table-is_row i x found))
