-- ===== src/DoubleConvert/Table.antt =====
-- libs/rc2base/support/c/idris2rc2_rc2base_pow5_table.h, and that each of its rows is right.
mod First
mod Second
mod Third
mod Fourth
mod Fifth
use idris2_rc.Prelude.{
  ℕ, zero, suc, ◌+◌, ◌≡◌, refl, true, false, Bool, ◌&&◌, some, List, [], ◌∷◌, ◌++◌, arith,
  get_elem?, length, add-zero, zero-add,
}
use idris2_rc.DoubleConvert.Entry.{Pow5Entry, is_row, are_rows}
use idris2_rc.DoubleConvert.Table.First.{from_m342}
use idris2_rc.DoubleConvert.Table.Second.{from_m211}
use idris2_rc.DoubleConvert.Table.Third.{from_m80}
use idris2_rc.DoubleConvert.Table.Fourth.{from_51}
use idris2_rc.DoubleConvert.Table.Fifth.{from_182}

unfoldable pub pow5_table : List Pow5Entry
pow5_table = from_m342 ++ (from_m211 ++ (from_m80 ++ (from_51 ++ from_182)))

rows : are_rows 0 pow5_table ≡ true
unfolding are_rows is_row pow5_table
rows = refl

pub length-pow5_table : length pow5_table ≡ 651
unfolding pow5_table
length-pow5_table = refl

and_right : (a : Bool) {b : Bool} → (a && b) ≡ true → b ≡ true
and_right true h = h
and_right false h = absurd (ground arith)

are_rows-get :
    (xs : List Pow5Entry) (k i : ℕ) (x : Pow5Entry)
    → are_rows k xs ≡ true
    → get_elem? xs i ≡ some x
    → is_row (k + i) x ≡ true
unfolding are_rows
are_rows-get [] k i x h g = absurd (ground arith)
are_rows-get (y ∷ ys) k zero x h g = rw add-zero (grind arith)
are_rows-get (y ∷ ys) k (suc i) x h g =
    let later = are_rows-get ys (k + 1) i x (and_right (is_row k y) h) g in
    let same : k + 1 + i ≡ k + suc i = omega arith in (rw same at later)

-- Every row that is read from the table is the row of its exponent.
pub pow5_table-is_row :
    (i : ℕ) (x : Pow5Entry) → get_elem? pow5_table i ≡ some x → is_row i x ≡ true
pow5_table-is_row i x g = let found = are_rows-get pow5_table 0 i x rows g in (rw zero-add at found)
