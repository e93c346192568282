-- ===== src/Lib.antt =====
-- The C runtime of the rc2 backend (rc2/support/rc2), which every program that the backend compiles
-- is linked with: values on a reference-counted heap, strings of UTF-8, and what the primitives of
-- the language do to them.
--
-- How the parts meet. A value is NULL, an immediate word or a pointer to a heap object with a count
-- in its header. Compiled code calls `idris2rc2_dup` and `idris2rc2_drop`, and the last drop tears
-- the object down with all that hangs under it. A string is a heap object that points to its bytes
-- and knows their number; every operation on characters walks the bytes through the UTF-8 codec.
--
-- Which file models what:
-- - Prelude: shared types, tests, lists and bit operations. `Run` is the outcome of C code: a value,
--   an exit through `IDRIS2RC2_VERIFY`, undefined behaviour, or a model that ran out of fuel.
-- - Utf8: rc2/support/rc2/idris2rc2_utf8.c, function by function. Utf8/Decode has the decoder as a
--   specification on the list of the remaining bytes, Utf8/Chars the characters of a string.
-- - Strings: rc2/support/rc2/idris2rc2_strings.c and the string constructors of
--   rc2/support/rc2/idris2rc2_memory.c, with `memcpy` bounds-checked. Strings/Ops has the theorems.
-- - RefCount: the updates of a count in rc2/support/rc2/idris2rc2_memory.h with one thread;
--   RefCount/Threads has the increment with several, as interleaved steps.
-- - Heap: `idris2rc2_dup`, `idris2rc2_drop`, `idris2rc2_free` and `idris2rc2_teardown`, on a heap
--   that is a list of cells. Heap/Owned has the invariant that counts are right, with objects under
--   teardown; Heap/Teardown and Heap/Drop show that the code keeps it.
-- - Strings/Pack: the loops between strings and lists, and the string iterator, of the same file.
-- - TextBuffer: libs/rc2base/support/c/idris2rc2_rc2base_text_util.c, text as code points.
-- - Buffer: rc2/support/rc2/idris2rc2_buffer.c, byte buffers with checked ranges.
-- - Closure: the application of closures in rc2/support/rc2/idris2rc2_rt.c, by the values that it
--   gives. Compiled functions are a parameter, and fuel counts their calls.
-- - Immediate: integers packed into the word of a value, rc2/support/rc2/idris2rc2_datatypes.h,
--   with their constructors in idris2rc2_memory.h and idris2rc2_memory.c.
-- - Division: the signed division of each width in rc2/support/rc2/idris2rc2_numeric.h, on integers
--   in the range of the width. Division/Euclid has Euclid's division of unbounded integers.
-- - FixedInt: the operations of the integers of 8 to 64 bits of the same header, for a type from
--   its tables. FixedInt/Wrap has conversions, FixedInt/Shift the shifts, FixedInt/Bitwise the
--   bit operations of unbounded integers, FixedInt/Laws and
--   FixedInt/Divide the operations.
-- - Integer: the numbers of any size of the same header, of idris2rc2_numeric.c, idris2rc2_memory.h
--   and idris2rc2_memory.c. GMP is the parameter of Integer/Mpz, with what its manual says as laws;
--   Integer/Model shows that they can hold. Integer/Canonical has the one form of a number.
-- - Channel: the channels of libs/rc2base/support/c/idris2rc2_rc2base_concurrency_util.c, as a linked
--   list in memory. Channel/Queue says which queue a list stands for.
-- - Lazy: a lazy cell and `idris2rc2_force` of rc2/support/rc2/idris2rc2_rt.c, by several threads.
--   A cell that forces itself, and the stack that finds this, are not modelled.
-- - Heap/Slots: the IORefs and arrays of rc2/support/rc2/idris2rc2_ioprims.c on the heap. Heap/Keeps
--   has that a drop changes no value that an object holds.
-- - Memo: rc2/support/rc2/idris2rc2_caf_memoize.c, the top-level values that are computed once, by
--   several threads, and the list that drops them. Memo/Tidy has the invariant, and
--   Memo/Keeps that every run keeps it.
-- - Rounding: the rounding of a quotient to a double of rc2/support/rc2/idris2rc2_numeric.c. The
--   functions of GMP and of C that it calls are the parameter of Rounding/Mpz. Rounding/Nearest and
--   Rounding/Powers have the arithmetic, Rounding/Scaling the loops, Rounding/Unique that there is
--   one double next to a quotient, Rounding/Range that its exponent fits an `int`.
-- - Decimal: the reader and the writer of decimals of rc2/support/rc2/idris2rc2_numeric.c, on GMP and
--   `sprintf` of Decimal/Library. Decimal/Digits has the loops, Decimal/Laws the reader,
--   Decimal/RoundTrip the writer with the reader behind it.
-- - ParseDouble: `idris2rc2_parse_double` of rc2/support/rc2/idris2rc2_numeric.c, which joins the two.
--   ParseDouble/Text has what stands in front of the digits, ParseDouble/Powers the powers of ten.
-- - DoubleConvert: the fast reader of doubles of
--   libs/rc2base/support/c/idris2rc2_rc2base_double_convert.c, to the bits of the double, and its
--   table, idris2rc2_rc2base_pow5_table.h, row by row. DoubleConvert/Rows has the table, Words, Nearest,
--   Bounds and Ratio the arithmetic on words, Fields the bits, Digits, Exponent and Text the scanner,
--   Laws the double that is next to the number, Agree the comparison with ParseDouble. The copy of the
--   bits into a double is the parameter of DoubleConvert/Library.
-- - Strings/Reverse: `idris2rc2_strReverse` of rc2/support/rc2/idris2rc2_strings.c.
-- - Strings/Cast: the casts between a character and a string of rc2/support/rc2/idris2rc2_numeric.c.
-- - Strings/Compare: the comparison of strings of rc2/support/rc2/idris2rc2_numeric.h.
--
-- Bounds and fuel. Widths are written out (`% 2 ^ w`). The loops of Utf8 run on fuel for the bytes
-- there are, each round consumes one at least; teardown runs on fuel for the living objects, of
-- which each round frees one; the loops of Rounding take two rounds at most; the walk of Memo runs on
-- fuel for the memos on its list. The theorems show that this is enough.
--
-- Not modelled: allocation that fails; atomic operations once a second thread runs, but where a
-- file says so; GC pointers with a finalizer; the operations of floating point, the fast writer of
-- doubles, what GMP does inside, the random numbers, which are a copy of another library, sockets and
-- the terminal.
mod Prelude
pub mod Utf8
pub mod Strings
pub mod RefCount
pub mod Heap
pub mod TextBuffer
pub mod Buffer
pub mod Closure
pub mod Immediate
pub mod Division
pub mod FixedInt
pub mod Integer
pub mod Channel
pub mod Lazy
pub mod Memo
pub mod Rounding
pub mod Decimal
pub mod ParseDouble
pub mod DoubleConvert
