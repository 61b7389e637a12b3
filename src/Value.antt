-- ===== src/Value.antt =====
-- lib/pc_val.c: a dimension's values as doubles. The arithmetic of `double` is a parameter.
pub mod Write
pub mod Window
use pointcloud.Common.{ℕ, ◌-◌, ◌^◌, Bool, not, ◌==◌, ltb, if◌then◌else◌, List, Option, none, some}
use pointcloud.Common.Result.{Result, ok, fail, pcerror, ◌>>=◌}
use pointcloud.Bytes.{slice}
use pointcloud.Bytes.Words.{word_of}

-- The type `double` with what the code does with it: comparisons, arithmetic, conversion from
-- integers and, by `lround`, to the 64 bits of a `long`, and the reading and writing of 4 bytes as
-- a `float` and of 8 as a `double`.
pub record Doubles {ℓ} (D : Type ℓ) : Type ℓ where
  pub less : D → D → Bool
  pub equal : D → D → Bool
  pub add : D → D → D
  pub subtract : D → D → D
  pub multiply : D → D → D
  pub divide : D → D → D
  pub negate : D → D
  pub from_nat : ℕ → D
  pub from_float_bits : ℕ → D
  pub from_double_bits : ℕ → D
  pub flt_max : D
  pub dbl_max : D
  pub lround : D → ℕ
  pub float_bits : D → ℕ
  pub double_bits : D → ℕ

-- The numbers of `enum INTERPRETATIONS`.
abbrev pub pc_int8 : ℕ
pc_int8 = 1

abbrev pub pc_uint8 : ℕ
pc_uint8 = 2

abbrev pub pc_int16 : ℕ
pc_int16 = 3

abbrev pub pc_uint16 : ℕ
pc_uint16 = 4

abbrev pub pc_int32 : ℕ
pc_int32 = 5

abbrev pub pc_uint32 : ℕ
pc_uint32 = 6

abbrev pub pc_int64 : ℕ
pc_int64 = 7

abbrev pub pc_uint64 : ℕ
pc_uint64 = 8

abbrev pub pc_double : ℕ
pc_double = 9

abbrev pub pc_float : ℕ
pc_float = 10

module _ {ℓ} {D : Type ℓ} (doubles : Doubles D) where
  -- A word of `w` bits as a number in two's complement.
  from_signed : ℕ → ℕ → D
  from_signed w v =
      if ltb v (2 ^ (w - 1))
      then doubles.from_nat v
      else doubles.negate (doubles.from_nat (2 ^ w - v))

  -- The bytes that a case of the `switch` copies, and what it makes of them.
  conversion : ℕ → Option (ℕ × (ℕ → D))
  unfolding from_signed
  conversion interpretation =
      if interpretation == pc_uint8
      then some (1, doubles.from_nat)
      else if interpretation == pc_uint16
      then some (2, doubles.from_nat)
      else if interpretation == pc_uint32
      then some (4, doubles.from_nat)
      else if interpretation == pc_uint64
      then some (8, doubles.from_nat)
      else if interpretation == pc_int8
      then some (1, from_signed 8)
      else if interpretation == pc_int16
      then some (2, from_signed 16)
      else if interpretation == pc_int32
      then some (4, from_signed 32)
      else if interpretation == pc_int64
      then some (8, from_signed 64)
      else if interpretation == pc_float
      then some (4, doubles.from_float_bits)
      else if interpretation == pc_double
      then some (8, doubles.from_double_bits)
      else none

  -- `ptr` is the memory from the pointer on.
  unfoldable pub double_from_ptr : List ℕ → ℕ → Result D
  unfolding conversion
  double_from_ptr ptr interpretation = elim (conversion interpretation) [
    | none ↦ fail pcerror
    | some (k, convert) ↦ do v ← slice ptr 0 k; ok (convert (word_of v))
  ]

-- The parts of a `PCDIMENSION` that scale its values.
pub record Scaling {ℓ} (D : Type ℓ) : Type ℓ where
  pub scale : D
  pub offset : D

module _ {ℓ} {D : Type ℓ} (doubles : Doubles D) where
  nonzero : D → Bool
  nonzero d = not (doubles.equal d (doubles.from_nat 0))

  not_one : D → Bool
  not_one d = not (doubles.equal d (doubles.from_nat 1))

  unfoldable pub value_unscale_unoffset : D → Scaling D → D
  unfolding nonzero not_one
  value_unscale_unoffset val dim =
      let moved = if nonzero dim.offset then doubles.subtract val dim.offset else val in
      if not_one dim.scale then doubles.divide moved dim.scale else moved

  unfoldable pub value_scale_offset : D → Scaling D → D
  unfolding nonzero not_one
  value_scale_offset val dim =
      let scaled = if not_one dim.scale then doubles.multiply val dim.scale else val in
      if nonzero dim.offset then doubles.add scaled dim.offset else scaled

  unfoldable pub value_from_ptr : List ℕ → ℕ → Scaling D → Result D
  unfolding double_from_ptr value_scale_offset
  value_from_ptr ptr interpretation dim = do
    val ← double_from_ptr doubles ptr interpretation
    ok (value_scale_offset val dim)
