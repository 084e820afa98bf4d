-- ===== src/Abi.antt =====
-- src/sys.rs: the declarations of liburing's structs and unions with the assertions on their layout
-- that the generator has put beside them. The layout is that of Rust's `repr(C)` on a 64-bit target.
pub mod Entries
pub mod Events
pub mod Buffers
pub mod Register
pub mod Rings
pub mod Table
pub mod Numbered
pub mod Flags
pub mod Codes
pub mod Families
use Prim.Native.String.{String}
use text.Mathlib.Text.{◌==◌}
use uring_ws.Base.{
  ℕ, ◌+◌, ◌-◌, ◌*◌, ◌%◌, ltb, if◌then◌else◌, Option, some, none, List, [], ◌∷◌, Result, ok, panic,
  or_panic, ◌>>=◌, ◌>>◌, sub_checked, out_of_bounds, undefined,
}

-- What the layout of a type is: `size_of` and `align_of`.
pub record Shape : Type 0 where
  pub size : ℕ
  pub align : ℕ

abbrev pub scalar : ℕ → Shape
scalar n = record { size = n; align = n }

abbrev pub pointer : Shape
pointer = scalar 8

abbrev pub usize : Shape
usize = scalar 8

abbrev pub c_uint : Shape
c_uint = scalar 4

abbrev pub c_int : Shape
c_int = scalar 4

abbrev pub c_ulong : Shape
c_ulong = scalar 8

abbrev pub c_longlong : Shape
c_longlong = scalar 8

abbrev pub kernel_time64_t : Shape
kernel_time64_t = c_longlong

abbrev pub kernel_u8 : Shape
kernel_u8 = scalar 1

abbrev pub kernel_u16 : Shape
kernel_u16 = scalar 2

abbrev pub kernel_s32 : Shape
kernel_s32 = c_int

abbrev pub kernel_u32 : Shape
kernel_u32 = c_uint

abbrev pub kernel_u64 : Shape
kernel_u64 = scalar 8

abbrev pub kernel_rwf_t : Shape
kernel_rwf_t = c_int

abbrev pub array : ℕ → Shape → Shape
array n s = record { size = n * s.size; align = s.align }

-- An array of no elements, and a `PhantomData`.
abbrev pub incomplete_array_field : Shape → Shape
incomplete_array_field s = array 0 s

pub record Field : Type 0 where
  pub name : String
  pub shape : Shape

abbrev pub field : String → Shape → Field
field name shape = record { name = name; shape = shape }

pub data Kind : Type 0 where
  struct union packed_union : Kind

-- A declaration, and the numbers that its assertions name.
pub record Declaration : Type 0 where
  pub kind : Kind
  pub fields : List Field
  pub size : ℕ
  pub align : ℕ
  pub offsets : List (String × ℕ)

pub record Placed : Type 0 where
  pub offset : ℕ
  pub field : Field

-- The first multiple of the alignment from `n` on.
abbrev pub aligned_from : (n align : ℕ) → ℕ
aligned_from n align = if ltb 0 (n % align) then n + (align - n % align) else n

abbrev pub larger : ℕ → ℕ → ℕ
larger a b = if ltb a b then b else a

abbrev pub place_from : ℕ → List Field → List Placed
place_from n [] = []
place_from n (f ∷ fs) =
    record { offset = aligned_from n f.shape.align; field = f }
    ∷ place_from (aligned_from n f.shape.align + f.shape.size) fs

abbrev pub end_from : ℕ → List Field → ℕ
end_from n [] = n
end_from n (f ∷ fs) = end_from (aligned_from n f.shape.align + f.shape.size) fs

abbrev pub widest : List Field → ℕ
widest [] = 0
widest (f ∷ fs) = larger f.shape.size (widest fs)

abbrev pub strictest : List Field → ℕ
strictest [] = 1
strictest (f ∷ fs) = larger f.shape.align (strictest fs)

abbrev pub shape_of : Kind → List Field → Shape
shape_of struct fs = record {
  size = aligned_from (end_from 0 fs) (strictest fs);
  align = strictest fs;
}
shape_of union fs = record { size = aligned_from (widest fs) (strictest fs); align = strictest fs }
shape_of packed_union fs = record { size = widest fs; align = 1 }

abbrev pub at_start : List Field → List Placed
at_start [] = []
at_start (f ∷ fs) = record { offset = 0; field = f } ∷ at_start fs

abbrev pub placed : Kind → List Field → List Placed
placed struct fs = place_from 0 fs
placed union fs = at_start fs
placed packed_union fs = at_start fs

-- `offset_of!`
abbrev pub offset_of : String → List Placed → Option ℕ
offset_of name [] = none
offset_of name (p ∷ ps) = if p.field.name == name then some p.offset else offset_of name ps

-- `["…"][a - n]`, an index into an array of one element.
unfoldable pub assert_const : (a n : ℕ) → Result (Unit {0})
assert_const a n = do index ← sub_checked a n; if ltb index 1 then ok tt else panic out_of_bounds

unfoldable pub assert_offsets : List Placed → List (String × ℕ) → Result (Unit {0})
assert_offsets ps [] = ok tt
assert_offsets ps ((name, n) ∷ rest) = do
  offset ← or_panic undefined (offset_of name ps)
  assert_const offset n
  assert_offsets ps rest

-- All assertions of a declaration.
unfoldable pub compile : Declaration → Result (Unit {0})
unfolding assert_const assert_offsets
compile d = do
  let shape = shape_of d.kind d.fields
  assert_const shape.size d.size
  assert_const shape.align d.align
  assert_offsets (placed d.kind d.fields) d.offsets
