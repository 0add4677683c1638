-- ===== src/Dwarf.antt =====
-- The type descriptions of engine/src/dwarf.rs, as the engine reads them from debug information.
pub mod Location
use Prim.Native.String.{String}
use rtmap.Base.{ℕ, Bool, List, [], ◌∷◌}

-- `TypeInfo` and `FieldInfo` hold one another; `Fields` is the vector of fields.
mutual
  -- name, byte_size, is_pointer, is_volatile, is_atomic, shallow, fields
  pub data TypeInfo : Type 0 where
    type_info : String → ℕ → Bool → Bool → Bool → Bool → Fields → TypeInfo

  pub data Fields : Type 0 where
    no_fields : Fields
    field : FieldInfo → Fields → Fields

  -- name, byte_offset, byte_size, type_info, alignment
  pub data FieldInfo : Type 0 where
    field_info : String → ℕ → ℕ → TypeInfo → ℕ → FieldInfo

-- The fields of `TypeInfo`.
abbrev pub name : TypeInfo → String
name (type_info n size pointer is_volatile is_atomic shallow fs) = n

abbrev pub byte_size : TypeInfo → ℕ
byte_size (type_info n size pointer is_volatile is_atomic shallow fs) = size

abbrev pub is_pointer : TypeInfo → Bool
is_pointer (type_info n size pointer is_volatile is_atomic shallow fs) = pointer

abbrev pub field_list : Fields → List FieldInfo
field_list no_fields = []
field_list (field f fs) = f ∷ field_list fs

abbrev pub fields : TypeInfo → List FieldInfo
fields (type_info n size pointer is_volatile is_atomic shallow fs) = field_list fs

-- The fields of `FieldInfo`.
abbrev pub field_name : FieldInfo → String
field_name (field_info n offset size t alignment) = n

abbrev pub byte_offset : FieldInfo → ℕ
byte_offset (field_info n offset size t alignment) = offset

abbrev pub field_size : FieldInfo → ℕ
field_size (field_info n offset size t alignment) = size

abbrev pub field_type : FieldInfo → TypeInfo
field_type (field_info n offset size t alignment) = t
