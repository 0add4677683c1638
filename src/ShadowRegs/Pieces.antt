-- ===== src/ShadowRegs/Pieces.antt =====
-- `PieceAssembler` of engine/src/shadow_regs.rs: a variable that is spread over registers and
-- memory, cut into the pieces of its DWARF expression and put together from them.
-- Reading the traced process's memory is a parameter.
pub mod Layout
pub mod Assembly
pub mod Contents
use rtmap.Base.{
  ℕ, zero, suc, ◌+◌, ◌/◌, ◌%◌, List, [], ◌∷◌, ◌++◌, Option, none, some, add64, min, ltb, leb,
  if◌then◌else◌, length, take, drop, replicate, ◌>>=◌,
}
use rtmap.Dwarf.Location.{
  ExprStep, op_lit, op_signed_lit, op_reg, op_breg, op_frame_base, op_addr, op_stack_value,
  op_piece,
}
use rtmap.ShadowRegs.{Confidence, unknown, observed, rank, ShadowReg, at, dwarf_reg_to_idx}

pub data PieceSource : Type 0 where
  from_register : ℕ → PieceSource
  from_register_offset : ℕ → ℕ → PieceSource
  from_memory : ℕ → PieceSource
  from_frame_base_offset : ℕ → PieceSource
  implicit : ℕ → PieceSource
  unknown_source : PieceSource

pub record PieceFragment : Type 0 where
  pub var_offset : ℕ
  pub byte_size : ℕ
  pub source : PieceSource

abbrev pub fragment : ℕ → ℕ → PieceSource → PieceFragment
fragment var_offset byte_size source = record {
  var_offset = var_offset;
  byte_size = byte_size;
  source = source;
}

-- The source that a step sets; the other steps set an unknown one if none is pending.
abbrev pub step_source : ExprStep → Option PieceSource → Option PieceSource
step_source (op_reg r) pending = some (from_register r)
step_source (op_breg r off) pending = some (from_register_offset r off)
step_source (op_addr a) pending = some (from_memory a)
step_source (op_frame_base off) pending = some (from_frame_base_offset off)
step_source op_stack_value pending = some (implicit 0)
step_source (op_lit v) pending = some (implicit v)
step_source (op_signed_lit v) pending = some (implicit v)
step_source s none = some unknown_source
step_source s (some source) = some source

abbrev pub piece_size : ExprStep → Option ℕ
piece_size (op_piece n) = some n
piece_size s = none

abbrev source_or_unknown : Option PieceSource → PieceSource
source_or_unknown none = unknown_source
source_or_unknown (some source) = source

-- The loop: the fragments from `var_offset` on, and the source that is pending at the end.
pub parse_from : ℕ → Option PieceSource → List ExprStep → List PieceFragment × Option PieceSource
parse_from var_offset pending [] = ([], pending)
parse_from var_offset pending (s ∷ steps) = elim (piece_size s) [
  | none ↦ parse_from var_offset (step_source s pending) steps
  | some n ↦
      let (fragments, last) = parse_from (add64 var_offset n) none steps in
      (fragment var_offset n (source_or_unknown pending) ∷ fragments, last)
]

-- A location without pieces is one fragment, whose size the caller fills in.
abbrev pub or_whole : List PieceFragment → Option PieceSource → List PieceFragment
or_whole [] none = []
or_whole [] (some source) = fragment 0 0 source ∷ []
or_whole (f ∷ fragments) pending = f ∷ fragments

pub parse_pieces : List ExprStep → List PieceFragment
unfolding parse_from
parse_pieces steps =
    let (fragments, pending) = parse_from 0 none steps in or_whole fragments pending

pub record AssembledValue : Type 0 where
  pub bytes : List ℕ
  pub confidence : List Confidence
  pub min_confidence : Confidence
  pub resolved_count : ℕ
  pub total_count : ℕ

-- `to_le_bytes`, for the first `n` bytes.
abbrev pub le_bytes : ℕ → ℕ → List ℕ
le_bytes zero v = []
le_bytes (suc n) v = v % 256 ∷ le_bytes n (v / 256)

abbrev pub splice {ℓ} : {A : Type ℓ} → ℕ → List A → List A → List A
splice off src dst = take off dst ++ (src ++ drop (off + length src) dst)

module _ (regs : List ShadowReg) (frame_base : ℕ) (read_mem : ℕ → ℕ → Option (List ℕ)) where
  abbrev read_or_zeros : ℕ → ℕ → Confidence → List ℕ × Confidence
  read_or_zeros addr size conf = elim (read_mem addr size) [
    | none ↦ (replicate size 0, unknown)
    | some bytes ↦ (bytes, conf)
  ]

  -- The bytes of a fragment and how far they are trusted.
  unfoldable pub source_bytes : ℕ → PieceSource → List ℕ × Confidence
  source_bytes size (from_register dwarf_reg) = elim (dwarf_reg_to_idx dwarf_reg) [
    | none ↦ (replicate size 0, unknown)
    | some idx ↦ (take (min size 8) (le_bytes 8 (at regs idx).value), (at regs idx).confidence)
  ]
  source_bytes size (from_register_offset dwarf_reg offset) = elim (dwarf_reg_to_idx dwarf_reg) [
    | none ↦ (replicate size 0, unknown)
    | some idx ↦ read_or_zeros (add64 (at regs idx).value offset) size (at regs idx).confidence
  ]
  source_bytes size (from_memory addr) = read_or_zeros addr size observed
  source_bytes size (from_frame_base_offset offset) =
      read_or_zeros (add64 frame_base offset) size observed
  source_bytes size (implicit v) = (take (min size 8) (le_bytes 8 v), observed)
  source_bytes size unknown_source = (replicate size 0, unknown)

  -- `n` bytes of a source, copied to their place.
  abbrev pub placed : ℕ → ℕ → List ℕ → Confidence → AssembledValue → AssembledValue
  placed off n src conf a = record a {
    bytes = splice off (take n src) a.bytes;
    confidence = splice off (replicate n conf) a.confidence;
    min_confidence = if ltb (rank conf) (rank a.min_confidence) then conf else a.min_confidence;
    resolved_count =
        if ltb (rank unknown) (rank conf) then suc a.resolved_count else a.resolved_count;
  }

  -- `none` is the panic of a slice that is out of range.
  abbrev pub place : ℕ → ℕ → List ℕ → Confidence → AssembledValue → Option AssembledValue
  place off n src conf a =
      if leb (off + n) (length a.bytes) then some (placed off n src conf a) else none

  -- A fragment that does not fit is passed over; the sum of its ends wraps.
  pub resolve_fragment : ℕ → PieceFragment → AssembledValue → Option AssembledValue
  unfolding source_bytes
  resolve_fragment total f a =
      let (src, conf) = source_bytes f.byte_size f.source in
      if ltb total (add64 f.var_offset f.byte_size)
      then some a
      else place f.var_offset (min (length src) f.byte_size) src conf a

  pub resolve_all : ℕ → List PieceFragment → AssembledValue → Option AssembledValue
  unfolding resolve_fragment
  resolve_all total [] a = some a
  resolve_all total (f ∷ fragments) a = resolve_fragment total f a >>= resolve_all total fragments

  pub resolve_pieces : List PieceFragment → ℕ → Option AssembledValue
  unfolding resolve_all
  resolve_pieces fragments total = resolve_all total fragments (record {
    bytes = replicate total 0;
    confidence = replicate total unknown;
    min_confidence = observed;
    resolved_count = 0;
    total_count = length fragments;
  })
