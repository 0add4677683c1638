-- ===== src/Tests/Locations.antt =====
-- The DWARF stack machine of engine/src/dwarf.rs and the pieces of engine/src/shadow_regs.rs at
-- concrete inputs.
use rtmap.Base.{ℕ, ◌≡◌, ◌≢◌, refl, true, List, [], ◌∷◌, Option, some, arith, replicate}
use rtmap.Dwarf.Location.{
  ExprStep, op_lit, op_reg, op_plus, op_piece, op_stack_value, op_div, eval_stack_machine,
}
use rtmap.Dwarf.Location.Programs.{
  Term, literal, register, based, combine, remainder, sum, compile, value,
  eval_stack_machine-compile,
}
use rtmap.Dwarf.Location.Panics.{eval_stack_machine_total}
use rtmap.ShadowRegs.{ShadowReg, unknown_reg, reg_count}
use rtmap.ShadowRegs.Pieces.{
  PieceFragment, source_bytes, fragment, from_memory, from_register, AssembledValue, resolve_pieces,
}
use rtmap.ShadowRegs.Pieces.Layout.{piece_sizes}
use rtmap.ShadowRegs.Pieces.Contents.{contents, size_sum, resolve_pieces-contents}

abbrev registers : List ℕ
registers = replicate 18 0x100

abbrev term : Term
term = combine sum (based 3 8) (remainder (register 0) (literal 7))

eval_stack_machine-compile_example :
    eval_stack_machine registers 0x7000 true (compile term)
    ≡ some (value registers 0x7000 true term)
eval_stack_machine-compile_example = eval_stack_machine-compile registers 0x7000 true term

lit_other : op_lit 5 ≢ op_div
lit_other e = cc

plus_other : op_plus ≢ op_div
plus_other e = cc

eval_stack_machine_total_example :
    (o : Option ℕ) × (eval_stack_machine registers 0x7000 true (op_lit 5 ∷ op_plus ∷ []) ≡ some o)
eval_stack_machine_total_example =
    eval_stack_machine_total registers 0x7000 true (op_lit 5 ∷ op_plus ∷ [])
      (lit_other, (plus_other, tt))

abbrev steps : List ExprStep
steps = op_reg 3 ∷ op_piece 4 ∷ op_lit 9 ∷ op_stack_value ∷ op_piece 2 ∷ []

steps_pieces : piece_sizes steps ≢ []
unfolding piece_sizes
steps_pieces e = cc

abbrev file : List ShadowReg
file = replicate reg_count (record unknown_reg { value = 0x01020304 })

-- A memory that reads as ones everywhere.
abbrev memory : ℕ → ℕ → Option (List ℕ)
memory addr size = some (replicate size 1)

abbrev fragments : List PieceFragment
fragments = fragment 0 4 (from_register 3) ∷ fragment 4 2 (from_memory 0x2000) ∷ []

resolve_pieces-contents_example :
    (a : AssembledValue) × (resolve_pieces file 0x7000 memory fragments 6 ≡ some a)
    × (a.bytes ≡ contents file 0x7000 memory fragments)
unfolding size_sum source_bytes
resolve_pieces-contents_example =
    resolve_pieces-contents file 0x7000 memory fragments 6 (refl, (refl, tt)) (refl, (refl, tt))
      refl (omega arith)
