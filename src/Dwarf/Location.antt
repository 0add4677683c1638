-- ===== src/Dwarf/Location.antt =====
-- Where a variable lives: location pieces, location tables and DWARF expressions of
-- engine/src/dwarf.rs, evaluated against a register file.
-- A word is below 2^64; an i64 is the word of the same bits. `&[u64; 18]` is a list: the table of
-- registers has indices up to 16, so that the default of a read is never used.
pub mod Programs
pub mod Pieces
pub mod Panics
use Prim.Native.Nat.{bit_xor}
use Prim.Native.String.{String}
use rtmap.Base.{
  ℕ, suc, ◌+◌, ◌-◌, ◌*◌, ◌/◌, ◌%◌, ◌^◌, bit_and, bit_or, Bool, true, false, ◌&&◌, List, [], ◌∷◌,
  Option, none, some, add64, sub64, u64_mod, u64_max, ltb, leb, ◌==◌, if◌then◌else◌, length, get_or,
  get_elem?, find,
}
use rtmap.Dwarf.{TypeInfo}

pub data ExprStep : Type 0 where
  op_lit op_signed_lit op_reg : ℕ → ExprStep
  op_breg : ℕ → ℕ → ExprStep
  op_frame_base op_addr : ℕ → ExprStep
  op_cfa : ExprStep
  op_deref : ℕ → ExprStep
  op_plus op_minus op_mul op_div op_mod op_neg op_abs : ExprStep
  op_and op_or op_xor op_shl op_shr op_shra op_not op_drop : ExprStep
  op_pick : ℕ → ExprStep
  op_swap op_rot : ExprStep
  op_plus_const : ℕ → ExprStep
  op_stack_value : ExprStep
  op_piece : ℕ → ExprStep

pub data DwarfExprOp : Type 0 where
  -- reg, offset, deref_size
  deref_reg_offset : ℕ → ℕ → ℕ → DwarfExprOp
  -- r1, off1, r2, off2
  reg_plus_reg : ℕ → ℕ → ℕ → ℕ → DwarfExprOp
  stack_machine : List ExprStep → DwarfExprOp

pub data LocationPiece : Type 0 where
  in_address in_frame_base_offset in_register : ℕ → LocationPiece
  in_register_offset : ℕ → ℕ → LocationPiece
  implicit_value : ℕ → LocationPiece
  in_cfa : LocationPiece
  in_expr : DwarfExprOp → LocationPiece

-- `Range` is a half-open interval of program counters.
abbrev pub LocationTable : Type 0
LocationTable = List ((ℕ × ℕ) × LocationPiece)

abbrev pub single : LocationPiece → LocationTable
single piece = ((0, u64_max), piece) ∷ []

abbrev piece_of : Option ((ℕ × ℕ) × LocationPiece) → Option LocationPiece
piece_of none = none
piece_of (some (range, piece)) = some piece

unfoldable pub lookup : ℕ → LocationTable → Option LocationPiece
lookup pc table = piece_of (find (λ e. leb e.0.0 pc && ltb pc e.0.1) table)

pub record LocalVar : Type 0 where
  pub frame_offset : ℕ
  pub name : String
  pub size : ℕ
  pub type_info : TypeInfo
  pub location : LocationTable

pub record FunctionMeta : Type 0 where
  pub name : String
  pub low_pc : ℕ
  pub high_pc : ℕ
  pub frame_base_is_cfa : Bool
  pub locals : List LocalVar

-- From a DWARF register number to the register file.
abbrev pub dwarf_to_regfile : List ℕ
dwarf_to_regfile = 0 ∷ 3 ∷ 2 ∷ 1 ∷ 4 ∷ 5 ∷ 6 ∷ 7 ∷ 8 ∷ 9 ∷ 10 ∷ 11 ∷ 12 ∷ 13 ∷ 14 ∷ 15 ∷ 16 ∷ []

abbrev pub dwarf_reg_to_index : ℕ → Option ℕ
dwarf_reg_to_index dwarf_reg = get_elem? dwarf_to_regfile dwarf_reg

abbrev pub compute_cfa : List ℕ → ℕ
compute_cfa regs = add64 (get_or regs 7 0) 8

abbrev pub frame_start : List ℕ → ℕ → Bool → ℕ
frame_start regs frame_base cfa = if cfa then compute_cfa regs else frame_base

abbrev pub reg_value : List ℕ → ℕ → Option ℕ
reg_value regs r = elim (dwarf_reg_to_index r) [ none ↦ none | some i ↦ some (get_or regs i 0) ]

abbrev pub reg_plus : List ℕ → ℕ → ℕ → Option ℕ
reg_plus regs r off = elim (dwarf_reg_to_index r) [
  | none ↦ none
  | some i ↦ some (add64 (get_or regs i 0) off)
]

-- `as i64`, `unsigned_abs`, `/` and `>>` on the words of signed numbers.
abbrev pub is_negative : ℕ → Bool
is_negative a = leb (2 ^ 63) a

abbrev pub unsigned_abs : ℕ → ℕ
unsigned_abs a = if is_negative a then u64_mod - a else a

abbrev pub same_sign : ℕ → ℕ → Bool
same_sign a b = if is_negative a then is_negative b else (if is_negative b then false else true)

abbrev pub signed_div : ℕ → ℕ → ℕ
signed_div a b =
    if same_sign a b
    then unsigned_abs a / unsigned_abs b
    else (u64_mod - unsigned_abs a / unsigned_abs b) % u64_mod

-- `i64::MIN / -1` is a panic in every profile.
abbrev pub overflows : ℕ → ℕ → Bool
overflows a b = (a == 2 ^ 63) && (b == u64_max)

abbrev pub wrapping_shl : ℕ → ℕ → ℕ
wrapping_shl a b = a * 2 ^ (b % 64) % u64_mod

abbrev pub wrapping_shr : ℕ → ℕ → ℕ
wrapping_shr a b = a / 2 ^ (b % 64)

-- The release profile masks the shift's amount.
abbrev pub signed_shr : ℕ → ℕ → ℕ
signed_shr a b = if is_negative a then u64_max - (u64_max - a) / 2 ^ (b % 64) else a / 2 ^ (b % 64)

-- Two steps do not work on the stack: one ends the loop, one marks the result as a value.
pub data Role : Type 0 where
  breaks marks works : Role

abbrev pub role : ExprStep → Role
role (op_piece n) = breaks
role op_stack_value = marks
role s = works

-- What one step makes of the stack, whose top comes first.
pub data Turn : Type 0 where
  panic refused : Turn
  next : List ℕ → Turn

abbrev pub by_role :
    Role → Option (Option ℕ) → Option (Option ℕ) → Option (Option ℕ) → Option (Option ℕ)
by_role breaks stop marked worked = stop
by_role marks stop marked worked = marked
by_role works stop marked worked = worked

abbrev pub go_on : (List ℕ → Option (Option ℕ)) → Turn → Option (Option ℕ)
go_on rest panic = none
go_on rest refused = some none
go_on rest (next stack) = rest stack

abbrev pub push_some : Option ℕ → List ℕ → Turn
push_some none stack = refused
push_some (some v) stack = next (v ∷ stack)

-- `stack.len() < 2` and `stack.len() < 3`
abbrev pub fewer_than_two : List ℕ → Bool
fewer_than_two (b ∷ a ∷ stack) = false
fewer_than_two stack = true

abbrev pub fewer_than_three : List ℕ → Bool
fewer_than_three (c ∷ b ∷ a ∷ stack) = false
fewer_than_three stack = true

-- `pop().unwrap()`, twice
abbrev pub pop_two : List ℕ → (ℕ → ℕ → List ℕ → Turn) → Turn
pop_two (b ∷ a ∷ stack) then_do = then_do b a stack
pop_two stack then_do = panic

abbrev pub binary : (ℕ → ℕ → ℕ) → List ℕ → Turn
binary f stack =
    if fewer_than_two stack then refused else pop_two stack (λ b a rest. next (f a b ∷ rest))

abbrev pub unary : (ℕ → ℕ) → List ℕ → Turn
unary f (v ∷ stack) = next (f v ∷ stack)
unary f [] = refused

-- `/` on i64 and `%` on u64 panic where the divisor is 0, and `/` where the quotient overflows.
abbrev pub push_quotient : ℕ → ℕ → List ℕ → Turn
push_quotient a b stack =
    if b == 0 then panic else (if overflows a b then panic else next (signed_div a b ∷ stack))

abbrev pub push_remainder : ℕ → ℕ → List ℕ → Turn
push_remainder a b stack = if b == 0 then panic else next (a % b ∷ stack)

abbrev pub divide : List ℕ → Turn
divide stack =
    if fewer_than_two stack
    then refused
    else pop_two stack (λ b a rest. if b == 0 then refused else push_quotient a b rest)

abbrev pub modulo : List ℕ → Turn
modulo stack =
    if fewer_than_two stack
    then refused
    else pop_two stack (λ b a rest. if b == 0 then refused else push_remainder a b rest)

-- `swap` and the assignments to places at the end, which panic where the stack is shorter.
abbrev pub swap_top : List ℕ → Turn
swap_top (b ∷ a ∷ stack) = next (a ∷ b ∷ stack)
swap_top stack = panic

abbrev pub swap : List ℕ → Turn
swap stack = if fewer_than_two stack then refused else swap_top stack

abbrev pub rotate_top : List ℕ → Turn
rotate_top (c ∷ b ∷ a ∷ stack) = next (b ∷ a ∷ c ∷ stack)
rotate_top stack = panic

abbrev pub rot : List ℕ → Turn
rot stack = if fewer_than_three stack then refused else rotate_top stack

abbrev pub drop_top : List ℕ → Turn
drop_top (v ∷ stack) = next stack
drop_top [] = refused

module _ (regs : List ℕ) (frame_base : ℕ) (cfa : Bool) where
  -- One turn of the loop; `op_stack_value` and `op_piece` are the loop's own.
  unfoldable pub step : ExprStep → List ℕ → Turn
  step (op_lit v) stack = next (v ∷ stack)
  step (op_signed_lit v) stack = next (v ∷ stack)
  step (op_reg r) stack = push_some (reg_value regs r) stack
  step (op_breg r off) stack = push_some (reg_plus regs r off) stack
  step (op_frame_base off) stack = next (add64 (frame_start regs frame_base cfa) off ∷ stack)
  step (op_addr a) stack = next (a ∷ stack)
  step op_cfa stack = next (compute_cfa regs ∷ stack)
  step (op_deref size) stack = refused
  step op_plus stack = binary add64 stack
  step op_minus stack = binary sub64 stack
  step op_mul stack = binary (λ a b. a * b % u64_mod) stack
  step op_div stack = divide stack
  step op_mod stack = modulo stack
  step op_neg stack = unary (sub64 0) stack
  step op_abs stack = unary unsigned_abs stack
  step op_and stack = binary bit_and stack
  step op_or stack = binary bit_or stack
  step op_xor stack = binary bit_xor stack
  step op_shl stack = binary wrapping_shl stack
  step op_shr stack = binary wrapping_shr stack
  step op_shra stack = binary signed_shr stack
  step op_not stack = unary (λ v. u64_max - v) stack
  step op_drop stack = drop_top stack
  step (op_pick i) stack = push_some (get_elem? stack i) stack
  step op_swap stack = swap stack
  step op_rot stack = rot stack
  step (op_plus_const c) stack = unary (λ v. add64 v c) stack
  step op_stack_value stack = next stack
  step (op_piece n) stack = next stack

  abbrev pub top_of : Bool → List ℕ → Option ℕ
  top_of is_stack_value stack = if is_stack_value then none else get_elem? stack 0

  -- The loop over the steps. The outer `none` is the panic, the inner one `None`.
  unfoldable pub run_steps : Bool → List ℕ → List ExprStep → Option (Option ℕ)
  unfolding step
  run_steps is_stack_value stack [] = some (top_of is_stack_value stack)
  run_steps is_stack_value stack (s ∷ steps) =
      by_role (role s) (some (top_of is_stack_value stack)) (run_steps true stack steps)
        (go_on (λ stack'. run_steps is_stack_value stack' steps) (step s stack))

  pub eval_stack_machine : List ExprStep → Option (Option ℕ)
  unfolding run_steps
  eval_stack_machine steps = run_steps false [] steps

  -- The sum of two registers with their offsets.
  abbrev pub sum_of : Option ℕ → Option ℕ → Option ℕ
  sum_of none o = none
  sum_of (some v1) none = none
  sum_of (some v1) (some v2) = some (add64 v1 v2)

  pub resolve_expr : DwarfExprOp → Option (Option ℕ)
  unfolding eval_stack_machine
  resolve_expr (deref_reg_offset reg offset size) = some (reg_plus regs reg offset)
  resolve_expr (reg_plus_reg r1 off1 r2 off2) =
      some (sum_of (reg_plus regs r1 off1) (reg_plus regs r2 off2))
  resolve_expr (stack_machine steps) = eval_stack_machine steps

  pub resolve_location : LocationPiece → Option (Option ℕ)
  unfolding resolve_expr
  resolve_location (in_address a) = some (some a)
  resolve_location (in_frame_base_offset off) =
      some (some (add64 (frame_start regs frame_base cfa) off))
  resolve_location (in_register r) = some (reg_value regs r)
  resolve_location (in_register_offset r off) = some (reg_plus regs r off)
  resolve_location (implicit_value v) = some none
  resolve_location in_cfa = some (some (compute_cfa regs))
  resolve_location (in_expr op) = resolve_expr op
