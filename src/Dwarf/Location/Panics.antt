-- ===== src/Dwarf/Location/Panics.antt =====
-- Panics of the stack machine of engine/src/dwarf.rs.
use rtmap.Base.{ℕ, ◌≡◌, ◌≢◌, refl, Bool, true, false, List, [], ◌∷◌, Option, none, some, arith, All}
use rtmap.Dwarf.Location.{
  ExprStep, op_abs, op_addr, op_and, op_breg, op_cfa, op_deref, op_div, op_drop, op_frame_base,
  op_lit, op_minus, op_mod, op_mul, op_neg, op_not, op_or, op_pick, op_piece, op_plus,
  op_plus_const, op_reg, op_rot, op_shl, op_shr, op_shra, op_signed_lit, op_stack_value, op_swap,
  op_xor, Role, breaks, marks, works, role, Turn, panic, refused, next, step, run_steps,
  eval_stack_machine, binary, unary, push_some, modulo, drop_top, swap, rot, by_role, go_on,
}

-- Which operations never panic.
binary_safe : (f : ℕ → ℕ → ℕ) (stack : List ℕ) → binary f stack ≢ panic
binary_safe f [] = λ p. cc
binary_safe f (a ∷ []) = λ p. cc
binary_safe f (b ∷ a ∷ stack) = λ p. cc

unary_safe : (f : ℕ → ℕ) (stack : List ℕ) → unary f stack ≢ panic
unary_safe f [] = λ p. cc
unary_safe f (v ∷ stack) = λ p. cc

push_safe : (o : Option ℕ) (stack : List ℕ) → push_some o stack ≢ panic
push_safe none stack = λ p. cc
push_safe (some v) stack = λ p. cc

modulo_safe : (stack : List ℕ) → modulo stack ≢ panic
modulo_safe [] = λ p. cc
modulo_safe (a ∷ []) = λ p. cc
modulo_safe (b ∷ a ∷ stack) = λ p. ground arith

drop_safe : (stack : List ℕ) → drop_top stack ≢ panic
drop_safe [] = λ p. cc
drop_safe (v ∷ stack) = λ p. cc

swap_safe : (stack : List ℕ) → swap stack ≢ panic
swap_safe [] = λ p. cc
swap_safe (a ∷ []) = λ p. cc
swap_safe (b ∷ a ∷ stack) = λ p. cc

rot_safe : (stack : List ℕ) → rot stack ≢ panic
rot_safe [] = λ p. cc
rot_safe (a ∷ []) = λ p. cc
rot_safe (b ∷ a ∷ []) = λ p. cc
rot_safe (c ∷ b ∷ a ∷ stack) = λ p. cc

module _ (regs : List ℕ) (frame_base : ℕ) (cfa : Bool) where
  step_safe :
      (s : ExprStep) (stack : List ℕ) → s ≢ op_div → step regs frame_base cfa s stack ≢ panic
  unfolding step
  step_safe (op_lit v) stack other = λ p. cc
  step_safe (op_signed_lit v) stack other = λ p. cc
  step_safe (op_reg r) stack other = push_safe _ stack
  step_safe (op_breg r off) stack other = push_safe _ stack
  step_safe (op_frame_base off) stack other = λ p. cc
  step_safe (op_addr a) stack other = λ p. cc
  step_safe op_cfa stack other = λ p. cc
  step_safe (op_deref size) stack other = λ p. cc
  step_safe op_plus stack other = binary_safe _ stack
  step_safe op_minus stack other = binary_safe _ stack
  step_safe op_mul stack other = binary_safe _ stack
  step_safe op_div stack other = absurd (other refl)
  step_safe op_mod stack other = modulo_safe stack
  step_safe op_neg stack other = unary_safe _ stack
  step_safe op_abs stack other = unary_safe _ stack
  step_safe op_and stack other = binary_safe _ stack
  step_safe op_or stack other = binary_safe _ stack
  step_safe op_xor stack other = binary_safe _ stack
  step_safe op_shl stack other = binary_safe _ stack
  step_safe op_shr stack other = binary_safe _ stack
  step_safe op_shra stack other = binary_safe _ stack
  step_safe op_not stack other = unary_safe _ stack
  step_safe op_drop stack other = drop_safe stack
  step_safe (op_pick i) stack other = push_safe _ stack
  step_safe op_swap stack other = swap_safe stack
  step_safe op_rot stack other = rot_safe stack
  step_safe (op_plus_const c) stack other = unary_safe _ stack
  step_safe op_stack_value stack other = λ p. cc
  step_safe (op_piece n) stack other = λ p. cc

  -- The loop goes on from every turn that is no panic.
  went_on :
      (f : List ℕ → Option (Option ℕ)) (t : Turn)
      → t ≢ panic
      → ((stack : List ℕ) → (o : Option ℕ) × (f stack ≡ some o))
      → (o : Option ℕ) × (go_on f t ≡ some o)
  went_on f panic h k = absurd (h refl)
  went_on f refused h k = (none, refl)
  went_on f (next stack) h k = k stack

  by_role_safe :
      (r : Role) (a b c : Option (Option ℕ))
      → (o : Option ℕ) × (a ≡ some o)
      → (o : Option ℕ) × (b ≡ some o)
      → (o : Option ℕ) × (c ≡ some o)
      → (o : Option ℕ) × (by_role r a b c ≡ some o)
  by_role_safe breaks a b c ha hb hc = ha
  by_role_safe marks a b c ha hb hc = hb
  by_role_safe works a b c ha hb hc = hc

  run_steps_safe :
      (mark : Bool) (stack : List ℕ) (steps : List ExprStep)
      → All (λ s. s ≢ op_div) steps
      → (o : Option ℕ) × (run_steps regs frame_base cfa mark stack steps ≡ some o)
  unfolding run_steps
  run_steps_safe mark stack [] h = (_, refl)
  run_steps_safe mark stack (s ∷ steps) h =
      by_role_safe (role s) _ _ _ (_, refl) (run_steps_safe true stack steps h.1)
        (went_on _ (step regs frame_base cfa s stack) (step_safe s stack h.0)
          (λ st. run_steps_safe mark st steps h.1))

  -- In a release build, where shifts do not panic, the evaluation of a program without a signed
  -- division, over whatever registers and stack, does not panic: it takes nothing from a stack that
  -- is too short and computes no remainder by 0.
  pub eval_stack_machine_total :
      (steps : List ExprStep)
      → All (λ s. s ≢ op_div) steps
      → (o : Option ℕ) × (eval_stack_machine regs frame_base cfa steps ≡ some o)
  unfolding eval_stack_machine
  eval_stack_machine_total = run_steps_safe false []
