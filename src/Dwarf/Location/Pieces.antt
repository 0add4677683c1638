-- ===== src/Dwarf/Location/Pieces.antt =====
-- Pieces in programs of the stack machine of engine/src/dwarf.rs.
use rtmap.Base.{ℕ, ◌≡◌, refl, Bool, true, List, [], ◌∷◌, ◌++◌, Option, some}
use rtmap.Dwarf.Location.{
  ExprStep, op_piece, Role, breaks, marks, works, role, Turn, panic, refused, next, step, run_steps,
  top_of, by_role, go_on,
}

module _ (regs : List ℕ) (frame_base : ℕ) (cfa : Bool) where
  go_on-cong :
      (f g : List ℕ → Option (Option ℕ)) (t : Turn)
      → ((stack : List ℕ) → f stack ≡ g stack)
      → go_on f t ≡ go_on g t
  go_on-cong f g panic h = refl
  go_on-cong f g refused h = refl
  go_on-cong f g (next stack) h = h stack

  -- The machine looks at nothing behind a piece.
  pub run_steps-piece :
      (mark : Bool) (stack : List ℕ) (steps rest : List ExprStep) (n : ℕ)
      → run_steps regs frame_base cfa mark stack (steps ++ op_piece n ∷ rest)
        ≡ run_steps regs frame_base cfa mark stack steps
  unfolding run_steps
  run_steps-piece mark stack [] rest n = refl
  run_steps-piece mark stack (s ∷ steps) rest n =
      by_step (role s) (λ m st. run_steps-piece m st steps rest n)
    where
      by_step :
          (r : Role)
          → ((m : Bool) (st : List ℕ)
              → run_steps regs frame_base cfa m st (steps ++ op_piece n ∷ rest)
                ≡ run_steps regs frame_base cfa m st steps)
          → by_role r
              (some (top_of regs frame_base cfa mark stack))
              (run_steps regs frame_base cfa true stack (steps ++ op_piece n ∷ rest))
              (go_on
                (λ st. run_steps regs frame_base cfa mark st (steps ++ op_piece n ∷ rest))
                (step regs frame_base cfa s stack))
            ≡ by_role r
                (some (top_of regs frame_base cfa mark stack))
                (run_steps regs frame_base cfa true stack steps)
                (go_on
                  (λ st. run_steps regs frame_base cfa mark st steps)
                  (step regs frame_base cfa s stack))
      by_step breaks ih = refl
      by_step marks ih = ih true stack
      by_step works ih = go_on-cong _ _ (step regs frame_base cfa s stack) (ih mark)
