-- ===== src/Dwarf/Location/Programs.antt =====
-- Arithmetic terms as programs of the stack machine of engine/src/dwarf.rs.
use Prim.Native.Nat.{bit_xor}
use rtmap.Base.{
  ℕ, ◌-◌, ◌*◌, ◌%◌, ◌≡◌, refl, sym, ap, ◌∙◌, Bool, false, List, [], ◌∷◌, ◌++◌, Option, none, some,
  arith, add64, sub64, u64_mod, u64_max, ◌==◌, if◌then◌else◌, bit_and, bit_or, Option-cases, inl,
  inr,
}
use mathlib.Core.List.{append-nil, append_assoc}
use rtmap.Dwarf.Location.{
  ExprStep, op_lit, op_reg, op_breg, op_frame_base, op_plus, op_minus, op_mul, op_mod, op_and,
  op_or, op_xor, op_shl, op_shr, op_shra, op_neg, op_abs, op_not, op_plus_const, step, run_steps,
  eval_stack_machine, reg_value, reg_plus, frame_start, unsigned_abs, wrapping_shl, wrapping_shr,
  signed_shr, dwarf_reg_to_index,
}

pub data Unary : Type 0 where
  negation absolute complement : Unary
  plus_const : ℕ → Unary

pub data Binary : Type 0 where
  sum difference product conjunction disjunction exclusive shift_left shift_right shift_signed :
      Binary

-- Arithmetic over registers and the frame base.
pub data Term : Type 0 where
  literal : ℕ → Term
  register : ℕ → Term
  based : ℕ → ℕ → Term
  frame : ℕ → Term
  apply : Unary → Term → Term
  combine : Binary → Term → Term → Term
  remainder : Term → Term → Term

abbrev pub unary_code : Unary → ExprStep
unary_code negation = op_neg
unary_code absolute = op_abs
unary_code complement = op_not
unary_code (plus_const c) = op_plus_const c

abbrev pub binary_code : Binary → ExprStep
binary_code sum = op_plus
binary_code difference = op_minus
binary_code product = op_mul
binary_code conjunction = op_and
binary_code disjunction = op_or
binary_code exclusive = op_xor
binary_code shift_left = op_shl
binary_code shift_right = op_shr
binary_code shift_signed = op_shra

-- The program of a term in postfix order.
pub compile : Term → List ExprStep
compile (literal v) = op_lit v ∷ []
compile (register r) = op_reg r ∷ []
compile (based r off) = op_breg r off ∷ []
compile (frame off) = op_frame_base off ∷ []
compile (apply f t) = compile t ++ unary_code f ∷ []
compile (combine f t u) = compile t ++ (compile u ++ binary_code f ∷ [])
compile (remainder t u) = compile t ++ (compile u ++ op_mod ∷ [])

abbrev pub unary_value : Unary → ℕ → ℕ
unary_value negation v = sub64 0 v
unary_value absolute v = unsigned_abs v
unary_value complement v = u64_max - v
unary_value (plus_const c) v = add64 v c

abbrev pub binary_value : Binary → ℕ → ℕ → ℕ
binary_value sum a b = add64 a b
binary_value difference a b = sub64 a b
binary_value product a b = a * b % u64_mod
binary_value conjunction a b = bit_and a b
binary_value disjunction a b = bit_or a b
binary_value exclusive a b = bit_xor a b
binary_value shift_left a b = wrapping_shl a b
binary_value shift_right a b = wrapping_shr a b
binary_value shift_signed a b = signed_shr a b

module _ (regs : List ℕ) (frame_base : ℕ) (cfa : Bool) where
  abbrev pub lift : (ℕ → ℕ → Option ℕ) → Option ℕ → Option ℕ → Option ℕ
  lift f none o = none
  lift f (some a) none = none
  lift f (some a) (some b) = f a b

  -- The value of a term; none for an unknown register and for a remainder by zero.
  pub value : Term → Option ℕ
  value (literal v) = some v
  value (register r) = reg_value regs r
  value (based r off) = reg_plus regs r off
  value (frame off) = some (add64 (frame_start regs frame_base cfa) off)
  value (apply f t) = elim (value t) [ none ↦ none | some v ↦ some (unary_value f v) ]
  value (combine f t u) = lift (λ a b. some (binary_value f a b)) (value t) (value u)
  value (remainder t u) = lift (λ a b. if b == 0 then none else some (a % b)) (value t) (value u)

  -- The machine goes on with the value on its stack, or has refused.
  abbrev resumed : Bool → List ℕ → List ExprStep → Option ℕ → Option (Option ℕ)
  resumed mark stack rest none = some none
  resumed mark stack rest (some v) = run_steps regs frame_base cfa mark (v ∷ stack) rest

  run_unary :
      (f : Unary) (mark : Bool) (v : ℕ) (stack : List ℕ) (rest : List ExprStep)
      → run_steps regs frame_base cfa mark (v ∷ stack) (unary_code f ∷ rest)
        ≡ run_steps regs frame_base cfa mark (unary_value f v ∷ stack) rest
  unfolding run_steps step
  run_unary negation mark v stack rest = refl
  run_unary absolute mark v stack rest = refl
  run_unary complement mark v stack rest = refl
  run_unary (plus_const c) mark v stack rest = refl

  run_binary :
      (f : Binary) (mark : Bool) (a b : ℕ) (stack : List ℕ) (rest : List ExprStep)
      → run_steps regs frame_base cfa mark (b ∷ a ∷ stack) (binary_code f ∷ rest)
        ≡ run_steps regs frame_base cfa mark (binary_value f a b ∷ stack) rest
  unfolding run_steps step
  run_binary sum mark a b stack rest = refl
  run_binary difference mark a b stack rest = refl
  run_binary product mark a b stack rest = refl
  run_binary conjunction mark a b stack rest = refl
  run_binary disjunction mark a b stack rest = refl
  run_binary exclusive mark a b stack rest = refl
  run_binary shift_left mark a b stack rest = refl
  run_binary shift_right mark a b stack rest = refl
  run_binary shift_signed mark a b stack rest = refl

  run_mod :
      (mark : Bool) (a b : ℕ) (stack : List ℕ) (rest : List ExprStep)
      → run_steps regs frame_base cfa mark (b ∷ a ∷ stack) (op_mod ∷ rest)
        ≡ resumed mark stack rest (if b == 0 then none else some (a % b))
  unfolding run_steps step
  run_mod mark a b stack rest = ground arith

  -- The last operation of a term, by the values of its parts.
  resumed_unary :
      (f : Unary) (mark : Bool) (stack : List ℕ) (rest : List ExprStep) (o : Option ℕ)
      → resumed mark stack (unary_code f ∷ rest) o
        ≡ resumed mark stack rest (elim o [ none ↦ none | some v ↦ some (unary_value f v) ])
  resumed_unary f mark stack rest none = refl
  resumed_unary f mark stack rest (some v) = run_unary f mark v stack rest

  -- Two parts in order, where `op` takes the two values off.
  resumed_binary :
      (op : ExprStep) (f : ℕ → ℕ → Option ℕ) (mark : Bool) (stack : List ℕ)
      (rest steps : List ExprStep) (first second : Option ℕ)
      → ((a b : ℕ)
          → run_steps regs frame_base cfa mark (b ∷ a ∷ stack) (op ∷ rest)
            ≡ resumed mark stack rest (f a b))
      → ((a : ℕ)
          → run_steps regs frame_base cfa mark (a ∷ stack) steps
            ≡ resumed mark (a ∷ stack) (op ∷ rest) second)
      → resumed mark stack steps first ≡ resumed mark stack rest (lift f first second)
  resumed_binary op f mark stack rest steps none second last later = refl
  resumed_binary op f mark stack rest steps (some a) none last later = later a
  resumed_binary op f mark stack rest steps (some a) (some b) last later = later a ∙ last a b

  Compiles : Term → Type 0
  Compiles t =
      (mark : Bool) (stack : List ℕ) (rest : List ExprStep)
      → run_steps regs frame_base cfa mark stack (compile t ++ rest)
        ≡ resumed mark stack rest (value t)

  run-parts :
      (op : ExprStep) (f : ℕ → ℕ → Option ℕ) (t u : Term) (mark : Bool) (stack : List ℕ)
      (rest : List ExprStep)
      → ((a b : ℕ)
          → run_steps regs frame_base cfa mark (b ∷ a ∷ stack) (op ∷ rest)
            ≡ resumed mark stack rest (f a b))
      → Compiles t
      → Compiles u
      → run_steps regs frame_base cfa mark stack ((compile t ++ (compile u ++ op ∷ [])) ++ rest)
        ≡ resumed mark stack rest (lift f (value t) (value u))
  unfolding Compiles
  run-parts op f t u mark stack rest last left right =
      ap (run_steps regs frame_base cfa mark stack) (
        append_assoc (compile t) (compile u ++ op ∷ []) rest
        ∙ ap (◌++◌ (compile t)) (append_assoc (compile u) (op ∷ []) rest))
      ∙ left mark stack (compile u ++ op ∷ rest)
      ∙ resumed_binary op f mark stack rest (compile u ++ op ∷ rest) (value t) (value u) last
          (λ a. right mark (a ∷ stack) (op ∷ rest))

  run-compile :
      (t : Term) (mark : Bool) (stack : List ℕ) (rest : List ExprStep)
      → run_steps regs frame_base cfa mark stack (compile t ++ rest)
        ≡ resumed mark stack rest (value t)
  unfolding compile value run_steps step Compiles
  run-compile (literal v) mark stack rest = refl
  run-compile (register r) mark stack rest = elim (Option-cases (dwarf_reg_to_index r)) [
    | inl e ↦ rw e refl
    | inr (i, e) ↦ rw e refl
  ]
  run-compile (based r off) mark stack rest = elim (Option-cases (dwarf_reg_to_index r)) [
    | inl e ↦ rw e refl
    | inr (i, e) ↦ rw e refl
  ]
  run-compile (frame off) mark stack rest = refl
  run-compile (apply f t) mark stack rest =
      ap (run_steps regs frame_base cfa mark stack)
        (append_assoc (compile t) (unary_code f ∷ []) rest)
      ∙ run-compile t mark stack (unary_code f ∷ rest)
      ∙ resumed_unary f mark stack rest (value t)
  run-compile (combine f t u) mark stack rest =
      run-parts (binary_code f) (λ a b. some (binary_value f a b)) t u mark stack rest
        (λ a b. run_binary f mark a b stack rest) (run-compile t) (run-compile u)
  run-compile (remainder t u) mark stack rest =
      run-parts op_mod (λ a b. if b == 0 then none else some (a % b)) t u mark stack rest
        (λ a b. run_mod mark a b stack rest) (run-compile t) (run-compile u)

  -- The stack machine computes every term: the program of a term evaluates to the term's value, and
  -- to none where the term has none; it never panics.
  pub eval_stack_machine-compile :
      (t : Term) → eval_stack_machine regs frame_base cfa (compile t) ≡ some (value t)
  unfolding eval_stack_machine run_steps
  eval_stack_machine-compile t =
      ap (run_steps regs frame_base cfa false []) (sym (append-nil (compile t)))
      ∙ run-compile t false [] []
      ∙ ended (value t)
    where
      ended : (o : Option ℕ) → resumed false [] [] o ≡ some o
      ended none = refl
      ended (some v) = refl
