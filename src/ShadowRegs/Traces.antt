-- ===== src/ShadowRegs/Traces.antt =====
-- Traces of events on the shadow registers of engine/src/shadow_regs.rs, in which calls nest.
use rtmap.Base.{
  ℕ, suc, ◌<◌, ◌≡◌, refl, ap, ◌∙◌, List, [], ◌∷◌, Option, none, some, map, leb, ◌==◌, if◌then◌else◌,
  length, Option-cases, if_rule, inl, inr,
}
use rtmap.Dwarf.Location.{
  FunctionMeta, LocalVar, LocationPiece, in_register, in_address, in_frame_base_offset,
  in_register_offset, implicit_value, in_cfa, in_expr, lookup,
}
use rtmap.ShadowRegs.{
  ShadowReg, ShadowFrame, ShadowRegisterFile, reg_count, callee_saved, caller_saved, at,
  apply_snapshot, observe_write, observe_locals, observe_piece, observe_index, on_call, on_return,
  return_frames, on_return_cfi, on_reload, check_coherence, result_reg, saved_reg, arg_reg,
  verified_reg, dwarf_reg_to_idx,
}
use rtmap.ShadowRegs.Calls.{length-modify, length-for_each, is_restored, at-return}

-- What happens to the registers besides calls and returns.
pub data Quiet : Type 0 where
  -- values, seq, pc
  snapshot : List ℕ → ℕ → ℕ → Quiet
  -- value, pc, seq, func
  wrote : ℕ → ℕ → ℕ → Option FunctionMeta → Quiet
  -- reg_idx, value, from_addr, load_size, seq, pc
  reload : ℕ → ℕ → ℕ → ℕ → ℕ → ℕ → Quiet
  -- addr, value, size
  store : ℕ → ℕ → ℕ → Quiet

pub apply : Quiet → ShadowRegisterFile → ShadowRegisterFile
apply (snapshot values seq pc) s = apply_snapshot values seq pc s
apply (wrote value pc seq func) s = observe_write value pc seq func s
apply (reload idx value from size seq pc) s = on_reload idx value from size seq pc s
apply (store addr value size) s = check_coherence addr value size s

-- A trace in which calls nest; a return may bring call frame information.
pub data Trace : Type 0 where
  ends : Trace
  quiet : Quiet → Trace → Trace
  -- callee_pc, rsp and seq of the call, what the callee does, seq and pc of its return
  nested : ℕ → ℕ → ℕ → Trace → ℕ → ℕ → Option (List ℕ) → Trace → Trace

abbrev pub come_back : ℕ → ℕ → Option (List ℕ) → ShadowRegisterFile → ShadowRegisterFile
come_back seq pc none s = on_return seq pc s
come_back seq pc (some cfi_saved) s = on_return_cfi seq pc cfi_saved s

pub run : Trace → ShadowRegisterFile → ShadowRegisterFile
unfolding apply
run ends s = s
run (quiet e t) s = run t (apply e s)
run (nested callee_pc rsp seq body seq' pc cfi t) s =
    run t (come_back seq' pc cfi (run body (on_call callee_pc rsp seq s)))

-- A snapshot has a value for each register.
abbrev pub IsWhole : Quiet → Type 0
IsWhole (snapshot values seq pc) = length values ≡ reg_count
IsWhole (wrote value pc seq func) = Unit
IsWhole (reload idx value from size seq pc) = Unit
IsWhole (store addr value size) = Unit

unfoldable pub IsFull : Trace → Type 0
IsFull ends = Unit
IsFull (quiet e t) = IsWhole e × IsFull t
IsFull (nested callee_pc rsp seq body seq' pc cfi t) = IsFull body × IsFull t

length-map {ℓ κ} :
    {A : Type ℓ} {B : Type κ} (f : A → B) (xs : List A) → length (map f xs) ≡ length xs
length-map f [] = refl
length-map f (x ∷ xs) = ap suc (length-map f xs)

length-observe_piece :
    (value pc seq : ℕ) (p : Option LocationPiece) (regs : List ShadowReg)
    → length (observe_piece value pc seq p regs) ≡ length regs
unfolding observe_piece observe_index
length-observe_piece value pc seq none regs = refl
length-observe_piece value pc seq (some (in_register d)) regs =
    elim (Option-cases (dwarf_reg_to_idx d)) [
      | inl e ↦ rw e refl
      | inr (i, e) ↦ rw e (length-modify i _ regs)
    ]
length-observe_piece value pc seq (some (in_address a)) regs = refl
length-observe_piece value pc seq (some (in_frame_base_offset off)) regs = refl
length-observe_piece value pc seq (some (in_register_offset d off)) regs = refl
length-observe_piece value pc seq (some (implicit_value v)) regs = refl
length-observe_piece value pc seq (some in_cfa) regs = refl
length-observe_piece value pc seq (some (in_expr op)) regs = refl

length-observe_locals :
    (value pc seq : ℕ) (locals : List LocalVar) (regs : List ShadowReg)
    → length (observe_locals value pc seq locals regs) ≡ length regs
unfolding observe_locals
length-observe_locals value pc seq [] regs = refl
length-observe_locals value pc seq (l ∷ locals) regs =
    length-observe_locals value pc seq locals
      (observe_piece value pc seq (lookup pc l.location) regs)
    ∙ length-observe_piece value pc seq (lookup pc l.location) regs

-- The number of registers, and the frames, after an event.
Same : ShadowRegisterFile → ShadowRegisterFile → Type 0
Same s s' = (length s'.regs ≡ reg_count) × (s'.call_stack ≡ s.call_stack)

apply-Same :
    (e : Quiet) (s : ShadowRegisterFile)
    → length s.regs ≡ reg_count
    → IsWhole e
    → Same s (apply e s)
unfolding Same apply apply_snapshot observe_write on_reload check_coherence
apply-Same (snapshot values seq pc) s n w = (length-map _ values ∙ w, refl)
apply-Same (wrote value pc seq none) s n w = (n, refl)
apply-Same (wrote value pc seq (some func)) s n w =
    (length-observe_locals value pc seq func.locals s.regs ∙ n, refl)
apply-Same (reload idx value from size seq pc) s n w =
    if_rule (Same s) (leb reg_count idx) (n, refl) (length-modify idx _ s.regs ∙ n, refl)
apply-Same (store addr value size) s n w = (length-map _ s.regs ∙ n, refl)

on_return_lem :
    (seq pc : ℕ) (frame : ShadowFrame) (rest : List ShadowFrame) (s : ShadowRegisterFile)
    → s.call_stack ≡ frame ∷ rest
    → on_return seq pc s ≡ return_frames seq pc (frame ∷ rest) s
unfolding on_return
on_return_lem seq pc frame rest s e = ap (λ fs. return_frames seq pc fs s) e

on_return-Same :
    (seq pc : ℕ) (frame : ShadowFrame) (rest : List ShadowFrame) (s : ShadowRegisterFile)
    → length s.regs ≡ reg_count
    → s.call_stack ≡ frame ∷ rest
    → (length (on_return seq pc s).regs ≡ reg_count) × ((on_return seq pc s).call_stack ≡ rest)
unfolding return_frames
on_return-Same seq pc frame rest s n e =
    let back = on_return_lem seq pc frame rest s e in
    (
      ap (λ t. length t.regs) back
          ∙ length-for_each caller_saved (λ idx r. if idx == 0 then r else at frame.saved_regs idx)
              _
          ∙ length-modify 0 _ _
          ∙ length-for_each callee_saved (λ idx r. at frame.saved_regs idx) s.regs
          ∙ n,
      ap (λ t. t.call_stack) back,
    )

come_back-Same :
    (seq pc : ℕ) (cfi : Option (List ℕ)) (frame : ShadowFrame) (rest : List ShadowFrame)
    (s : ShadowRegisterFile)
    → length s.regs ≡ reg_count
    → s.call_stack ≡ frame ∷ rest
    → (length (come_back seq pc cfi s).regs ≡ reg_count)
      × ((come_back seq pc cfi s).call_stack ≡ rest)
unfolding on_return_cfi
come_back-Same seq pc none frame rest s n e = on_return-Same seq pc frame rest s n e
come_back-Same seq pc (some cfi_saved) frame rest s n e =
    let back = on_return-Same seq pc frame rest s n e in
    (length-for_each cfi_saved verified_reg _ ∙ back.0, back.1)

called_lem :
    (callee_pc rsp seq : ℕ) (s : ShadowRegisterFile)
    → length s.regs ≡ reg_count
    → length (on_call callee_pc rsp seq s).regs ≡ reg_count
unfolding on_call
called_lem callee_pc rsp seq s n =
    length-for_each caller_saved (arg_reg callee_pc seq) _
    ∙ length-for_each callee_saved (λ idx r. saved_reg callee_pc seq r) _
    ∙ length-modify 7 _ s.regs
    ∙ n

-- A nested trace leaves the frames as they were.
run-Same :
    (t : Trace) (s : ShadowRegisterFile) → length s.regs ≡ reg_count → IsFull t → Same s (run t s)
unfolding run IsFull Same on_call
run-Same ends s n w = (n, refl)
run-Same (quiet e t) s n w =
    let step = apply-Same e s n w.0 in
    let rest = run-Same t (apply e s) step.0 w.1 in (rest.0, rest.1 ∙ step.1)
run-Same (nested callee_pc rsp seq body seq' pc cfi t) s n w =
    let called = on_call callee_pc rsp seq s in
    let inside = run-Same body called (called_lem callee_pc rsp seq s n) w.0 in
    let back = come_back-Same seq' pc cfi _ s.call_stack (run body called) inside.0 inside.1 in
    let rest = run-Same t (come_back seq' pc cfi (run body called)) back.0 w.1 in
    (rest.0, rest.1 ∙ back.1)

-- After a call, whatever the callee does with its registers and its own calls, the return restores
-- the frames and each register of the calling convention as it was before the call, but for rax:
-- this keeps the callee's value, as a speculative return value. The other registers (the stack
-- pointer, the program counter, the flags) stay as the callee left them.
pub on_return-on_call :
    (callee_pc rsp seq : ℕ) (body : Trace) (seq' pc : ℕ) (s : ShadowRegisterFile) (i : ℕ)
    → length s.regs ≡ reg_count
    → IsFull body
    → i < reg_count
    → let called = run body (on_call callee_pc rsp seq s) in
      let returned = on_return seq' pc called in
      (returned.call_stack ≡ s.call_stack)
      × (at returned.regs i ≡ (
          if is_restored i
          then at s.regs i
          else if i == 0
          then result_reg callee_pc seq' pc (at called.regs i)
          else at called.regs i))
unfolding on_call Same return_frames
on_return-on_call callee_pc rsp seq body seq' pc s i n w low =
    let called = on_call callee_pc rsp seq s in
    let inside = run-Same body called (called_lem callee_pc rsp seq s n) w in
    let frame : ShadowFrame = record {
      callee_pc = callee_pc;
      saved_regs = s.regs;
      entry_seq = seq;
    } in
    let back = on_return_lem seq' pc frame s.call_stack (run body called) inside.1 in
    (
      ap (λ t. t.call_stack) back,
      ap (λ t. at t.regs i) back
          ∙ at-return seq' pc frame s.call_stack (run body called) i inside.0 low,
    )
