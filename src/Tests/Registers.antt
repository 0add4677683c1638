-- ===== src/Tests/Registers.antt =====
-- The shadow registers of engine/src/shadow_regs.rs at concrete inputs.
use rtmap.Base.{
  ℕ, ◌+◌, ◌≤◌, ◌≡◌, refl, [], ◌∷◌, some, arith, if◌then◌else◌, replicate, ◌==◌, max, u64_max,
}
use rtmap.ShadowRegs.{
  ShadowReg, ShadowRegisterFile, set_reg, reloaded, observed, at, reg_count, on_call, on_return,
  check_coherence, result_reg,
}
use rtmap.ShadowRegs.Calls.{is_restored}
use rtmap.ShadowRegs.Traces.{
  Trace, ends, quiet, nested, reload, store, run, IsFull, on_return-on_call,
}
use rtmap.ShadowRegs.Coherence.{Checked, check_coherence-Checked}

-- Every register was loaded from 0x2000.
abbrev loaded : ShadowReg
loaded = record (set_reg 7 (reloaded 0x2000 5) observed 5 0x10) {
  mem_source = some 0x2000;
  mem_source_size = 8;
}

abbrev file : ShadowRegisterFile
file = record { regs = replicate reg_count loaded; call_stack = [] }

-- A callee that loads rbx and calls another function, which writes to memory.
abbrev body : Trace
body =
    quiet (reload 1 9 0x3000 8 11 0x44)
      (nested 0x50 0x6ff0 12 (quiet (store 0x2004 1 4) ends) 13 0x48 (some (6 ∷ [])) ends)

on_return-on_call_example :
    let called = run body (on_call 0x40 0x7000 10 file) in
    let returned = on_return 14 0x20 called in
    (returned.call_stack ≡ [])
    × (at returned.regs 1 ≡ (
        if is_restored 1
        then at file.regs 1
        else if 1 == 0
        then result_reg 0x40 14 0x20 (at called.regs 1)
        else at called.regs 1))
unfolding IsFull
on_return-on_call_example =
    on_return-on_call 0x40 0x7000 10 body 14 0x20 file 1 refl (tt, ((tt, tt), tt)) (omega arith)

in_space :
    (src : ℕ)
    → (at file.regs 2).mem_source ≡ some src
    → src + max (at file.regs 2).mem_source_size 1 ≤ u64_max
in_space src e = ground arith

check_coherence-Checked_example :
    Checked 0x2004 1 4 loaded (at (check_coherence 0x2004 1 4 file).regs 2)
check_coherence-Checked_example =
    check_coherence-Checked 0x2004 1 4 file 2 (omega arith) (omega arith) in_space
