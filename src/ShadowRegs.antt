-- ===== src/ShadowRegs.antt =====
-- `ShadowRegisterFile` of engine/src/shadow_regs.rs: what the engine believes of a thread's
-- registers between two snapshots, and how far it trusts each of them.
-- The file has 18 registers; every index that the code uses lies below 18.
pub mod Calls
pub mod Traces
pub mod Coherence
pub mod Pieces
use rtmap.Base.{
  ℕ, zero, suc, ◌+◌, ◌≡◌, Bool, true, false, not, ◌&&◌, List, [], ◌∷◌, Option, none, some, map, max,
  saturating_add64, ltb, leb, ◌==◌, if◌then◌else◌, length, get_or, get_elem?, any, replicate,
}
use rtmap.Dwarf.Location.{LocationPiece, in_register, FunctionMeta, LocalVar, lookup}

abbrev pub reg_count : ℕ
reg_count = 18

-- The registers of the SysV ABI, by their index.
abbrev pub callee_saved : List ℕ
callee_saved = 1 ∷ 6 ∷ 12 ∷ 13 ∷ 14 ∷ 15 ∷ []

abbrev pub caller_saved : List ℕ
caller_saved = 0 ∷ 2 ∷ 3 ∷ 4 ∷ 5 ∷ 8 ∷ 9 ∷ 10 ∷ 11 ∷ []

abbrev pub arg_regs : List ℕ
arg_regs = 5 ∷ 4 ∷ 3 ∷ 2 ∷ 8 ∷ 9 ∷ []

abbrev pub dwarf_to_idx : List ℕ
dwarf_to_idx = 0 ∷ 3 ∷ 2 ∷ 1 ∷ 4 ∷ 5 ∷ 6 ∷ 7 ∷ 8 ∷ 9 ∷ 10 ∷ 11 ∷ 12 ∷ 13 ∷ 14 ∷ 15 ∷ 16 ∷ []

abbrev pub dwarf_reg_to_idx : ℕ → Option ℕ
dwarf_reg_to_idx dwarf_reg = get_elem? dwarf_to_idx dwarf_reg

pub data Confidence : Type 0 where
  unknown stale speculative write_back abi_inferred cfi_verified observed : Confidence

-- The discriminants, which the derived order compares.
abbrev pub rank : Confidence → ℕ
rank unknown = 0
rank stale = 1
rank speculative = 2
rank write_back = 3
rank abi_inferred = 4
rank cfi_verified = 5
rank observed = 6

pub data Provenance : Type 0 where
  observed_at : ℕ → Provenance
  saved_since : ℕ → Provenance
  abi_arg : ℕ → ℕ → Provenance
  written_back : ℕ → ℕ → Provenance
  reloaded : ℕ → ℕ → Provenance
  copied : ℕ → ℕ → Provenance
  return_value : ℕ → ℕ → Provenance
  no_provenance : Provenance

pub record ShadowReg : Type 0 where
  pub value : ℕ
  pub provenance : Provenance
  pub confidence : Confidence
  pub last_seq : ℕ
  pub last_pc : ℕ
  pub mem_source : Option ℕ
  pub mem_source_size : ℕ

-- `set` overwrites every field.
abbrev pub set_reg : ℕ → Provenance → Confidence → ℕ → ℕ → ShadowReg
set_reg value prov conf seq pc = record {
  value = value;
  provenance = prov;
  confidence = conf;
  last_seq = seq;
  last_pc = pc;
  mem_source = none;
  mem_source_size = 0;
}

abbrev pub unknown_reg : ShadowReg
unknown_reg = set_reg 0 no_provenance unknown 0 0

pub record ShadowFrame : Type 0 where
  pub callee_pc : ℕ
  pub saved_regs : List ShadowReg
  pub entry_seq : ℕ

-- The innermost call comes first.
pub record ShadowRegisterFile : Type 0 where
  pub regs : List ShadowReg
  pub call_stack : List ShadowFrame

pub new : ShadowRegisterFile
new = record { regs = replicate reg_count unknown_reg; call_stack = [] }

-- `self.regs[idx]`
abbrev pub at : List ShadowReg → ℕ → ShadowReg
at regs idx = get_or regs idx unknown_reg

abbrev pub modify : ℕ → (ShadowReg → ShadowReg) → List ShadowReg → List ShadowReg
modify i f [] = []
modify zero f (r ∷ regs) = f r ∷ regs
modify (suc i) f (r ∷ regs) = r ∷ modify i f regs

-- `for &idx in indices { self.regs[idx] = ... }`
abbrev pub for_each : List ℕ → (ℕ → ShadowReg → ShadowReg) → List ShadowReg → List ShadowReg
for_each [] f regs = regs
for_each (i ∷ indices) f regs = for_each indices f (modify i (f i) regs)

abbrev pub is_listed : ℕ → List ℕ → Bool
is_listed i indices = any (λ j. j == i) indices

abbrev pub values : ShadowRegisterFile → List ℕ
values s = map (λ r. r.value) s.regs

pub apply_snapshot : List ℕ → ℕ → ℕ → ShadowRegisterFile → ShadowRegisterFile
apply_snapshot snapshot seq pc s = record s {
  regs = map (λ v. set_reg v (observed_at seq) observed seq pc) snapshot;
}

-- A local that lives in a register at `pc` takes the written value.
observe_index : ℕ → ℕ → ℕ → Option ℕ → List ShadowReg → List ShadowReg
observe_index value pc seq none regs = regs
observe_index value pc seq (some idx) regs =
    modify idx (λ r. set_reg value (written_back seq pc) write_back seq pc) regs

observe_piece : ℕ → ℕ → ℕ → Option LocationPiece → List ShadowReg → List ShadowReg
unfolding observe_index
observe_piece value pc seq (some (in_register dwarf_reg)) regs =
    observe_index value pc seq (dwarf_reg_to_idx dwarf_reg) regs
observe_piece value pc seq _ regs = regs

observe_locals : ℕ → ℕ → ℕ → List LocalVar → List ShadowReg → List ShadowReg
unfolding observe_piece
observe_locals value pc seq [] regs = regs
observe_locals value pc seq (l ∷ locals) regs =
    observe_locals value pc seq locals (observe_piece value pc seq (lookup pc l.location) regs)

pub observe_write : ℕ → ℕ → ℕ → Option FunctionMeta → ShadowRegisterFile → ShadowRegisterFile
unfolding observe_locals
observe_write value pc seq none s = s
observe_write value pc seq (some func) s = record s {
  regs = observe_locals value pc seq func.locals s.regs;
}

-- `position(...).unwrap_or(0xff) as u8`
abbrev position_from : ℕ → ℕ → List ℕ → ℕ
position_from k idx [] = 0xff
position_from k idx (r ∷ rs) = if r == idx then k else position_from (suc k) idx rs

abbrev pub saved_reg : ℕ → ℕ → ShadowReg → ShadowReg
saved_reg callee_pc seq r =
    if leb (rank speculative) (rank r.confidence)
    then set_reg r.value (saved_since seq) abi_inferred seq callee_pc
    else r

abbrev pub arg_reg : ℕ → ℕ → ℕ → ShadowReg → ShadowReg
arg_reg callee_pc seq idx r =
    set_reg r.value (abi_arg callee_pc (position_from 0 idx arg_regs)) speculative seq callee_pc

pub on_call : ℕ → ℕ → ℕ → ShadowRegisterFile → ShadowRegisterFile
on_call callee_pc rsp seq s =
    let entered = modify 7 (λ r. set_reg rsp (observed_at seq) observed seq callee_pc) s.regs in
    let kept = for_each callee_saved (λ idx r. saved_reg callee_pc seq r) entered in
    record {
      regs = for_each caller_saved (arg_reg callee_pc seq) kept;
      call_stack =
          record { callee_pc = callee_pc; saved_regs = s.regs; entry_seq = seq } ∷ s.call_stack;
    }

abbrev pub result_reg : ℕ → ℕ → ℕ → ShadowReg → ShadowReg
result_reg callee_pc seq pc r = set_reg r.value (return_value callee_pc seq) speculative seq pc

unfoldable pub return_frames : ℕ → ℕ → List ShadowFrame → ShadowRegisterFile → ShadowRegisterFile
return_frames seq pc [] s = s
return_frames seq pc (frame ∷ rest) s =
    let restored = for_each callee_saved (λ idx r. at frame.saved_regs idx) s.regs in
    let returned = modify 0 (result_reg frame.callee_pc seq pc) restored in
    record {
      regs =
          for_each caller_saved (λ idx r. if idx == 0 then r else at frame.saved_regs idx) returned;
      call_stack = rest;
    }

unfoldable pub on_return : ℕ → ℕ → ShadowRegisterFile → ShadowRegisterFile
unfolding return_frames
on_return seq pc s = return_frames seq pc s.call_stack s

-- The call frame information of the callee confirms a restored register.
abbrev pub is_verifiable : ℕ → ShadowReg → Bool
is_verifiable idx r =
    ltb idx reg_count
    && (is_listed idx callee_saved
        && (leb (rank speculative) (rank r.confidence) && ltb (rank r.confidence) (rank observed)))

abbrev pub verified_reg : ℕ → ShadowReg → ShadowReg
verified_reg idx r = if is_verifiable idx r then record r { confidence = cfi_verified } else r

pub on_return_cfi : ℕ → ℕ → List ℕ → ShadowRegisterFile → ShadowRegisterFile
unfolding on_return
on_return_cfi seq pc cfi_saved s =
    let returned = on_return seq pc s in
    record returned { regs = for_each cfi_saved verified_reg returned.regs }

pub on_reload : ℕ → ℕ → ℕ → ℕ → ℕ → ℕ → ShadowRegisterFile → ShadowRegisterFile
on_reload reg_idx value from_addr load_size seq pc s =
    if leb reg_count reg_idx then s else record s {
      regs =
          modify reg_idx
            (λ r. record (set_reg value (reloaded from_addr seq) observed seq pc) {
              mem_source = some from_addr;
              mem_source_size = load_size;
            })
            s.regs;
    }

-- What a write to memory makes of a register that was loaded from `src`.
abbrev stale_reg : ℕ → ℕ → ℕ → ShadowReg → ℕ → ShadowReg
stale_reg addr value size r src =
    if ltb addr (saturating_add64 src (max r.mem_source_size 1))
      && (ltb src (saturating_add64 addr (max size 1))
          && ((if ltb 8 size then true else not (r.value == value))
              && ltb (rank stale) (rank r.confidence)))
    then record r { confidence = stale }
    else r

pub coherent_reg : ℕ → ℕ → ℕ → ShadowReg → ShadowReg
coherent_reg addr value size r = elim r.mem_source [
  | none ↦ r
  | some src ↦ stale_reg addr value size r src
]

-- Each register by itself: `for i in 0..REG_COUNT`.
pub check_coherence : ℕ → ℕ → ℕ → ShadowRegisterFile → ShadowRegisterFile
unfolding coherent_reg
check_coherence addr value size s = record s { regs = map (coherent_reg addr value size) s.regs }
