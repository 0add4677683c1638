-- ===== src/Index/Runs.antt =====
-- Sequences of the operations of the index in engine/src/index.rs.
use Prim.Native.String.{String}
use rtmap.Base.{ℕ, ◌≡◌, refl, sym, List, [], ◌∷◌, ◌==◌, if_rule}
use mathlib.Core.Path.{subst}
use rtmap.Base.KeyMap.{KeyMap, nat_key, IsMap, insert-IsMap, remove-IsMap}
use rtmap.Dwarf.{TypeInfo}
use rtmap.Index.{
  Interval, AddressIndex, new, Local, insert_global, insert_field, insert_frame_locals,
  remove_frame, finalize, widen_all, has_any, frame_intervals,
}
use rtmap.Index.Lookup.{lookup}
use rtmap.Index.Answers.{IsValid, AnswerOf, Sound, lookup-Sound}

pub data Op : Type 0 where
  add_global : ℕ → ℕ → String → TypeInfo → ℕ → Op
  add_field : ℕ → ℕ → String → TypeInfo → ℕ → ℕ → Op
  enter_frame : ℕ → ℕ → List Local → Op
  leave_frame : ℕ → Op
  sort : Op
  ask : ℕ → Op

module _ (sort_by_lo : List Interval → List Interval) where
  unfoldable pub apply : Op → AddressIndex → AddressIndex
  apply (add_global addr size label t g) ix = insert_global addr size label t g ix
  apply (add_field addr size label t g f) ix = insert_field addr size label t g f ix
  apply (enter_frame frame_id frame_base locals) ix =
      insert_frame_locals frame_id frame_base locals ix
  apply (leave_frame frame_id) ix = remove_frame frame_id ix
  apply sort ix = finalize sort_by_lo ix
  apply (ask addr) ix = (lookup addr ix).0

  unfoldable pub run : List Op → AddressIndex → AddressIndex
  unfolding apply
  run [] ix = ix
  run (o ∷ ops) ix = run ops (apply o ix)

widen_all-dynamics :
    (ivs : List Interval) (ix : AddressIndex) → (widen_all ivs ix).dynamics ≡ ix.dynamics
widen_all-dynamics [] ix = refl
widen_all-dynamics (iv ∷ ivs) ix = widen_all-dynamics ivs _

insert_frame_locals-IsValid :
    (frame_id frame_base : ℕ) (locals : List Local) (ix : AddressIndex)
    → IsValid ix
    → IsValid (insert_frame_locals frame_id frame_base locals ix)
unfolding insert_frame_locals
insert_frame_locals-IsValid frame_id frame_base locals ix v =
    let ivs = frame_intervals frame_id frame_base 0 locals in
    let kept : IsMap (widen_all ivs ix).dynamics =
      subst (λ (d : KeyMap ℕ (List Interval)). IsMap d) (sym (widen_all-dynamics ivs ix))
        v.frames_map in
    record {
      frames_map =
          if_rule (λ (d : KeyMap ℕ (List Interval)). IsMap d) (has_any ivs)
            (insert-IsMap frame_id ivs (widen_all ivs ix).dynamics kept) kept;
      entries = tt;
    }

module _ (sort_by_lo : List Interval → List Interval) where
  apply-IsValid : (o : Op) (ix : AddressIndex) → IsValid ix → IsValid (apply sort_by_lo o ix)
  unfolding apply insert_global insert_field remove_frame finalize Sound
  apply-IsValid (add_global addr size label t g) ix v =
      if_rule IsValid (size == 0) v (record { frames_map = v.frames_map; entries = tt })
  apply-IsValid (add_field addr size label t g f) ix v =
      if_rule IsValid (size == 0) v (record { frames_map = v.frames_map; entries = tt })
  apply-IsValid (enter_frame frame_id frame_base locals) ix v =
      insert_frame_locals-IsValid frame_id frame_base locals ix v
  apply-IsValid (leave_frame frame_id) ix v = record {
    frames_map = remove-IsMap frame_id ix.dynamics v.frames_map;
    entries = tt;
  }
  apply-IsValid sort ix v =
      if_rule IsValid ix.statics_sorted v (record { frames_map = v.frames_map; entries = tt })
  apply-IsValid (ask addr) ix v = (lookup-Sound addr ix v).2

  -- After any sequence of insertions, removals of frames, sorts and lookups on an empty index, a
  -- lookup answers nothing, or a variable whose interval is in the index as it is then and holds the
  -- address, with the offset of the address in it: no removed or moved entry is answered from the
  -- recent ones. The order that the sort gives does not matter.
  pub run-lookup :
      (ops : List Op) (addr : ℕ)
      → let ix = run sort_by_lo ops new in AnswerOf ix.statics ix.dynamics addr (lookup addr ix).1
  unfolding Sound new run
  run-lookup ops addr = (lookup-Sound addr (run sort_by_lo ops new) (valid_run ops new empty)).3
    where
      empty : IsValid new
      empty = record { frames_map = tt; entries = tt }

      valid_run : (ops : List Op) (ix : AddressIndex) → IsValid ix → IsValid (run sort_by_lo ops ix)
      valid_run [] ix v = v
      valid_run (o ∷ rest) ix v = valid_run rest (apply sort_by_lo o ix) (apply-IsValid o ix v)
