-- ===== src/Reconciler/Replayed.antt =====
-- A register snapshot of engine/src/reconciler.rs, recorded by engine/src/record.rs and replayed.
use rtmap.Base.{
  ℕ, ◌<◌, ◌%◌, ◌^◌, ◌≡◌, refl, sym, ap, ◌∙◌, true, false, List, [], ◌∷◌, ltb, length, all, arith,
  All,
}
use rtmap.Base.KeyMap.{insert, nat_key}
use rtmap.Ring.{Event, kind}
use rtmap.Record.{cont_event}
use rtmap.Record.Registers.{snapshot_events, conts_from}
use rtmap.Reconciler.{apply_reg_snapshot, is_snapshot, snapshot_regs, Files, file_of}
use rtmap.ShadowRegs.{apply_snapshot}
use rtmap.World.Nodes.{WorldInner, update_regs}

-- A snapshot as it comes from the ring: all its slots have its kind, and sizes of 32 bits.
pub data IsSnapshot : List Event → Type 0 where
  seven :
      {header : Event} (c0 c1 c2 c3 c4 c5 : Event) {rest : List Event}
      → is_snapshot header ≡ true
      → all is_snapshot (c0 ∷ c1 ∷ c2 ∷ c3 ∷ c4 ∷ c5 ∷ []) ≡ true
      → All (λ c. c.size < 2 ^ 32) (c0 ∷ c1 ∷ c2 ∷ c3 ∷ c4 ∷ c5 ∷ [])
      → IsSnapshot (header ∷ c0 ∷ c1 ∷ c2 ∷ c3 ∷ c4 ∷ c5 ∷ rest)

-- What a snapshot with these registers does.
abbrev effect : Event → List ℕ → WorldInner → Files → (WorldInner × Files) × ℕ
effect header regs w files = (
  (
    update_regs regs header.addr w,
    insert header.thread_id
        (apply_snapshot regs header.seq header.addr (file_of header.thread_id files)) files,
  ),
  7,
)

apply_seven :
    (header c0 c1 c2 c3 c4 c5 : Event) (rest : List Event) (w : WorldInner) (files : Files)
    → is_snapshot header ≡ true
    → all is_snapshot (c0 ∷ c1 ∷ c2 ∷ c3 ∷ c4 ∷ c5 ∷ []) ≡ true
    → apply_reg_snapshot (header ∷ c0 ∷ c1 ∷ c2 ∷ c3 ∷ c4 ∷ c5 ∷ rest) w files
      ≡ effect header (snapshot_regs (c0 ∷ c1 ∷ c2 ∷ c3 ∷ c4 ∷ c5 ∷ [])) w files
unfolding apply_reg_snapshot
apply_seven header c0 c1 c2 c3 c4 c5 rest w files h k =
    let full : ltb (length (header ∷ c0 ∷ c1 ∷ c2 ∷ c3 ∷ c4 ∷ c5 ∷ rest)) 7 ≡ false =
      ground arith in
    rw (h, full, k) refl

narrow : (n : ℕ) → n < 2 ^ 32 → n % 2 ^ 32 ≡ n
narrow n h = omega arith

-- A snapshot that was applied while the program ran, and recorded with the registers that the world
-- had then, has the same effect when it is replayed, on the world and the shadow registers of its
-- thread as they were, and uses up as many slots.
pub apply_reg_snapshot-replayed :
    (header : Event) (rest : List Event) (w : WorldInner) (files : Files)
    → IsSnapshot (header ∷ rest)
    → apply_reg_snapshot
        (snapshot_events header (apply_reg_snapshot (header ∷ rest) w files).0.0.reg_file.values)
        w
        files
      ≡ apply_reg_snapshot (header ∷ rest) w files
unfolding snapshot_events conts_from update_regs kind
apply_reg_snapshot-replayed header _ w files (seven c0 c1 c2 c3 c4 c5 {rest = rest} h k f) =
    let live = apply_seven header c0 c1 c2 c3 c4 c5 rest w files h k in
    let regs = snapshot_regs (c0 ∷ c1 ∷ c2 ∷ c3 ∷ c4 ∷ c5 ∷ []) in
    let (f0, (f1, (f2, (f3, (f4, (f5, end)))))) = f in
    let again =
      apply_seven header (cont_event header regs 0) (cont_event header regs 1)
        (cont_event header regs 2) (cont_event header regs 3) (cont_event header regs 4)
        (cont_event header regs 5) [] w files h (rw h refl) in
    let same : snapshot_regs (conts_from 6 0 header regs) ≡ regs = λ i.
      c0.addr
      ∷ narrow c0.size f0 i
      ∷ c0.value
      ∷ c1.addr
      ∷ narrow c1.size f1 i
      ∷ c1.value
      ∷ c2.addr
      ∷ narrow c2.size f2 i
      ∷ c2.value
      ∷ c3.addr
      ∷ narrow c3.size f3 i
      ∷ c3.value
      ∷ c4.addr
      ∷ narrow c4.size f4 i
      ∷ c4.value
      ∷ c5.addr
      ∷ narrow c5.size f5 i
      ∷ c5.value
      ∷ [] in
    ap (λ v. apply_reg_snapshot (snapshot_events header v) w files)
      (ap (λ x. x.0.0.reg_file.values) live)
    ∙ again
    ∙ ap (λ r. effect header r w files) same
    ∙ sym live
