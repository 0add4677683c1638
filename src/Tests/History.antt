-- ===== src/Tests/History.antt =====
-- The circular histories of engine/src/world.rs at concrete inputs.
use rtmap.Base.{ℕ, zero, suc, ◌≡◌, refl, [], ◌∷◌, Option, some, arith}
use rtmap.Dwarf.{TypeInfo, type_info, no_fields}
use rtmap.Base.{false}
use rtmap.World.SnapshotRing.{SnapEntry, SnapshotRing, push, find_by}
use rtmap.World.SnapshotRing.History
use rtmap.World.SnapshotRing.History.{push-contents, slot-contents}
use rtmap.World.SnapshotRing.Search.{IsNewest, IsMonotone, find_by-IsNewest}
use rtmap.World.TypeEpochLog.Lifetimes
use rtmap.World.TypeEpochLog.Lifetimes.{close_epoch-iter, query-close_epoch}
use rtmap.World.TypeEpochLog.{TypeEpochLog, close_epoch, iter, query, epoch, free}
use rtmap.World.ShadowTypeMap.{TypeProjection}

-- A snapshot is its instruction count here.
abbrev shot : ℕ → ℕ → ℕ → SnapEntry ℕ
shot insn tick seq = record { snap = insn; insn = insn; tick = tick; event_seq = seq }

abbrev counter : ℕ → ℕ
counter n = n

-- Three slots, full, with the write position in the middle.
abbrev wrapped : SnapshotRing ℕ
wrapped = record {
  buf = shot 40 4 44 ∷ shot 20 2 22 ∷ shot 30 3 33 ∷ [];
  cap = 3;
  write_pos = 1;
  len = 3;
}

wrapped-IsValid : History.IsValid wrapped
wrapped-IsValid = record {
  circular = record {
    room = omega arith;
    bounded = omega arith;
    pos_in = omega arith;
    filling = λ h. absurd (omega arith);
  };
  stored = refl;
}

push-contents_example :
    (r : SnapshotRing ℕ) × (push counter wrapped 50 5 55 ≡ some r)
    × History.IsValid r
    × (r.cap ≡ 3)
    × (History.contents r ≡ shot 30 3 33 ∷ shot 40 4 44 ∷ shot 50 5 55 ∷ [])
push-contents_example = push-contents counter wrapped 50 5 55 wrapped-IsValid

wrapped-IsMonotone : IsMonotone (λ e. e.insn) (History.contents wrapped)
wrapped-IsMonotone zero zero le lt = omega arith
wrapped-IsMonotone zero (suc zero) le lt = omega arith
wrapped-IsMonotone zero (suc (suc zero)) le lt = omega arith
wrapped-IsMonotone (suc zero) zero le lt = absurd (omega arith)
wrapped-IsMonotone (suc zero) (suc zero) le lt = omega arith
wrapped-IsMonotone (suc zero) (suc (suc zero)) le lt = omega arith
wrapped-IsMonotone (suc (suc zero)) zero le lt = absurd (omega arith)
wrapped-IsMonotone (suc (suc zero)) (suc zero) le lt = absurd (omega arith)
wrapped-IsMonotone (suc (suc zero)) (suc (suc zero)) le lt = omega arith
wrapped-IsMonotone (suc (suc (suc i))) j le lt = absurd (omega arith)
wrapped-IsMonotone zero (suc (suc (suc j))) le lt = absurd (omega arith)
wrapped-IsMonotone (suc zero) (suc (suc (suc j))) le lt = absurd (omega arith)
wrapped-IsMonotone (suc (suc zero)) (suc (suc (suc j))) le lt = absurd (omega arith)

find_by-IsNewest_example :
    (o : Option ℕ) × (find_by (λ e. e.insn) wrapped 35 ≡ some o)
    × IsNewest (λ e. e.insn) (History.contents wrapped) 35 o
find_by-IsNewest_example =
    find_by-IsNewest (λ e. e.insn) wrapped wrapped-IsValid wrapped-IsMonotone 35

abbrev node : TypeInfo
node = type_info "node" 24 false false false false no_fields

abbrev at_head : TypeProjection
at_head = record { base_addr = 0x1000; type_info = node; source_name = "g_head"; stamp_seq = 7 }

abbrev empty_log : TypeEpochLog
empty_log = record { buf = []; cap = 2; head = 0; len = 0; total_closed = 0 }

empty_log-IsValid : Lifetimes.IsValid empty_log
empty_log-IsValid = record {
  circular = record {
    room = omega arith;
    bounded = omega arith;
    pos_in = omega arith;
    filling = λ h. refl;
  };
  stored = refl;
}

query-close_epoch_example :
    (l : TypeEpochLog) × (close_epoch 0x1000 24 at_head 90 free empty_log ≡ some l)
    × (query 0x1000 50 l ≡ some (epoch 0x1000 24 at_head 90 free))
unfolding query iter
query-close_epoch_example =
    query-close_epoch 0x1000 24 at_head 90 free empty_log 50 empty_log-IsValid refl (omega arith)
      (omega arith)
