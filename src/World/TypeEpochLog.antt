-- ===== src/World/TypeEpochLog.antt =====
-- `TypeEpochLog` of engine/src/world.rs: a circular log of the typed lifetimes that have ended.
pub mod Lifetimes
use Prim.Native.String.{String}
use rtmap.Base.{
  ℕ, zero, suc, ◌+◌, ◌-◌, ◌%◌, ◌≤◌, ◌<◌, ◌≡◌, refl, ap, ◌∙◌, Bool, true, ◌&&◌, List, [], ◌∷◌, ◌++◌,
  Option, none, some, arith, add64, ltb, leb, ◌==◌, if◌then◌else◌, length, drop, take, find, retain,
  min, ◌>>=◌,
}
use rtmap.Circular.{IsCircular, push_slot, keep_last, push_slot-view}
use rtmap.Dwarf.{name}
use rtmap.World.ShadowTypeMap.{TypeProjection}

pub data EpochClose : Type 0 where
  free realloc schism : EpochClose

pub record TypeEpoch : Type 0 where
  pub addr : ℕ
  pub size : ℕ
  pub type_name : String
  pub source : String
  pub open_seq : ℕ
  pub close_seq : ℕ
  pub close_reason : EpochClose

pub record TypeEpochLog : Type 0 where
  pub buf : List TypeEpoch
  pub cap : ℕ
  pub head : ℕ
  pub len : ℕ
  pub total_closed : ℕ

pub new : ℕ → TypeEpochLog
new cap = record { buf = []; cap = cap; head = 0; len = 0; total_closed = 0 }

abbrev pub epoch : ℕ → ℕ → TypeProjection → ℕ → EpochClose → TypeEpoch
epoch addr size proj close_seq reason = record {
  addr = addr;
  size = size;
  type_name = name proj.type_info;
  source = proj.source_name;
  open_seq = proj.stamp_seq;
  close_seq = close_seq;
  close_reason = reason;
}

-- `none` is a panic: an index out of range, as with capacity 0.
pub close_epoch : ℕ → ℕ → TypeProjection → ℕ → EpochClose → TypeEpochLog → Option TypeEpochLog
unfolding push_slot
close_epoch addr size proj close_seq reason l = do
  buf ← push_slot l.buf l.cap l.head (epoch addr size proj close_seq reason)
  some (record l {
    buf = buf;
    head = (l.head + 1) % l.cap;
    len = min (l.len + 1) l.cap;
    total_closed = add64 l.total_closed 1;
  })

-- Oldest to newest. (`split_at` panics past the end; a valid log keeps `head` inside.)
unfoldable pub iter : TypeEpochLog → List TypeEpoch
iter l = if ltb (length l.buf) l.cap then l.buf else drop l.head l.buf ++ take l.head l.buf

-- Whether the epoch covers the address and the moment that a query asks for.
abbrev pub lived_at : ℕ → ℕ → TypeEpoch → Bool
lived_at addr seq e = (e.addr == addr) && (leb e.open_seq seq && ltb seq e.close_seq)

unfoldable pub query : ℕ → ℕ → TypeEpochLog → Option TypeEpoch
unfolding iter
query addr seq l = find (lived_at addr seq) (iter l)

pub history : ℕ → TypeEpochLog → List TypeEpoch
unfolding iter
history addr l = retain (λ e. e.addr == addr) (iter l)
