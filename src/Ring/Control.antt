-- ===== src/Ring/Control.antt =====
-- The control block of engine/src/ring.rs that a traced process shares: the handshake by the hash of
-- the layouts, the process ids, and the filter of addresses with priority.
-- Opening a shared memory object by its name is a parameter.
use rtmap.Base.{
  ℕ, zero, suc, ◌*◌, ◌/◌, ◌%◌, ◌^◌, ◌≡◌, refl, Bool, true, false, not, ◌&&◌, List, [], ◌∷◌, Option,
  none, some, ◌==◌, if◌then◌else◌, mul32, get_or, set, ◌>>=◌,
}
use Prim.Native.Nat.{bit_xor, bit_or}
use rtmap.Ring.{rtmap_proto_version}

abbrev pub fnv_prime : ℕ
fnv_prime = 0x01000193

abbrev pub fnv_basis : ℕ
fnv_basis = 0x811c9dc5

-- `n` rounds, each of which takes the lowest byte that is left of `v`.
abbrev pub fnv_bytes : ℕ → ℕ → ℕ → ℕ → ℕ
fnv_bytes prime zero v h = h
fnv_bytes prime (suc n) v h = fnv_bytes prime n (v / 256) (mul32 (bit_xor h (v % 256)) prime)

abbrev pub fnv_feed : ℕ → ℕ → ℕ
fnv_feed h v = fnv_bytes fnv_prime 4 v h

abbrev pub feed_all : ℕ → List ℕ → ℕ
feed_all h [] = h
feed_all h (v ∷ vs) = feed_all (fnv_feed h v) vs

-- The sizes and offsets that `repr(C)` gives the three structs.
abbrev pub layout : List ℕ
layout = 32 ∷ 0 ∷ 16 ∷ 24 ∷ 28 ∷ 192 ∷ 64 ∷ 128 ∷ 32 ∷ 128 ∷ 28 ∷ 32 ∷ 40 ∷ []

abbrev pub rtmap_abi_hash : ℕ
rtmap_abi_hash = feed_all fnv_basis layout

-- The hash that the header of the tracer has.
abi_hash_frozen : rtmap_abi_hash ≡ 0x8d1fdff5
abi_hash_frozen = refl

abbrev pub bloom_words : ℕ
bloom_words = 512

abbrev pub bloom_h1 : ℕ → ℕ
bloom_h1 addr = fnv_bytes fnv_prime 8 addr fnv_basis % (bloom_words * 64)

abbrev pub bloom_h2 : ℕ → ℕ
bloom_h2 addr = fnv_bytes fnv_basis 8 addr fnv_prime % (bloom_words * 64)

abbrev pub rtmap_ctl_magic : ℕ
rtmap_ctl_magic = 0x5254435430303032

pub record CtlHeader : Type 0 where
  pub magic : ℕ
  pub proto_version : ℕ
  pub build_hash : ℕ
  pub target_pid : ℕ
  pub parent_pid : ℕ
  pub tripwire : ℕ
  pub priority_bloom : List ℕ

-- A block with another magic, version or hash is refused.
pub is_ours : CtlHeader → Bool
is_ours hdr =
    (hdr.magic == rtmap_ctl_magic)
    && (hdr.proto_version == rtmap_proto_version)
    && (hdr.build_hash == rtmap_abi_hash)

-- `attach_ctl_shm`: the block that is attached afterwards, and whether this one is.
pub attach_ctl_shm : CtlHeader → Option CtlHeader → Option CtlHeader × Bool
unfolding is_ours
attach_ctl_shm shm ctl = if is_ours shm then (some shm, true) else (ctl, false)

module _ {Name : Type 0} (open_shm : Name → Option CtlHeader) (legacy : Name)
    (name_of : ℕ → Name) where
  pub try_attach_ctl : Option CtlHeader → Option CtlHeader × Bool
  unfolding attach_ctl_shm
  try_attach_ctl (some c) = (some c, true)
  try_attach_ctl none = elim (open_shm legacy) [
    | none ↦ (none, false)
    | some shm ↦ attach_ctl_shm shm none
  ]

  pub try_attach_ctl_pid : ℕ → Option CtlHeader → Option CtlHeader × Bool
  unfolding attach_ctl_shm
  try_attach_ctl_pid pid (some c) = (some c, true)
  try_attach_ctl_pid pid none = elim (open_shm (name_of pid)) [
    | none ↦ (none, false)
    | some shm ↦ attach_ctl_shm shm none
  ]

  -- The block of the process, or the legacy name where there is none.
  pub try_attach_ctl_for_pid : ℕ → Option CtlHeader → Option CtlHeader × Bool
  unfolding attach_ctl_shm try_attach_ctl
  try_attach_ctl_for_pid pid (some c) = (some c, true)
  try_attach_ctl_for_pid pid none = elim (open_shm (name_of pid)) [
    | none ↦ try_attach_ctl none
    | some shm ↦ attach_ctl_shm shm none
  ]

  -- Target and parent of a process's block.
  pub peek_ctl_identity : ℕ → Option (ℕ × ℕ)
  unfolding is_ours
  peek_ctl_identity pid = open_shm (name_of pid) >>= λ hdr.
      if is_ours hdr then some (hdr.target_pid, hdr.parent_pid) else none

abbrev pub nonzero : ℕ → Option ℕ
nonzero pid = if pid == 0 then none else some pid

pub target_pid : Option CtlHeader → Option ℕ
target_pid ctl = ctl >>= λ hdr. nonzero hdr.target_pid

pub parent_pid : Option CtlHeader → Option ℕ
parent_pid ctl = ctl >>= λ hdr. nonzero hdr.parent_pid

pub tripwire_hit : Option CtlHeader → Bool
tripwire_hit none = false
tripwire_hit (some hdr) = not (hdr.tripwire == 0)

abbrev pub set_bit : ℕ → List ℕ → List ℕ
set_bit b words = set words (b / 64) (bit_or (get_or words (b / 64) 0) (2 ^ (b % 64)))

pub bloom_insert : ℕ → Option CtlHeader → Option CtlHeader
bloom_insert addr none = none
bloom_insert addr (some hdr) = some (record hdr {
  priority_bloom = set_bit (bloom_h2 addr) (set_bit (bloom_h1 addr) hdr.priority_bloom);
})
