-- ===== src/ShadowRegs/Pieces/Assembly.antt =====
-- `resolve_pieces` of engine/src/shadow_regs.rs: panics, sizes and counts.
use rtmap.Base.{
  ℕ, ◌+◌, ◌≤◌, ◌<◌, ◌≡◌, refl, ◌∙◌, true, List, [], ◌∷◌, ◌++◌, Option, some, arith, add64, u64_mod,
  min, ltb, leb, length, take, drop, replicate, All, length-append, length-take, length-drop,
  length-replicate, Bool-cases, inl, inr,
}
use rtmap.ShadowRegs.{ShadowReg, Confidence, unknown}
use rtmap.ShadowRegs.Pieces.{
  PieceFragment, AssembledValue, splice, source_bytes, placed, resolve_fragment, resolve_all,
  resolve_pieces,
}

length-splice {ℓ} :
    {A : Type ℓ} (off : ℕ) (src dst : List A)
    → off + length src ≤ length dst
    → length (splice off src dst) ≡ length dst
length-splice off src dst h = omega (
  arith,
  length-append (take off dst) (src ++ drop (off + length src) dst),
  length-append src (drop (off + length src) dst),
  length-take off dst,
  length-drop (off + length src) dst,
)

-- The value has `total` bytes.
pub record IsSized (total : ℕ) (a : AssembledValue) : Type 0 where
  pub bytes : length a.bytes ≡ total
  pub confidence : length a.confidence ≡ total

-- A fragment that ends below 2^64.
abbrev pub IsBounded : PieceFragment → Type 0
IsBounded f = f.var_offset + f.byte_size < u64_mod

module _ (regs : List ShadowReg) (frame_base : ℕ) (read_mem : ℕ → ℕ → Option (List ℕ)) where
  placed-IsSized :
      (total off n : ℕ) (src : List ℕ) (conf : Confidence) (a : AssembledValue)
      → IsSized total a
      → n ≤ length src
      → off + n ≤ total
      → IsSized total (placed regs frame_base read_mem off n src conf a)
  placed-IsSized total off n src conf a s le fits = record {
    bytes =
        length-splice off (take n src) a.bytes (omega (arith, length-take n src, s.bytes))
        ∙ s.bytes;
    confidence =
        length-splice off (replicate n conf) a.confidence
          (omega (arith, length-replicate n conf, s.confidence))
        ∙ s.confidence;
  }

  Resolved : ℕ → ℕ → AssembledValue → Option AssembledValue → Type 0
  Resolved total steps a o =
      (a' : AssembledValue) × (o ≡ some a')
      × IsSized total a'
      × (a'.resolved_count ≤ steps + a.resolved_count)
      × (a'.total_count ≡ a.total_count)

  resolve_fragment-Resolved :
      (total : ℕ) (f : PieceFragment) (a : AssembledValue)
      → IsSized total a
      → IsBounded f
      → Resolved total 1 a (resolve_fragment regs frame_base read_mem total f a)
  unfolding Resolved resolve_fragment
  resolve_fragment-Resolved total f a s small =
      elim (Bool-cases (ltb total (add64 f.var_offset f.byte_size))) [
        | inl e ↦ (a, rw e refl, s, omega arith, refl)
        | inr e ↦
            let (src, conf) = source_bytes regs frame_base read_mem f.byte_size f.source in
            let n = min (length src) f.byte_size in
            let fits : f.var_offset + n ≤ total = ground arith in
            let room : leb (f.var_offset + n) (length a.bytes) ≡ true = ground (arith, s.bytes) in
            (
              placed regs frame_base read_mem f.var_offset n src conf a,
              rw (e, room) refl,
              placed-IsSized total f.var_offset n src conf a s (omega arith) fits,
              ground arith,
              refl,
            )
      ]

  resolve_all-Resolved :
      (total : ℕ) (fs : List PieceFragment) (a : AssembledValue)
      → IsSized total a
      → All IsBounded fs
      → Resolved total (length fs) a (resolve_all regs frame_base read_mem total fs a)
  unfolding Resolved resolve_all
  resolve_all-Resolved total [] a s h = (a, refl, s, omega arith, refl)
  resolve_all-Resolved total (f ∷ fs) a s h =
      let (b, done, sized, count, same) = resolve_fragment-Resolved total f a s h.0 in
      let (c, done', sized', count', same') = resolve_all-Resolved total fs b sized h.1 in
      (c, rw done done', sized', omega (arith, count, count'), same' ∙ same)

  -- Fragments that end below 2^64 are put together without a panic, whatever memory answers: the
  -- value has as many bytes and confidences as its type, and no more fragments are counted as
  -- resolved than there are.
  pub resolve_pieces-IsSized :
      (fragments : List PieceFragment) (total : ℕ)
      → All IsBounded fragments
      → (a : AssembledValue) × (resolve_pieces regs frame_base read_mem fragments total ≡ some a)
        × IsSized total a
        × (a.resolved_count ≤ a.total_count)
        × (a.total_count ≡ length fragments)
  unfolding resolve_pieces Resolved
  resolve_pieces-IsSized fragments total h =
      let (a, done, sized, count, same) =
        resolve_all-Resolved total fragments _
          (record { bytes = length-replicate total 0; confidence = length-replicate total unknown })
          h in
      (a, done, sized, omega (arith, count, same), same)
