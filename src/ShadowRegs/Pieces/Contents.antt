-- ===== src/ShadowRegs/Pieces/Contents.antt =====
-- `resolve_pieces` of engine/src/shadow_regs.rs: the bytes of the assembled variable.
use rtmap.Base.{
  ℕ, suc, ◌+◌, ◌-◌, ◌≤◌, ◌<◌, ◌≡◌, refl, sym, ap, ◌∙◌, true, false, List, [], ◌∷◌, ◌++◌, Option,
  some, arith, add64, u64_mod, min, ltb, leb, length, take, drop, replicate, All, length-append,
  length-drop, length-replicate,
}
use mathlib.Core.List.{append_assoc}
use mathlib.Core.Path.{subst}
use rtmap.ShadowRegs.{ShadowReg}
use rtmap.ShadowRegs.Pieces.{
  PieceFragment, AssembledValue, splice, source_bytes, placed, resolve_fragment, resolve_all,
  resolve_pieces,
}
use rtmap.ShadowRegs.Pieces.Layout.{IsPacked}

take_all {ℓ} : {A : Type ℓ} (xs : List A) → take (length xs) xs ≡ xs
take_all [] = refl
take_all (x ∷ xs) = ap (◌∷◌ x) (take_all xs)

take-append {ℓ} : {A : Type ℓ} (xs ys : List A) → take (length xs) (xs ++ ys) ≡ xs
take-append [] ys = refl
take-append (x ∷ xs) ys = ap (◌∷◌ x) (take-append xs ys)

drop-append {ℓ} :
    {A : Type ℓ} (xs ys : List A) (k : ℕ) → drop (length xs + k) (xs ++ ys) ≡ drop k ys
drop-append [] ys k = ap (λ n. drop n ys) (omega arith)
drop-append (x ∷ xs) ys k =
    let next : suc (length xs) + k ≡ suc (length xs + k) = omega arith in
    ap (λ n. drop n (x ∷ (xs ++ ys))) next ∙ drop-append xs ys k

splice-append {ℓ} :
    {A : Type ℓ} (done src rest : List A)
    → splice (length done) src (done ++ rest) ≡ (done ++ src) ++ drop (length src) rest
splice-append done src rest =
    rw (take-append done rest, drop-append done rest (length src))
      (sym (append_assoc done src (drop (length src) rest)))

unfoldable pub size_sum : List PieceFragment → ℕ
size_sum [] = 0
size_sum (f ∷ fs) = f.byte_size + size_sum fs

module _ (regs : List ShadowReg) (frame_base : ℕ) (read_mem : ℕ → ℕ → Option (List ℕ)) where
  abbrev pub fragment_bytes : PieceFragment → List ℕ
  fragment_bytes f = (source_bytes regs frame_base read_mem f.byte_size f.source).0

  -- The source gives all the bytes of the fragment. (A register gives 8 at most.)
  abbrev pub IsComplete : PieceFragment → Type 0
  IsComplete f = length (fragment_bytes f) ≡ f.byte_size

  pub contents : List PieceFragment → List ℕ
  contents [] = []
  contents (f ∷ fs) = fragment_bytes f ++ contents fs

  -- One fragment after the bytes that are in place.
  resolve_fragment_lem :
      (total : ℕ) (f : PieceFragment) (a : AssembledValue) (done rest : List ℕ)
      → a.bytes ≡ done ++ rest
      → f.var_offset ≡ length done
      → IsComplete f
      → f.byte_size ≤ length rest
      → length done + length rest ≡ total
      → total < u64_mod
      → (b : AssembledValue) × (resolve_fragment regs frame_base read_mem total f a ≡ some b)
        × (b.bytes ≡ (done ++ fragment_bytes f) ++ drop f.byte_size rest)
  unfolding resolve_fragment
  resolve_fragment_lem total f a done rest e start whole le size small =
      let src = fragment_bytes f in
      let conf = (source_bytes regs frame_base read_mem f.byte_size f.source).1 in
      let n = min (length src) f.byte_size in
      let inside : ltb total (add64 f.var_offset f.byte_size) ≡ false = ground arith in
      let held : length a.bytes ≡ length done + length rest =
        ap length e ∙ length-append done rest in
      let room : leb (f.var_offset + n) (length a.bytes) ≡ true = ground arith in
      let all_of : n ≡ length src = omega arith in
      (
        placed regs frame_base read_mem f.var_offset n src conf a,
        rw (inside, room) refl,
        ap (λ k. splice f.var_offset (take k src) a.bytes) all_of
            ∙ ap (λ s. splice f.var_offset s a.bytes) (take_all src)
            ∙ ap (λ k. splice k src a.bytes) start
            ∙ ap (splice (length done) src) e
            ∙ splice-append done src rest
            ∙ ap (λ k. (done ++ src) ++ drop k rest) whole,
      )

  resolve_all_lem :
      (total : ℕ) (fs : List PieceFragment) (a : AssembledValue) (done rest : List ℕ)
      → a.bytes ≡ done ++ rest
      → IsPacked (length done) fs
      → All IsComplete fs
      → size_sum fs ≡ length rest
      → length done + length rest ≡ total
      → total < u64_mod
      → (b : AssembledValue) × (resolve_all regs frame_base read_mem total fs a ≡ some b)
        × (b.bytes ≡ done ++ contents fs)
  unfolding resolve_all contents size_sum
  resolve_all_lem total [] a done [] e p c s t small = (a, refl, e)
  resolve_all_lem total [] a done (x ∷ rest) e p c s t small = absurd (omega arith)
  resolve_all_lem total (f ∷ fs) a done rest e p c s t small =
      let (b, one, here) =
        resolve_fragment_lem total f a done rest e p.0 c.0 (omega arith) t small in
      let longer : length (done ++ fragment_bytes f) ≡ length done + f.byte_size =
        omega (arith, length-append done (fragment_bytes f), c.0) in
      let fewer : length (drop f.byte_size rest) ≡ length rest - f.byte_size =
        length-drop f.byte_size rest in
      let next : add64 (length done) f.byte_size ≡ length (done ++ fragment_bytes f) =
        omega arith in
      let (d, more, all_bytes) =
        resolve_all_lem total fs b (done ++ fragment_bytes f) (drop f.byte_size rest) here
          (subst (λ k. IsPacked k fs) next p.1) c.1 (omega arith) (omega arith) small in
      (d, rw one more, all_bytes ∙ append_assoc done (fragment_bytes f) (contents fs))

  -- Fragments that lie side by side from 0, fill the variable and have all their bytes are put
  -- together to exactly their bytes in order, without a panic.
  pub resolve_pieces-contents :
      (fragments : List PieceFragment) (total : ℕ)
      → IsPacked 0 fragments
      → All IsComplete fragments
      → size_sum fragments ≡ total
      → total < u64_mod
      → (a : AssembledValue) × (resolve_pieces regs frame_base read_mem fragments total ≡ some a)
        × (a.bytes ≡ contents fragments)
  unfolding resolve_pieces
  resolve_pieces-contents fragments total p c s small =
      resolve_all_lem total fragments _ [] (replicate total 0) refl p c
        (s ∙ sym (length-replicate total 0)) (omega (arith, length-replicate {A = ℕ} total 0)) small
