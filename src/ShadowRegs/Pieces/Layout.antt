-- ===== src/ShadowRegs/Pieces/Layout.antt =====
-- `parse_pieces` of engine/src/shadow_regs.rs: where the fragments of a location lie.
use rtmap.Base.{
  ℕ, ◌≡◌, ◌≢◌, refl, ap, List, [], ◌∷◌, Option, none, some, add64, map, sym, Option-cases, inl, inr,
}
use rtmap.Dwarf.Location.{ExprStep}
use rtmap.ShadowRegs.Pieces.{
  PieceSource, PieceFragment, piece_size, step_source, parse_from, parse_pieces, or_whole,
}

-- Each fragment starts where the one before it ends.
abbrev pub IsPacked : ℕ → List PieceFragment → Type 0
IsPacked off [] = Unit
IsPacked off (f ∷ fs) = (f.var_offset ≡ off) × IsPacked (add64 off f.byte_size) fs

-- The sizes in the pieces of an expression, in order.
unfoldable pub piece_sizes : List ExprStep → List ℕ
piece_sizes [] = []
piece_sizes (s ∷ steps) = elim (piece_size s) [
  | none ↦ piece_sizes steps
  | some n ↦ n ∷ piece_sizes steps
]

Follows : ℕ → List ExprStep → List PieceFragment → Type 0
Follows off steps fs = IsPacked off fs × (map (λ f. f.byte_size) fs ≡ piece_sizes steps)

parse_from-Follows :
    (off : ℕ) (pending : Option PieceSource) (steps : List ExprStep)
    → Follows off steps (parse_from off pending steps).0
unfolding parse_from Follows piece_sizes
parse_from-Follows off pending [] = (tt, refl)
parse_from-Follows off pending (s ∷ steps) = elim (Option-cases (piece_size s)) [
  | inl e ↦ rw (parse_from, piece_sizes, e) (parse_from-Follows off (step_source s pending) steps)
  | inr (n, e) ↦
      let rest = parse_from-Follows (add64 off n) none steps in
      rw (parse_from, piece_sizes, e) ((refl, rest.0), ap (◌∷◌ n) rest.1)
]

-- A location with pieces is cut into fragments of exactly their sizes, in order, of which the first
-- starts at 0 and each other one where the one before it ends (modulo 2^64).
pub parse_pieces-IsPacked :
    (steps : List ExprStep)
    → piece_sizes steps ≢ []
    → IsPacked 0 (parse_pieces steps)
      × (map (λ f. f.byte_size) (parse_pieces steps) ≡ piece_sizes steps)
unfolding parse_pieces Follows
parse_pieces-IsPacked steps some_piece =
    by_fragments (parse_from 0 none steps).0 (parse_from 0 none steps).1
      (parse_from-Follows 0 none steps)
  where
    by_fragments :
        (fs : List PieceFragment) (pending : Option PieceSource)
        → Follows 0 steps fs
        → IsPacked 0 (or_whole fs pending)
          × (map (λ f. f.byte_size) (or_whole fs pending) ≡ piece_sizes steps)
    by_fragments [] pending h = absurd (some_piece (sym h.1))
    by_fragments (f ∷ fs) pending h = h
