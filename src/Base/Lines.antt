-- ===== src/Base/Lines.antt =====
-- Texts that stand in a line of a file: without a newline, and without a space at the end.
use Prim.Native.Nat.{ℕ}
use mathlib.Core.Path.{◌≡◌, refl}
use mathlib.Core.Bool.{Bool, true, false, not}
use mathlib.Core.List.{[], ◌∷◌, ◌++◌}
use native.Mathlib.Omega.{arith}
use rtmap.Base.Tests.{◌==◌}
use rtmap.Base.Lists.{All, All-map, all}
use rtmap.Base.Texts.{Text, is_empty, trim_end, lines}

abbrev pub Unbroken : Text → Type 0
Unbroken s = All (λ c. (c == b'\n') ≡ false) s

-- A text without a newline, and without a space at its end.
pub record Clean (s : Text) : Type 0 where
  pub unbroken : Unbroken s
  pub trimmed : trim_end s ≡ s
  pub more : is_empty s ≡ false

pub prepend : (s tail : Text) → Unbroken s → Clean tail → Clean (s ++ tail)
unfolding trim_end
prepend [] tail u c = c
prepend (d ∷ s) tail u c =
    let rest = prepend s tail u.1 c in
    record {
      unbroken = (u.0, rest.unbroken);
      trimmed = rw (rest.trimmed, rest.more) refl;
      more = refl;
    }

pub no_break :
    (p : ℕ → Bool)
    → ((c : ℕ) → p c ≡ true → (c == b'\n') ≡ false)
    → (s : Text) → All (λ c. p c ≡ true) s
    → Unbroken s
no_break p f s a = All-map f s a

-- A text that is written out.
pub no_newline : (s : Text) → all (λ c. not (c == b'\n')) s ≡ true → Unbroken s
no_newline [] h = tt
no_newline (c ∷ s) h = ground (arith, no_newline s)

pub first_line : (l rest : Text) → Unbroken l → lines (l ++ b'\n' ∷ rest) ≡ l ∷ lines rest
first_line [] rest u = refl
first_line (c ∷ l) rest u = rw (u.0, first_line l rest u.1) refl
