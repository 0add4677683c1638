-- ===== src/Config/Args.antt =====
-- Arguments in quotes, and how `shell_split` of engine/src/config.rs takes them apart.
use rtmap.Base.{
  ℕ, ◌==◌, ◌≡◌, refl, sym, ap, ◌∙◌, true, false, not, ◌||◌, List, [], ◌∷◌, ◌++◌, if◌then◌else◌,
  arith, retain, Bool-cases, inl, inr,
}
use mathlib.Core.List.{append-nil, append_assoc}
use rtmap.Base.Texts.{Text, is_empty}
use rtmap.Config.{Splitter, split_from, shell_split, push_arg}

-- A backslash before each quote and backslash.
unfoldable pub escaped : Text → Text
escaped [] = []
escaped (c ∷ s) = if (c == b'"') || (c == b'\\') then b'\\' ∷ c ∷ escaped s else c ∷ escaped s

-- The arguments as a command line: each in double quotes, with a space behind it.
unfoldable pub command_line : List Text → Text
unfolding escaped
command_line [] = []
command_line (a ∷ args) = b'"' ∷ (escaped a ++ b'"' ∷ b' ' ∷ command_line args)

abbrev inside : Text → Splitter
inside current = record {
  current = current;
  in_single = false;
  in_double = true;
  escape_next = false;
}

abbrev behind : Text → Splitter
behind current = record {
  current = current;
  in_single = false;
  in_double = false;
  escape_next = false;
}

plain :
    (c : ℕ) (current rest : Text)
    → ((c == b'"') || (c == b'\\')) ≡ false
    → split_from (inside current) (c ∷ rest) ≡ split_from (inside (current ++ c ∷ [])) rest
unfolding split_from
plain c current rest h = ground arith

split_from-escaped :
    (a current rest : Text)
    → split_from (inside current) (escaped a ++ b'"' ∷ rest)
      ≡ split_from (behind (current ++ a)) rest
unfolding split_from escaped
split_from-escaped [] current rest = ap (λ x. split_from (behind x) rest) (sym (append-nil current))
split_from-escaped (c ∷ a) current rest =
    let more = split_from-escaped a (current ++ c ∷ []) rest in
    let whole = ap (λ x. split_from (behind x) rest) (append_assoc current (c ∷ []) a) in
    elim (Bool-cases ((c == b'"') || (c == b'\\'))) [
      | inl special ↦ rw special (more ∙ whole)
      | inr other ↦ rw other (plain c current (escaped a ++ b'"' ∷ rest) other ∙ more ∙ whole)
    ]

kept :
    (a : Text) (args rest : List Text)
    → rest ≡ retain (λ x. not (is_empty x)) args
    → push_arg a rest ≡ retain (λ x. not (is_empty x)) (a ∷ args)
kept [] args rest h = h
kept (c ∷ a) args rest h = ap (◌∷◌ (c ∷ a)) h

-- The arguments of a command line are those it was written with, but for the empty ones, which are
-- lost.
pub shell_split-command_line :
    (args : List Text) → shell_split (command_line args) ≡ retain (λ a. not (is_empty a)) args
unfolding shell_split split_from command_line
shell_split-command_line [] = refl
shell_split-command_line (a ∷ args) =
    split_from-escaped a [] (b' ' ∷ command_line args)
    ∙ kept a args _ (shell_split-command_line args)
