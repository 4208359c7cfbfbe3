-- ===== src/Chain/Lines.antt =====
-- `getline` over the backup file: how the bytes fall into lines.
use blockchain_raft.Base.{
  ℕ, suc, ◌+◌, ◌≡◌, ◌≢◌, ap, sym, ◌∙◌, inl, inr, List, [], ◌∷◌, ◌++◌, arith, ◌==◌, if◌then◌else◌,
  Bool-cases, length, append_assoc, append-nil,
}
use blockchain_raft.Chain.{newline, lines, lines_from}

-- No byte is a newline.
abbrev pub IsClean : List ℕ → Type 0
IsClean [] = Unit {0}
IsClean (c ∷ cs) = (c ≢ newline) × IsClean cs

pub IsClean-append : (xs ys : List ℕ) → IsClean xs → IsClean ys → IsClean (xs ++ ys)
IsClean-append [] ys hx hy = hy
IsClean-append (x ∷ xs) ys hx hy = (hx.0, IsClean-append xs ys hx.1 hy)

-- The number of newlines.
unfoldable pub newlines : List ℕ → ℕ
newlines [] = 0
newlines (c ∷ cs) = if c == newline then suc (newlines cs) else newlines cs

lines_from-clean :
    (acc l rest : List ℕ)
    → IsClean l
    → lines_from acc (l ++ newline ∷ rest) ≡ (acc ++ l) ∷ lines_from [] rest
unfolding lines_from
lines_from-clean acc [] rest h = ap (λ (l : List ℕ). l ∷ lines_from [] rest) (sym (append-nil acc))
lines_from-clean acc (c ∷ l) rest h = elim (Bool-cases (c == newline)) [
  | inl e ↦ absurd (h.0 (ground arith))
  | inr e ↦
      rw (e, lines_from)
        (lines_from-clean (acc ++ c ∷ []) l rest h.1
          ∙ ap (λ (k : List ℕ). k ∷ lines_from [] rest) (append_assoc acc (c ∷ []) l))
]

-- A clean text before the first newline is the first line.
pub lines-clean : (l rest : List ℕ) → IsClean l → lines (l ++ newline ∷ rest) ≡ l ∷ lines rest
unfolding lines
lines-clean l rest h = lines_from-clean [] l rest h

length-lines_from :
    (acc t rest : List ℕ)
    → length (lines_from acc (t ++ newline ∷ rest)) ≡ suc (newlines t + length (lines_from [] rest))
unfolding lines_from newlines
length-lines_from acc [] rest = omega arith
length-lines_from acc (c ∷ t) rest = elim (Bool-cases (c == newline)) [
  | inl e ↦ rw (e, lines_from) (omega (arith, length-lines_from [] t rest))
  | inr e ↦ rw (e, lines_from) (length-lines_from (acc ++ c ∷ []) t rest)
]

-- A text up to a newline gives one line, and one more for each newline inside it.
pub length-lines :
    (t rest : List ℕ)
    → length (lines (t ++ newline ∷ rest)) ≡ suc (newlines t + length (lines rest))
unfolding lines
length-lines t rest = length-lines_from [] t rest
