-- ===== src/Text/Split.antt =====
-- `while (ss.good()) { std::string arg; ss >> arg; args.push_back(arg); }`, by which the programs
-- split a line: behind a space at the end there is one more word, which is empty.
use blockchain_raft.Base.{
  ℕ, ◌≡◌, ◌≢◌, refl, sym, ap, ◌∙◌, Bool, true, false, ◌&&◌, ◌||◌, Option, none, some, List, [], ◌∷◌,
  ◌++◌, append-nil, append_assoc, leb, ◌==◌,
}

abbrev pub is_space : ℕ → Bool
is_space c = (c == 32) || (leb 9 c && leb c 13)

-- Between two words, or behind the letters of one that were read.
unfoldable pub split_from : Option (List ℕ) → List ℕ → List (List ℕ)
split_from none [] = [] ∷ []
split_from (some w) [] = w ∷ []
split_from none (c ∷ cs) = elim (is_space c) [
  | true ↦ split_from none cs
  | false ↦ split_from (some (c ∷ [])) cs
]
split_from (some w) (c ∷ cs) = elim (is_space c) [
  | true ↦ w ∷ split_from none cs
  | false ↦ split_from (some (w ++ c ∷ [])) cs
]

unfoldable pub split : List ℕ → List (List ℕ)
unfolding split_from
split s = split_from none s

abbrev pub IsWord : List ℕ → Type 0
IsWord [] = Unit
IsWord (c ∷ cs) = (is_space c ≡ false) × IsWord cs

-- A word, and one space behind each.
abbrev pub spaced : List (List ℕ) → List ℕ
spaced [] = []
spaced (w ∷ ws) = (w ++ b' ' ∷ []) ++ spaced ws

abbrev pub AreWords : List (List ℕ) → Type 0
AreWords [] = Unit
AreWords (w ∷ ws) = (w ≢ []) × IsWord w × AreWords ws

pub IsWord-append : (v w : List ℕ) → IsWord v → IsWord w → IsWord (v ++ w)
IsWord-append [] w h k = k
IsWord-append (c ∷ v) w h k = (h.0, IsWord-append v w h.1 k)

split_from-word :
    (w cs : List ℕ) (rest : List ℕ)
    → IsWord cs
    → split_from (some w) ((cs ++ b' ' ∷ []) ++ rest) ≡ (w ++ cs) ∷ split_from none rest
unfolding split_from
split_from-word w [] rest h = ap (λ (l : List ℕ). l ∷ split_from none rest) (sym (append-nil w))
split_from-word w (c ∷ cs) rest h =
    rw (h.0, split_from)
      (split_from-word (w ++ c ∷ []) cs rest h.1
        ∙ ap (λ (l : List ℕ). l ∷ split_from none rest) (append_assoc w (c ∷ []) cs))

split_from-start :
    (c : ℕ) (cs : List ℕ)
    → is_space c ≡ false
    → split_from none (c ∷ cs) ≡ split_from (some (c ∷ [])) cs
unfolding split_from
split_from-start c cs h = rw (h, split_from) refl

-- The words that were written, each with a space behind it, are read back, and an empty one more.
pub split-spaced : (ws : List (List ℕ)) → AreWords ws → split (spaced ws) ≡ ws ++ [] ∷ []
unfolding split split_from
split-spaced [] h = refl
split-spaced ([] ∷ ws) h = absurd (h.0 refl)
split-spaced ((c ∷ cs) ∷ ws) h =
    let (_, (first, others), more) = h in
    split_from-start c ((cs ++ b' ' ∷ []) ++ spaced ws) first
    ∙ split_from-word (c ∷ []) cs (spaced ws) others
    ∙ ap (λ (l : List (List ℕ)). (c ∷ cs) ∷ l) (split-spaced ws more)
