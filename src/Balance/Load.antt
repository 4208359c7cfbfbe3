-- ===== src/Balance/Load.antt =====
-- `BalanceTable::load_file` of balance_table.h: the first line of the file, split at the spaces and
-- converted, and what a file that the table itself has written gives.
use blockchain_raft.Base.{
  ℕ, zero, suc, ◌+◌, ◌≡◌, refl, sym, ap, ◌∙◌, Bool, true, false, Option, none, some, List, [], ◌∷◌,
  ◌++◌, ◌==◌, if◌then◌else◌, set, get_or, Result, ok, exited, arith,
}
use blockchain_raft.Float32
use blockchain_raft.Float32.Parse.{stof}
use blockchain_raft.Float32.Printed.{to_text-IsText}
use blockchain_raft.Parameter.{client_count}
use blockchain_raft.Text.Split.{split, spaced, IsWord, AreWords, split-spaced}
use blockchain_raft.Balance.{BalanceTable, table_text}

-- "10.0 " for each client.
abbrev pub initial_text : ℕ → List ℕ
initial_text zero = []
initial_text (suc n) = (b'1' ∷ b'0' ∷ b'.' ∷ b'0' ∷ b' ' ∷ []) ++ initial_text n

-- `getline`, with the newline dropped.
unfoldable pub first_line : List ℕ → List ℕ
first_line [] = []
first_line (c ∷ cs) = let rest = first_line cs in if c == 10 then [] else c ∷ rest

abbrev pub store : Option ℕ → ℕ → List ℕ → List ℕ
store none i bals = bals
store (some amount) i bals = set bals i amount

-- Each word that is a number is stored at its position; a word that is none is passed over. More
-- numbers than clients would be written behind the array.
unfoldable pub load_amounts : ℕ → List (List ℕ) → List ℕ → List ℕ
load_amounts i [] bals = bals
load_amounts i (w ∷ ws) bals = load_amounts (i + 1) ws (store (stof w) i bals)

-- `disk` is the file, if there is one; `can_write` is that a new one can be made. `bals` is what the
-- array holds before.
unfoldable pub load_file : Bool → Option (List ℕ) → List ℕ → Result BalanceTable
load_file can_write (some text) bals =
    ok (record { bal_tab = load_amounts 0 (split (first_line text)) bals; file = text })
load_file true none bals =
    let text = initial_text client_count in
    ok (record { bal_tab = load_amounts 0 (split (first_line text)) bals; file = text })
load_file false none bals = exited 0

abbrev texts : ℕ → ℕ → List ℕ → List (List ℕ)
texts zero i bals = []
texts (suc n) i bals = Float32.to_text (get_or bals i 0) ∷ texts n (i + 1) bals

table_text-spaced : (n i : ℕ) (bals : List ℕ) → table_text n i bals ≡ spaced (texts n i bals)
unfolding table_text
table_text-spaced zero i bals = refl
table_text-spaced (suc n) i bals =
    ap (λ (l : List ℕ). (Float32.to_text (get_or bals i 0) ++ b' ' ∷ []) ++ l)
      (table_text-spaced n (i + 1) bals)

texts-AreWords : (n i : ℕ) (bals : List ℕ) → AreWords (texts n i bals)
texts-AreWords zero i bals = tt
texts-AreWords (suc n) i bals =
    let (filled, word) = to_text-IsText (get_or bals i 0) in
    (filled, word, texts-AreWords n (i + 1) bals)

first_line-word :
    (w rest : List ℕ)
    → IsWord w
    → first_line ((w ++ b' ' ∷ []) ++ rest) ≡ (w ++ b' ' ∷ []) ++ first_line rest
unfolding first_line
first_line-word [] rest h = refl
first_line-word (c ∷ cs) rest h =
    let inside : (c == 10) ≡ false = ground (arith, h) in
    rw inside (ap (λ (l : List ℕ). c ∷ l) (first_line-word cs rest h.1))

first_line-spaced : (ws : List (List ℕ)) → AreWords ws → first_line (spaced ws) ≡ spaced ws
unfolding first_line
first_line-spaced [] h = refl
first_line-spaced (w ∷ ws) h =
    let (_, word, more) = h in
    first_line-word w (spaced ws) word
    ∙ ap (λ (l : List ℕ). (w ++ b' ' ∷ []) ++ l) (first_line-spaced ws more)

set-get_or : (xs : List ℕ) (i d : ℕ) → set xs i (get_or xs i d) ≡ xs
set-get_or [] i d = refl
set-get_or (x ∷ xs) zero d = refl
set-get_or (x ∷ xs) (suc i) d = ap (λ (l : List ℕ). x ∷ l) (set-get_or xs i d)

-- The number that was read, or what was there.
abbrev pub read_or : Option ℕ → ℕ → ℕ
read_or none old = old
read_or (some amount) old = amount

store-set :
    (o : Option ℕ) (i : ℕ) (bals : List ℕ)
    → store o i bals ≡ set bals i (read_or o (get_or bals i 0))
store-set none i bals = sym (set-get_or bals i 0)
store-set (some amount) i bals = refl

load_amounts_lem :
    (u v w : List ℕ) (a b c : ℕ)
    → load_amounts 0 (u ∷ v ∷ w ∷ [] ∷ []) (a ∷ b ∷ c ∷ [])
      ≡ read_or (stof u) a ∷ read_or (stof v) b ∷ read_or (stof w) c ∷ []
unfolding load_amounts stof
load_amounts_lem u v w a b c =
    rw
      (
        store-set (stof u) 0 (a ∷ b ∷ c ∷ []),
        store-set (stof v) 1 (read_or (stof u) a ∷ b ∷ c ∷ []),
        store-set (stof w) 2 (read_or (stof u) a ∷ read_or (stof v) b ∷ c ∷ []),
      )
      refl

-- Loading the file that a table of three balances has written sets each balance to the number read
-- from its text, or leaves it if that text is no number, and keeps the file.
pub load_file-table :
    (can_write : Bool) (x y z a b c : ℕ)
    → (let text = table_text client_count 0 (x ∷ y ∷ z ∷ []) in
        load_file can_write (some text) (a ∷ b ∷ c ∷ [])
        ≡ ok (record {
          bal_tab =
              read_or (stof (Float32.to_text x)) a
              ∷ read_or (stof (Float32.to_text y)) b
              ∷ read_or (stof (Float32.to_text z)) c
              ∷ [];
          file = text;
        }))
unfolding load_file
load_file-table can_write x y z a b c =
    let bals = x ∷ y ∷ z ∷ [] in
    let text = table_text client_count 0 bals in
    let words : split (first_line text) ≡ texts client_count 0 bals ++ [] ∷ [] =
      ap (λ (l : List ℕ). split (first_line l)) (table_text-spaced client_count 0 bals)
      ∙ ap split
          (first_line-spaced (texts client_count 0 bals) (texts-AreWords client_count 0 bals))
      ∙ split-spaced (texts client_count 0 bals) (texts-AreWords client_count 0 bals) in
    ap (λ (l : List ℕ). ok (record { bal_tab = l; file = text }))
      (ap (λ (l : List (List ℕ)). load_amounts 0 l (a ∷ b ∷ c ∷ [])) words
        ∙ load_amounts_lem (Float32.to_text x) (Float32.to_text y) (Float32.to_text z) a b c)
