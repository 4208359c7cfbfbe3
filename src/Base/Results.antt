-- ===== src/Base/Results.antt =====
-- What a call does to the process: it returns, or it ends the process by `exit`.
use Prim.Native.Nat.{ℕ}
use mathlib.Core.Logic.{◌≢◌}
use mathlib.Core.Bool.{Bool, true, false}
use mathlib.Core.List.{List, [], ◌∷◌}
use blockchain_raft.Base.Tests.{if◌then◌else◌}
use mathlib.Core.Path.{◌≡◌, refl, ap, subst}

pub data Result {ℓ} (A : Type ℓ) : Type ℓ where
  ok : A → Result A
  exited : ℕ → Result A

value_or {ℓ} : {A : Type ℓ} → A → Result A → A
value_or d (ok a) = a
value_or d (exited c) = d

infixl 5 ◌>>=◌
abbrev pub ◌>>=◌ {ℓ κ} : {A : Type ℓ} {B : Type κ} → Result A → (A → Result B) → Result B
call >>= next = elim call [ ok v ↦ next v | exited code ↦ exited code ]

-- Where both calls return, so did the first, with a value from which the second went on.
pub >>=-eq-ok {ℓ κ} :
    {A : Type ℓ} {B : Type κ} (call : Result A) (next : A → Result B) {w : B}
    → (call >>= next) ≡ ok w
    → (v : A) × (call ≡ ok v) × (next v ≡ ok w)
>>=-eq-ok (exited code) next e = cc
>>=-eq-ok (ok v) next e = (v, refl, e)

pub >>=_assoc {ℓ κ μ} :
    {A : Type ℓ} {B : Type κ} {C : Type μ} (call : Result A) (f : A → Result B) (g : B → Result C)
    → ((call >>= f) >>= g) ≡ (call >>= λ v. f v >>= g)
>>=_assoc (exited code) f g = refl
>>=_assoc (ok v) f g = refl

pub ok_inj {ℓ} : {A : Type ℓ} {a b : A} → ok a ≡ ok b → a ≡ b
unfolding value_or
ok_inj {b = b} e = ap (value_or b) e

-- What holds of a result if the call returns.
abbrev pub OnOk {ℓ κ} : {A : Type ℓ} → (A → Type κ) → Result A → Type κ
OnOk P (ok a) = P a
OnOk P (exited c) = Unit

pub OnOk->>= {ℓ κ μ ν} :
    {A : Type ℓ} {B : Type κ} (P : A → Type μ) (Q : B → Type ν) (m : Result A) (f : A → Result B)
    → OnOk P m
    → ((a : A) → P a → OnOk Q (f a))
    → OnOk Q (m >>= f)
OnOk->>= P Q (ok a) f h k = k a h
OnOk->>= P Q (exited c) f h k = tt

pub OnOk-eq {ℓ κ} : {A : Type ℓ} (P : A → Type κ) (m : Result A) {a : A} → OnOk P m → m ≡ ok a → P a
OnOk-eq P (ok b) h e = subst P (ok_inj e) h
OnOk-eq P (exited c) h e = cc

pub OnOk-map {ℓ κ μ} :
    {A : Type ℓ} (P : A → Type κ) (Q : A → Type μ) (m : Result A)
    → OnOk P m
    → ((a : A) → P a → Q a)
    → OnOk Q m
OnOk-map P Q (ok a) h f = f a h
OnOk-map P Q (exited c) h f = tt

-- It is enough to look at the value that is returned.
pub OnOk-intro {ℓ κ} :
    {A : Type ℓ} (P : A → Type κ) (call : Result A) → ((v : A) → call ≡ ok v → P v) → OnOk P call
OnOk-intro P (ok v) h = h v refl
OnOk-intro P (exited code) h = tt

-- A condition that a call does not need.
pub OnOk-any {ℓ} : {A : Type ℓ} (call : Result A) → OnOk (λ _. Unit {0}) call
OnOk-any (ok v) = tt
OnOk-any (exited code) = tt

-- The branches of a test, each with what the test has shown.
pub OnOk-if {ℓ κ} :
    {A : Type ℓ} (P : A → Type κ) (b : Bool) (r t : Result A)
    → (b ≡ true → OnOk P r)
    → (b ≡ false → OnOk P t)
    → OnOk P (if b then r else t)
OnOk-if P true r t h k = h refl
OnOk-if P false r t h k = k refl

-- The cases of a list that is empty or not.
pub OnOk-list {ℓ κ μ} :
    {A : Type ℓ} {B : Type κ} (P : A → Type μ) (xs : List B) (r t : Result A)
    → (xs ≡ [] → OnOk P r)
    → (xs ≢ [] → OnOk P t)
    → OnOk P (elim xs [ [] ↦ r | _ ∷ _ ↦ t ])
OnOk-list P [] r t h k = h refl
OnOk-list P (x ∷ xs) r t h k = k (λ e. cc)
