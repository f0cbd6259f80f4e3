-- ===== src/Prelude/Program.antt =====
-- Programs that call a library which is not part of the repository, and whose state is a record.
-- What the library returns is the list of its replies, one for each call, in the order of the
-- calls: a run of the program is a function of that list.
use mathlib.Core.Path.{◌≡◌, refl}
use mathlib.Core.List.{List}

module _ {ℓ κ μ} where
  -- `R` is a reply, `S` the program's state, `A` what it returns.
  pub data Outcome (R : Type ℓ) (S : Type κ) (A : Type μ) : Type (ℓ ⊔ κ ⊔ μ) where
    -- it returns, with these replies not yet asked for
    done : A → List R → S → Outcome R S A
    -- it has called `exit`, with this state
    exited : List R → S → Outcome R S A
    -- it waits in a call for which the list holds no reply
    blocked : S → Outcome R S A
    -- it has done what C leaves undefined
    fault : Outcome R S A

  abbrev pub Effect : Type ℓ → Type κ → Type μ → Type (ℓ ⊔ κ ⊔ μ)
  Effect R S A = List R → S → Outcome R S A

abbrev pub pure {ℓ κ μ} : {R : Type ℓ} {S : Type κ} {A : Type μ} → A → Effect R S A
pure a rs s = done a rs s

infixl 5 ◌>>=◌ ◌>>◌
abbrev pub ◌>>=◌ {ℓ κ μ ν} :
    {R : Type ℓ} {S : Type κ} {A : Type μ} {B : Type ν}
    → Effect R S A
    → (A → Effect R S B)
    → Effect R S B
◌>>=◌ m f rs s = elim (m rs s) [
  | done a rs' s' ↦ f a rs' s'
  | exited rs' s' ↦ exited rs' s'
  | blocked s' ↦ blocked s'
  | fault ↦ fault
]

abbrev pub ◌>>◌ {ℓ κ μ ν} :
    {R : Type ℓ} {S : Type κ} {A : Type μ} {B : Type ν} → Effect R S A → Effect R S B → Effect R S B
m >> k = m >>= λ _. k

-- What follows a program that returns.
pub >>=-eq-done {ℓ κ μ ν} :
    {R : Type ℓ} {S : Type κ} {A : Type μ} {B : Type ν} (m : Effect R S A) (f : A → Effect R S B)
    → {a : A} {rs rs' : List R} {s s' : S} → m rs s ≡ done a rs' s'
    → (m >>= f) rs s ≡ f a rs' s'
>>=-eq-done m f e = rw (◌>>=◌, e) refl

pub >>=-eq-exited {ℓ κ μ ν} :
    {R : Type ℓ} {S : Type κ} {A : Type μ} {B : Type ν} (m : Effect R S A) (f : A → Effect R S B)
    → {rs rs' : List R} {s s' : S} → m rs s ≡ exited rs' s'
    → (m >>= f) rs s ≡ exited rs' s'
>>=-eq-exited m f e = rw (◌>>=◌, e) refl
