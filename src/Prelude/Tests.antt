-- ===== src/Prelude/Tests.antt =====
-- Boolean tests on the native numbers, the conditional, the Option monad and case splits.
use Prim.Native.Nat.{ℕ, ◌≤◌, ◌<◌, compare, Ordering}
use mathlib.Core.Path.{◌≡◌, refl, subst}
use mathlib.Core.Logic.{◌⊎◌, inl, inr}
use mathlib.Core.Bool.{Bool, true, false, ◌&&◌, ◌||◌}
use mathlib.Core.Option.{Option, none, some}
use mathlib.Core.List.{List, [], ◌∷◌}
use native.Mathlib.Omega.{arith}

abbrev pub ltb : ℕ → ℕ → Bool
ltb a b = elim (compare a b) [ Ordering.lt ↦ true | _ ↦ false ]

abbrev pub leb : ℕ → ℕ → Bool
leb a b = elim (compare a b) [ Ordering.gt ↦ false | _ ↦ true ]

infix 50 ◌==◌
abbrev pub ◌==◌ : ℕ → ℕ → Bool
a == b = elim (compare a b) [ Ordering.eq ↦ true | _ ↦ false ]

infix 1 if◌then◌else◌
abbrev pub if◌then◌else◌ {ℓ} : {A : Type ℓ} → Bool → A → A → A
if true then x else y = x
if false then x else y = y

pub Bool-cases : (b : Bool) → (b ≡ true) ⊎ (b ≡ false)
Bool-cases true = inl refl
Bool-cases false = inr refl

pub Option-cases {ℓ} : {A : Type ℓ} (o : Option A) → (o ≡ none) ⊎ ((a : A) × (o ≡ some a))
Option-cases none = inl refl
Option-cases (some a) = inr (a, refl)

-- A run that may panic (an index out of range) or that uses up its fuel is `none`.
infixl 5 ◌>>=◌
abbrev pub ◌>>=◌ {ℓ κ} : {A : Type ℓ} {B : Type κ} → Option A → (A → Option B) → Option B
none >>= f = none
some a >>= f = f a

-- The run ends normally, with a value that satisfies `P`.
pub data Returns {ℓ κ} {A : Type ℓ} (P : A → Type κ) : Option A → Type (ℓ ⊔ κ) where
  returns : {a : A} → P a → Returns P (some a)

-- The rules for a test, a weaker result and a sequence.
pub Returns-if {ℓ κ} :
    {X : Type ℓ} {Q : X → Type κ} {first second : Option X} (test : Bool)
    → (test ≡ true → Returns Q first)
    → (test ≡ false → Returns Q second)
    → Returns Q (if test then first else second)
Returns-if true yes_case no_case = yes_case refl
Returns-if false yes_case no_case = no_case refl

pub Returns-map {ℓ κ μ} :
    {X : Type ℓ} {Q : X → Type κ} {R : X → Type μ} {run : Option X}
    → Returns Q run
    → ((v : X) → Q v → R v)
    → Returns R run
Returns-map (returns q) weaken = returns (weaken _ q)

pub Returns-bind {ℓ κ μ ν} :
    {X : Type ℓ} {Y : Type μ} {Q : X → Type κ} {R : Y → Type ν} {run : Option X}
    {rest : X → Option Y}
    → Returns Q run
    → ((v : X) → Q v → Returns R (rest v))
    → Returns R (run >>= rest)
Returns-bind (returns q) step = step _ q

pub ltb→lt : (a b : ℕ) → ltb a b ≡ true → a < b
ltb→lt a b h = ground arith

pub ltb→ge : (a b : ℕ) → ltb a b ≡ false → b ≤ a
ltb→ge a b h = ground arith

pub lt→ltb : (a b : ℕ) → a < b → ltb a b ≡ true
lt→ltb a b h = ground arith

pub >>=-cong {ℓ κ} :
    {A : Type ℓ} {B : Type κ} (m : Option A) {f g : A → Option B}
    → ((a : A) → f a ≡ g a)
    → (m >>= f) ≡ (m >>= g)
>>=-cong none h = refl
>>=-cong (some a) h = h a

pub >>=_assoc {ℓ κ μ} :
    {A : Type ℓ} {B : Type κ} {C : Type μ} (m : Option A) (f : A → Option B) (g : B → Option C)
    → (m >>= f >>= g) ≡ (m >>= λ a. f a >>= g)
>>=_assoc none f g = refl
>>=_assoc (some a) f g = refl

pub Returns-at {ℓ κ} :
    {A : Type ℓ} {P : A → Type κ} {r : Option A} {a : A} → Returns P r → r ≡ some a → P a
Returns-at {P} {a} (returns {a = b} p) e = let same : b ≡ a = cc in subst P same p

pub and_right : (a b : Bool) → (a && b) ≡ true → b ≡ true
and_right true b h = h
and_right false b h = cc

abbrev pub has_num : ℕ → List ℕ → Bool
has_num n [] = false
has_num n (x ∷ xs) = n == x || has_num n xs
