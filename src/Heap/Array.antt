-- ===== src/Heap/Array.antt =====
-- Lists as arrays of items: what stands at an index, after a write, a swap, an append, a cut.
use mathlib.Core.List.Perm
use godelayq.Prelude.{
  ℕ, zero, suc, ◌<◌, ◌≡◌, refl, ap, List, [], ◌∷◌, ◌++◌, some, Perm, arith, ◌==◌, if◌then◌else◌,
  length, get_elem?, set, take, perm-snoc, subst,
}

-- `f` of the item at an index, `d` out of range.
abbrev pub at {ℓ κ} : {A : Type ℓ} {B : Type κ} → (A → B) → B → List A → ℕ → B
at f d [] i = d
at f d (x ∷ a) zero = f x
at f d (x ∷ a) (suc i) = at f d a i

module _ {ℓ} {A : Type ℓ} where
  pub get_elem?-in : (a : List A) (i : ℕ) → i < length a → (x : A) × (get_elem? a i ≡ some x)
  get_elem?-in [] i h = absurd (omega arith)
  get_elem?-in (x ∷ a) zero h = (x, refl)
  get_elem?-in (x ∷ a) (suc i) h = get_elem?-in a i (omega arith)

  pub get_elem?-lt : (a : List A) (i : ℕ) {x : A} → get_elem? a i ≡ some x → i < length a
  get_elem?-lt [] i h = cc
  get_elem?-lt (y ∷ a) zero h = omega arith
  get_elem?-lt (y ∷ a) (suc i) h = omega (arith, get_elem?-lt a i h)

  pub get_elem?-set :
      (old : List A) (i j : ℕ) (v : A)
      → i < length old
      → get_elem? (set old i v) j ≡ (if i == j then some v else get_elem? old j)
  get_elem?-set [] i j v h = absurd (omega arith)
  get_elem?-set (w ∷ ws) zero zero v h = refl
  get_elem?-set (w ∷ ws) zero (suc j) v h = ground arith
  get_elem?-set (w ∷ ws) (suc i) zero v h = ground arith
  get_elem?-set (w ∷ ws) (suc i) (suc j) v h = ground (arith, get_elem?-set ws i j v)

  -- The items left by a removal at `i`, with the item in front, are the items.
  pub without : List A → ℕ → List A
  without [] i = []
  without (x ∷ a) zero = a
  without (x ∷ a) (suc i) = x ∷ without a i

  pub perm-without :
      (a : List A) (i : ℕ) {x : A} → get_elem? a i ≡ some x → Perm a (x ∷ without a i)
  unfolding without
  perm-without [] i h = absurd (cc)
  perm-without (y ∷ a) zero h = subst (λ z. Perm (y ∷ a) (z ∷ a)) (cc) (Perm.refl (y ∷ a))
  perm-without (y ∷ a) (suc i) {x} h =
      Perm.trans (Perm.cons y (perm-without a i h)) (Perm.swap x y (without a i))

  -- A write replaces the item that it finds.
  pub set-perm :
      (a : List A) (i : ℕ) (v : A) {x : A} → get_elem? a i ≡ some x → Perm (x ∷ set a i v) (v ∷ a)
  set-perm [] i v h = absurd (cc)
  set-perm (y ∷ a) zero v {x} h = subst (λ z. Perm (x ∷ v ∷ a) (v ∷ z ∷ a)) (cc) (Perm.swap v x a)
  set-perm (y ∷ a) (suc i) v {x} h =
      Perm.trans (Perm.swap y x (set a i v))
        (Perm.trans (Perm.cons y (set-perm a i v h)) (Perm.swap v y a))

  pub swap-perm :
      (a : List A) (i j : ℕ) {x y : A}
      → get_elem? a i ≡ some x
      → get_elem? a j ≡ some y
      → Perm (set (set a i y) j x) a
  swap-perm a i j {x} {y} p q =
      let moved : get_elem? (set a i y) j ≡ some y =
        ground (arith, get_elem?-set a i j y (get_elem?-lt a i p)) in
      Perm.cons_inv (Perm.trans (set-perm (set a i y) j x moved) (set-perm a i y p))

  pub take-append_last :
      (n : ℕ) (a : List A) {x : A}
      → length a ≡ suc n
      → get_elem? a n ≡ some x
      → take n a ++ x ∷ [] ≡ a
  take-append_last n [] h e = absurd (omega arith)
  take-append_last zero (y ∷ []) h e = cc
  take-append_last zero (y ∷ z ∷ a) h e = absurd (omega arith)
  take-append_last (suc n) (y ∷ a) h e = ap (◌∷◌ y) (take-append_last n a (omega arith) e)

  pub take-perm :
      (n : ℕ) (a : List A) {x : A}
      → length a ≡ suc n
      → get_elem? a n ≡ some x
      → Perm (x ∷ take n a) a
  take-perm n a {x} h e =
      subst (Perm (x ∷ take n a)) (take-append_last n a h e) (Perm.symm (perm-snoc (take n a) x))

module _ {ℓ κ} {A : Type ℓ} {B : Type κ} (f : A → B) (d : B) where
  pub at-get_elem? : (a : List A) (i : ℕ) {x : A} → get_elem? a i ≡ some x → at f d a i ≡ f x
  at-get_elem? [] i h = cc
  at-get_elem? (y ∷ a) zero h = cc
  at-get_elem? (y ∷ a) (suc i) h = at-get_elem? a i h

  pub at-set :
      (old : List A) (i j : ℕ) (v : A)
      → i < length old
      → at f d (set old i v) j ≡ (if i == j then f v else at f d old j)
  at-set [] i j v h = absurd (omega arith)
  at-set (w ∷ ws) zero zero v h = refl
  at-set (w ∷ ws) zero (suc j) v h = ground arith
  at-set (w ∷ ws) (suc i) zero v h = ground arith
  at-set (w ∷ ws) (suc i) (suc j) v h = ground (arith, at-set ws i j v)

  pub at-append :
      (front back : List A) (k : ℕ) → k < length front → at f d (front ++ back) k ≡ at f d front k
  at-append [] back k h = absurd (omega arith)
  at-append (w ∷ ws) back zero h = refl
  at-append (w ∷ ws) back (suc k) h = at-append ws back k (omega arith)

  pub at-append_end : (a : List A) (x : A) → at f d (a ++ x ∷ []) (length a) ≡ f x
  at-append_end [] x = refl
  at-append_end (y ∷ a) x = at-append_end a x

  pub at-take : (n : ℕ) (a : List A) (i : ℕ) → i < n → at f d (take n a) i ≡ at f d a i
  at-take zero a i h = absurd (omega arith)
  at-take (suc n) [] i h = refl
  at-take (suc n) (x ∷ a) zero h = refl
  at-take (suc n) (x ∷ a) (suc i) h = at-take n a i (omega arith)
