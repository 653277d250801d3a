-- ===== src/JsonStore/Sorted.antt =====
-- The sort of the finished jobs, the latest first, and what a cut of it separates.
use godelayq.Prelude.{
  ℕ, zero, suc, ◌≤◌, ◌≡◌, refl, ap, ◌∙◌, ◌⊎◌, inl, inr, List, [], ◌∷◌, true, false, some, String,
  arith, if_pos, if_neg, string_discrete, Bool-cases, drop, take, subst,
}
use godelayq.Dict
use godelayq.Dict.{Dict}
use godelayq.Job.{JobSnapshot, is_terminal}
use godelayq.JsonStore.{terminals, newer, insert_sorted, sort_newest}
use godelayq.JsonStore.Entries.{All}

pub data In (x : JobSnapshot) : List JobSnapshot → Type 0 where
  here : {y : JobSnapshot} {l : List JobSnapshot} → y ≡ x → In x (y ∷ l)
  there : {y : JobSnapshot} {l : List JobSnapshot} → In x l → In x (y ∷ l)

abbrev pub Descending : List JobSnapshot → Type 0
Descending [] = Unit {0}
Descending (s ∷ l) = All (λ t. t.updated_at ≤ s.updated_at) l × Descending l

All-le :
    (a b : ℕ) (l : List JobSnapshot)
    → a ≤ b
    → All (λ t. t.updated_at ≤ a) l
    → All (λ t. t.updated_at ≤ b) l
All-le a b [] p h = tt
All-le a b (x ∷ l) p h = (omega (arith, h.0), All-le a b l p h.1)

All-insert_le :
    (b : ℕ) (x : JobSnapshot) (l : List JobSnapshot)
    → x.updated_at ≤ b
    → All (λ t. t.updated_at ≤ b) l
    → All (λ t. t.updated_at ≤ b) (insert_sorted x l)
unfolding insert_sorted
All-insert_le b x [] p h = (p, tt)
All-insert_le b x (y ∷ l) p h = elim (Bool-cases (newer x y)) [
  | inl first ↦ rw first (p, h)
  | inr later ↦ rw later (h.0, All-insert_le b x l p h.1)
]

newer-ge : (a b : JobSnapshot) → newer a b ≡ true → b.updated_at ≤ a.updated_at
unfolding newer
newer-ge a b h = ground arith

not_newer : (a b : JobSnapshot) → newer a b ≡ false → a.updated_at ≤ b.updated_at
unfolding newer
not_newer a b h = ground arith

insert-Descending :
    (x : JobSnapshot) (l : List JobSnapshot) → Descending l → Descending (insert_sorted x l)
unfolding insert_sorted
insert-Descending x [] d = (tt, tt)
insert-Descending x (y ∷ l) d = elim (Bool-cases (newer x y)) [
  | inl first ↦
      let p = newer-ge x y first in rw first ((p, All-le y.updated_at x.updated_at l p d.0), d)
  | inr later ↦
      rw later (All-insert_le y.updated_at x l (not_newer x y later) d.0, insert-Descending x l d.1)
]

pub sort-Descending : (l : List JobSnapshot) → Descending (sort_newest l)
unfolding sort_newest
sort-Descending [] = tt
sort-Descending (x ∷ l) = insert-Descending x (sort_newest l) (sort-Descending l)

In-insert_self : (x : JobSnapshot) (l : List JobSnapshot) → In x (insert_sorted x l)
unfolding insert_sorted
In-insert_self x [] = here refl
In-insert_self x (y ∷ l) = elim (Bool-cases (newer x y)) [
  | inl first ↦ rw first (here refl)
  | inr later ↦ rw later (there (In-insert_self x l))
]

In-insert :
    {z : JobSnapshot} (x : JobSnapshot) (l : List JobSnapshot) → In z l → In z (insert_sorted x l)
unfolding insert_sorted
In-insert x [] i = elim i [ ]
In-insert x (y ∷ l) (here e) = elim (Bool-cases (newer x y)) [
  | inl first ↦ rw first (there (here e))
  | inr later ↦ rw later (here e)
]
In-insert x (y ∷ l) (there i) = elim (Bool-cases (newer x y)) [
  | inl first ↦ rw first (there (there i))
  | inr later ↦ rw later (there (In-insert x l i))
]

pub In-sort : {z : JobSnapshot} (l : List JobSnapshot) → In z l → In z (sort_newest l)
unfolding sort_newest
In-sort [] i = elim i [ ]
In-sort (x ∷ l) (here e) =
    subst (λ w. In w (insert_sorted x (sort_newest l))) e (In-insert_self x (sort_newest l))
In-sort (x ∷ l) (there i) = In-insert x (sort_newest l) (In-sort l i)

pub In-terminals :
    (k : String) (s : JobSnapshot) (m : Dict JobSnapshot)
    → Dict.lookup k m ≡ some s
    → is_terminal s.status ≡ true
    → In s (terminals m)
unfolding terminals Dict.lookup
In-terminals k s [] e t = absurd (cc)
In-terminals k s ((j, u) ∷ m) e t = elim (string_discrete j k) [
  | yes same ↦
      let e1 = rw (if_pos (string_discrete j k) same) at e in
      let u_is : u ≡ s = cc in
      rw (ap (λ (x : JobSnapshot). is_terminal x.status) u_is ∙ t) (here u_is)
  | no other ↦
      let ih = In-terminals k s m (rw (if_neg (string_discrete j k) other) at e) t in
      elim (Bool-cases (is_terminal u.status)) [ inl f ↦ rw f (there ih) | inr f ↦ rw f ih ]
]

pub In-split :
    {z : JobSnapshot} (n : ℕ) (l : List JobSnapshot) → In z l → In z (take n l) ⊎ In z (drop n l)
In-split zero l i = inr i
In-split (suc n) [] i = elim i [ ]
In-split (suc n) (x ∷ l) (here e) = inl (here e)
In-split (suc n) (x ∷ l) (there i) = elim (In-split n l i) [ inl a ↦ inl (there a) | inr b ↦ inr b ]

All-In :
    {z : JobSnapshot} (b : ℕ) (l : List JobSnapshot)
    → All (λ t. t.updated_at ≤ b) l
    → In z l
    → z.updated_at ≤ b
All-In b [] h i = elim i [ ]
All-In b (x ∷ l) h (here e) = subst (λ (w : JobSnapshot). w.updated_at ≤ b) e h.0
All-In b (x ∷ l) h (there i) = All-In b l h.1 i

In-drop : {z : JobSnapshot} (n : ℕ) (l : List JobSnapshot) → In z (drop n l) → In z l
In-drop zero l i = i
In-drop (suc n) [] i = i
In-drop (suc n) (x ∷ l) i = there (In-drop n l i)

-- Whatever is dropped is as old as whatever is kept, or older.
pub Descending-cut :
    {a b : JobSnapshot} (n : ℕ) (l : List JobSnapshot)
    → Descending l
    → In a (take n l)
    → In b (drop n l)
    → b.updated_at ≤ a.updated_at
Descending-cut zero l d i j = elim i [ ]
Descending-cut (suc n) [] d i j = elim i [ ]
Descending-cut {b} (suc n) (x ∷ l) d (here e) i =
    subst (λ (w : JobSnapshot). b.updated_at ≤ w.updated_at) e
      (All-In x.updated_at l d.0 (In-drop n l i))
Descending-cut (suc n) (x ∷ l) d (there j) i = Descending-cut n l d.1 j i
