-- ===== src/JsonStore/Entries.antt =====
-- Finished jobs, counted and deleted one by one.
use godelayq.Prelude.{
  ℕ, zero, suc, ◌+◌, ◌≡◌, ◌≢◌, refl, sym, ap, ◌∙◌, inl, inr, List, [], ◌∷◌, true, none, some,
  String, arith, if_pos, if_neg, string_discrete, Bool-cases, drop, length,
}
use godelayq.Dict
use godelayq.Dict.{Dict}
use godelayq.Dict.Keys.{Distinct, delete-Distinct}
use godelayq.Job.{JobSnapshot, is_terminal}
use godelayq.JsonStore.{terminals, newer, insert_sorted, sort_newest, delete_all}
use godelayq.JsonStore.Live.{Keyed}

abbrev pub All {ℓ κ} : {A : Type ℓ} → (A → Type κ) → List A → Type κ
All P [] = Unit
All P (x ∷ xs) = P x × All P xs

pub All-drop {ℓ κ} : {A : Type ℓ} (P : A → Type κ) (n : ℕ) (l : List A) → All P l → All P (drop n l)
All-drop P zero l h = h
All-drop P (suc n) [] h = tt
All-drop P (suc n) (x ∷ l) h = All-drop P n l h.1

All-insert {κ} :
    (P : JobSnapshot → Type κ) (x : JobSnapshot) (l : List JobSnapshot)
    → P x
    → All P l
    → All P (insert_sorted x l)
unfolding insert_sorted
All-insert P x [] p h = (p, tt)
All-insert P x (y ∷ l) p h = elim (Bool-cases (newer x y)) [
  | inl first ↦ rw first (p, h)
  | inr later ↦ rw later (h.0, All-insert P x l p h.1)
]

pub All-sort {κ} :
    (P : JobSnapshot → Type κ) (l : List JobSnapshot) → All P l → All P (sort_newest l)
unfolding sort_newest
All-sort P [] h = tt
All-sort P (x ∷ l) h = All-insert P x (sort_newest l) h.0 (All-sort P l h.1)

-- No two jobs of the list have the same id.
abbrev pub Unique : List JobSnapshot → Type 0
Unique [] = Unit {0}
Unique (s ∷ l) = All (λ t. t.id ≢ s.id) l × Unique l

Unique-insert :
    (x : JobSnapshot) (l : List JobSnapshot)
    → All (λ t. t.id ≢ x.id) l
    → Unique l
    → Unique (insert_sorted x l)
unfolding insert_sorted
Unique-insert x [] h u = (tt, tt)
Unique-insert x (y ∷ l) h u = elim (Bool-cases (newer x y)) [
  | inl first ↦ rw first (h, u)
  | inr later ↦
      rw later (All-insert (λ t. t.id ≢ y.id) x l (λ e. h.0 (sym e)) u.0, Unique-insert x l h.1 u.1)
]

pub Unique-sort : (l : List JobSnapshot) → Unique l → Unique (sort_newest l)
unfolding sort_newest
Unique-sort [] u = tt
Unique-sort (x ∷ l) u =
    Unique-insert x (sort_newest l) (All-sort (λ t. t.id ≢ x.id) l u.0) (Unique-sort l u.1)

pub Unique-drop : (n : ℕ) (l : List JobSnapshot) → Unique l → Unique (drop n l)
Unique-drop zero l u = u
Unique-drop (suc n) [] u = tt
Unique-drop (suc n) (x ∷ l) u = Unique-drop n l u.1

length-insert :
    (x : JobSnapshot) (l : List JobSnapshot) → length (insert_sorted x l) ≡ suc (length l)
unfolding insert_sorted
length-insert x [] = refl
length-insert x (y ∷ l) = ground (arith, length-insert x l)

pub length-sort : (l : List JobSnapshot) → length (sort_newest l) ≡ length l
unfolding sort_newest
length-sort [] = refl
length-sort (x ∷ l) = length-insert x (sort_newest l) ∙ ap suc (length-sort l)

-- The job stands in the map under its id, and is finished.
abbrev pub Finished : Dict JobSnapshot → JobSnapshot → Type 0
Finished m s = (Dict.lookup s.id m ≡ some s) × (is_terminal s.status ≡ true)

terminals_fresh :
    (k : String) (m : Dict JobSnapshot)
    → Dict.lookup k m ≡ none
    → Keyed m
    → All (λ t. t.id ≢ k) (terminals m)
unfolding terminals Dict.lookup
terminals_fresh k [] e h = tt
terminals_fresh k ((j, s) ∷ m) e h = elim (string_discrete j k) [
  | yes same ↦ let e1 = rw (if_pos (string_discrete j k) same) at e in absurd (cc)
  | no other ↦
      let ih = terminals_fresh k m (rw (if_neg (string_discrete j k) other) at e) h.1 in
      elim (Bool-cases (is_terminal s.status)) [
        | inl t ↦ rw t (λ q. other (sym h.0 ∙ q), ih)
        | inr t ↦ rw t ih
      ]
]

pub terminals-Unique : (m : Dict JobSnapshot) → Distinct m → Keyed m → Unique (terminals m)
unfolding terminals
terminals-Unique [] d h = tt
terminals-Unique ((j, s) ∷ m) d h = elim (Bool-cases (is_terminal s.status)) [
  | inl t ↦ rw t (rw (h.0) (terminals_fresh j m d.0 h.1), terminals-Unique m d.1 h.1)
  | inr t ↦ rw t (terminals-Unique m d.1 h.1)
]

pub terminals-Finished :
    (m : Dict JobSnapshot) → Distinct m → Keyed m → All (Finished m) (terminals m)
unfolding terminals Dict.lookup
terminals-Finished [] d h = tt
terminals-Finished ((j, s) ∷ m) d h =
    let ih = terminals-Finished m d.1 h.1 in
    let fresh = terminals_fresh j m d.0 h.1 in
    let rest = both (terminals m) ih fresh in
    elim (Bool-cases (is_terminal s.status)) [
      | inl t ↦ rw t ((if_pos (string_discrete j s.id) (sym h.0) _ _, t), rest)
      | inr t ↦ rw t rest
    ]
  where
    both :
        (l : List JobSnapshot)
        → All (Finished m) l
        → All (λ t. t.id ≢ j) l
        → All (Finished ((j, s) ∷ m)) l
    both [] a b = tt
    both (x ∷ l) a b =
        ((if_neg (string_discrete j x.id) (λ e. b.0 (sym e)) _ _ ∙ a.0.0, a.0.1), both l a.1 b.1)

delete_absent : (k : String) (m : Dict JobSnapshot) → Dict.lookup k m ≡ none → Dict.delete k m ≡ m
unfolding Dict.lookup Dict.delete
delete_absent k [] e = refl
delete_absent k ((j, s) ∷ m) e = elim (string_discrete j k) [
  | yes same ↦ let e1 = rw (if_pos (string_discrete j k) same) at e in absurd (cc)
  | no other ↦
      rw (if_neg (string_discrete j k) other)
        (ap (λ r. (j, s) ∷ r) (delete_absent k m (rw (if_neg (string_discrete j k) other) at e)))
]

length-delete :
    (k : String) (s : JobSnapshot) (m : Dict JobSnapshot)
    → Distinct m
    → Dict.lookup k m ≡ some s
    → is_terminal s.status ≡ true
    → suc (length (terminals (Dict.delete k m))) ≡ length (terminals m)
unfolding terminals Dict.lookup Dict.delete
length-delete k s [] d e t = absurd (cc)
length-delete k s ((j, u) ∷ m) d e t = elim (string_discrete j k) [
  | yes same ↦
      let e1 = rw (if_pos (string_discrete j k) same) at e in
      let u_is : u ≡ s = cc in
      let gone : Dict.lookup k m ≡ none = ap (λ x. Dict.lookup x m) (sym same) ∙ d.0 in
      rw
        (if_pos (string_discrete j k) same, ap (λ (x : JobSnapshot). is_terminal x.status) u_is ∙ t)
        (ap (λ r. suc (length (terminals r))) (delete_absent k m gone))
  | no other ↦
      let ih = length-delete k s m d.1 (rw (if_neg (string_discrete j k) other) at e) t in
      rw (if_neg (string_discrete j k) other)
        (elim (Bool-cases (is_terminal u.status)) [ inl f ↦ rw f (ap suc ih) | inr f ↦ rw f ih ])
]

pub delete_all_count :
    (l : List JobSnapshot) (m : Dict JobSnapshot)
    → Distinct m
    → Unique l
    → All (Finished m) l
    → length (terminals (delete_all l m)) + length l ≡ length (terminals m)
unfolding delete_all
delete_all_count [] m d u a = omega arith
delete_all_count (s ∷ l) m d u a = omega (
  arith,
  length-delete s.id s m d a.0.0 a.0.1,
  delete_all_count l (Dict.delete s.id m) (delete-Distinct s.id m d) u.1 (still l u.0 a.1),
)
  where
    still :
        (l : List JobSnapshot)
        → All (λ t. t.id ≢ s.id) l
        → All (Finished m) l
        → All (Finished (Dict.delete s.id m)) l
    still [] b c = tt
    still (x ∷ l) b c = (
      (
        Dict.lookup-delete s.id x.id m
            ∙ if_neg (string_discrete s.id x.id) (λ e. b.0 (sym e)) _ _
            ∙ c.0.0,
        c.0.1,
      ),
      still l b.1 c.1,
    )
