-- ===== src/Named/Agree.antt =====
-- The loops of the load over the sorted records: what they leave under each key.
use godelayq.Prelude.{
  ◌≡◌, ◌≢◌, refl, sym, subst, ◌∙◌, inl, inr, Bool, true, none, some, String, List, [], ◌∷◌, ite,
  if_pos, if_neg, string_discrete, Bool-cases,
}
use godelayq.Dict
use godelayq.Dict.{Dict}
use godelayq.JsonStore.{str_before}
use godelayq.Named.{Kind, key, insert_named, sort_named, take_each, take_checked}

-- The maps have the same under each key.
abbrev pub Agree {ℓ} : {V : Type ℓ} → Dict V → Dict V → Type ℓ
Agree m m' = (k : String) → Dict.lookup k m ≡ Dict.lookup k m'

module _ {ℓ} {V : Type ℓ} where
  insert-Agree :
      (k : String) (v : V) (m m' : Dict V)
      → Agree m m'
      → Agree (Dict.insert k v m) (Dict.insert k v m')
  insert-Agree k v m m' same j = elim (Dict.insert_cases k j v m) [
    | inl p ↦
        p.1
        ∙ sym (
            subst (λ i. Dict.lookup i (Dict.insert k v m') ≡ some v) p.0
              (Dict.lookup-insert_self k v m'))
    | inr p ↦ elim (Dict.insert_cases k j v m') [
      | inl q ↦ absurd (p.0 q.0)
      | inr q ↦ p.1 ∙ same j ∙ sym q.1
    ]
  ]

  insert_swap :
      (k j : String) (v w : V) (m : Dict V)
      → k ≢ j
      → Agree (Dict.insert k v (Dict.insert j w m)) (Dict.insert j w (Dict.insert k v m))
  insert_swap k j v w m apart i =
      Dict.lookup-insert k i v (Dict.insert j w m)
      ∙ go (string_discrete k i) (string_discrete j i)
      ∙ sym (Dict.lookup-insert j i w (Dict.insert k v m))
    where
      go :
          (dk : Dec (k ≡ i)) (dj : Dec (j ≡ i))
          → ite dk (some v) (Dict.lookup i (Dict.insert j w m))
            ≡ ite dj (some w) (Dict.lookup i (Dict.insert k v m))
      go (yes p) (yes q) = absurd (apart (p ∙ sym q))
      go (yes p) (no q) = sym (Dict.lookup-insert k i v m ∙ if_pos (string_discrete k i) p _ _)
      go (no p) (yes q) = Dict.lookup-insert j i w m ∙ if_pos (string_discrete j i) q _ _
      go (no p) (no q) =
          (Dict.lookup-insert j i w m ∙ if_neg (string_discrete j i) q _ _)
          ∙ sym (Dict.lookup-insert k i v m ∙ if_neg (string_discrete k i) p _ _)

abbrev pub All {ℓ κ} : {A : Type ℓ} → (A → Type κ) → List A → Type κ
All P [] = Unit
All P (x ∷ l) = P x × All P l

All-zip {ℓ κ} :
    {A : Type ℓ} {P Q T : A → Type κ} (l : List A)
    → ((x : A) → P x → Q x → T x)
    → All P l
    → All Q l
    → All T l
All-zip [] both p q = tt
All-zip (x ∷ l) both p q = (both x p.0 q.0, All-zip l both p.1 q.1)

module _ {R : Type 0} (kind : Kind R) (lower : String → String) where
  All-insert_named {κ} :
      (P : R → Type κ) (r : R) (l : List R) → P r → All P l → All P (insert_named kind lower r l)
  unfolding insert_named
  All-insert_named P r [] p all = (p, tt)
  All-insert_named P r (q ∷ l) p all =
      elim (Bool-cases (str_before (key kind lower q) (key kind lower r))) [
        | inl before ↦ rw before (all.0, All-insert_named P r l p all.1)
        | inr after ↦ rw after (p, all)
      ]

  pub All-sort_named {κ} : (P : R → Type κ) (l : List R) → All P l → All P (sort_named kind lower l)
  unfolding sort_named
  All-sort_named P [] all = tt
  All-sort_named P (r ∷ l) all =
      All-insert_named P r (sort_named kind lower l) all.0 (All-sort_named P l all.1)

  -- No record of the list has the key.
  abbrev pub Fresh : String → List R → Type 0
  Fresh k l = All (λ q. key kind lower q ≢ k) l

  -- The keys of the records are all different.
  abbrev pub Apart : List R → Type 0
  Apart [] = Unit
  Apart (r ∷ l) = Fresh (key kind lower r) l × Apart l

  insert_named-Apart :
      (r : R) (l : List R)
      → Fresh (key kind lower r) l
      → Apart l
      → Apart (insert_named kind lower r l)
  unfolding insert_named
  insert_named-Apart r [] fresh apart = (tt, tt)
  insert_named-Apart r (q ∷ l) fresh apart =
      elim (Bool-cases (str_before (key kind lower q) (key kind lower r))) [
        | inl before ↦ rw before (
          All-insert_named (λ x. key kind lower x ≢ key kind lower q) r l (λ e. fresh.0 (sym e))
              apart.0,
          insert_named-Apart r l fresh.1 apart.1,
        )
        | inr after ↦ rw after (fresh, apart)
      ]

  pub sort_named-Apart : (l : List R) → Apart l → Apart (sort_named kind lower l)
  unfolding sort_named
  sort_named-Apart [] apart = tt
  sort_named-Apart (r ∷ l) apart =
      insert_named-Apart r (sort_named kind lower l)
        (All-sort_named (λ x. key kind lower x ≢ key kind lower r) l apart.0)
        (sort_named-Apart l apart.1)

  take_each-Agree :
      (l : List R) (m m' : Dict R)
      → Agree m m'
      → Agree (take_each kind lower l m) (take_each kind lower l m')
  unfolding take_each
  take_each-Agree [] m m' same = same
  take_each-Agree (r ∷ l) m m' same = take_each-Agree l _ _ (insert-Agree _ r m m' same)

  take_each-insert_named :
      (r : R) (l : List R) (m : Dict R)
      → Fresh (key kind lower r) l
      → Agree
          (take_each kind lower (insert_named kind lower r l) m)
          (take_each kind lower (r ∷ l) m)
  unfolding take_each insert_named
  take_each-insert_named r [] m fresh k = refl
  take_each-insert_named r (q ∷ l) m fresh k =
      elim (Bool-cases (str_before (key kind lower q) (key kind lower r))) [
        | inl before ↦ rw before (
            take_each-insert_named r l (Dict.insert (key kind lower q) q m) fresh.1 k
            ∙ take_each-Agree l _ _
                (insert_swap (key kind lower r) (key kind lower q) r q m (λ e. fresh.0 (sym e))) k)
        | inr after ↦ rw after refl
      ]

  pub take_each-sort_named :
      (l : List R) (m : Dict R)
      → Apart l
      → Agree (take_each kind lower (sort_named kind lower l) m) (take_each kind lower l m)
  unfolding take_each sort_named
  take_each-sort_named [] m apart k = refl
  take_each-sort_named (r ∷ l) m apart k =
      take_each-insert_named r (sort_named kind lower l) m
        (All-sort_named (λ x. key kind lower x ≢ key kind lower r) l apart.0) k
      ∙ take_each-sort_named l (Dict.insert (key kind lower r) r m) apart.1 k

  -- The loop that checks takes good records of different keys as the other loop does.
  pub take_checked_lem :
      (l : List R) (seen : Dict Bool) (m : Dict R)
      → Apart l
      → All (λ r. kind.good r ≡ true) l
      → All (λ r. Dict.lookup (key kind lower r) seen ≡ none) l
      → take_checked kind lower l seen m ≡ some (take_each kind lower l m)
  unfolding take_checked take_each
  take_checked_lem [] seen m apart good unseen = refl
  take_checked_lem (r ∷ l) seen m apart good unseen =
      rw (good.0, unseen.0, take_checked)
        (take_checked_lem l (Dict.insert (key kind lower r) true seen)
          (Dict.insert (key kind lower r) r m) apart.1 good.1
          (All-zip l
            (λ q fresh old.
              elim (Dict.insert_cases (key kind lower r) (key kind lower q) true seen) [
                | inl p ↦ absurd (fresh (sym p.0))
                | inr p ↦ p.1 ∙ old
              ])
            apart.0 unseen.1))
