-- ===== src/Named/Alike.antt =====
-- Lists of records, and maps of them, that differ at most in what a file does not keep.
use godelayq.Prelude.{◌≡◌, sym, subst, ap, ◌∙◌, inl, inr, Option, none, some, String, List, [], ◌∷◌}
use godelayq.Dict
use godelayq.Dict.{Dict}
use godelayq.Named.{Kind, key, take_each}
use godelayq.Named.Agree.{All, Fresh, Apart}

-- Both have nothing, or both something alike.
pub data Both {R : Type 0} (Alike : R → R → Type 0) : Option R → Option R → Type 0 where
  nothing : Both Alike none none
  something : (r q : R) → Alike r q → Both Alike (some r) (some q)

-- The lists are alike, record by record.
pub data Each {R : Type 0} (Alike : R → R → Type 0) : List R → List R → Type 0 where
  ends : Each Alike [] []
  follows : (r q : R) (l l' : List R) → Alike r q → Each Alike l l' → Each Alike (r ∷ l) (q ∷ l')

-- Records that are alike have one name and the check says the same of them.
pub record AlikeLaws {R : Type 0} (kind : Kind R) (Alike : R → R → Type 0) : Type 0 where
  pub one_name : (r q : R) → Alike r q → kind.name q ≡ kind.name r
  pub one_check : (r q : R) → Alike r q → kind.good q ≡ kind.good r

module _ {R : Type 0} (kind : Kind R) (lower : String → String) (Alike : R → R → Type 0)
    (laws : AlikeLaws kind Alike) where
  same_key : (r q : R) → Alike r q → key kind lower q ≡ key kind lower r
  same_key r q a = ap lower (laws.one_name r q a)

  Each-Fresh :
      (k : String) (l l' : List R) → Each Alike l l' → Fresh kind lower k l → Fresh kind lower k l'
  Each-Fresh k _ _ ends fresh = tt
  Each-Fresh k _ _ (follows r q l l' a all) fresh =
      (λ e. fresh.0 (sym (same_key r q a) ∙ e), Each-Fresh k l l' all fresh.1)

  pub Each-Apart : (l l' : List R) → Each Alike l l' → Apart kind lower l → Apart kind lower l'
  Each-Apart _ _ ends apart = tt
  Each-Apart _ _ (follows r q l l' a all) apart = (
    subst (λ k. Fresh kind lower k l') (sym (same_key r q a)) (Each-Fresh _ l l' all apart.0),
    Each-Apart l l' all apart.1,
  )

  insert-Both :
      (r q : R) (m m' : Dict R)
      → Alike r q
      → ((k : String) → Both Alike (Dict.lookup k m) (Dict.lookup k m'))
      → (k : String)
      → Both Alike
          (Dict.lookup k (Dict.insert (key kind lower r) r m))
          (Dict.lookup k (Dict.insert (key kind lower q) q m'))
  insert-Both r q m m' a both k = elim (Dict.insert_cases (key kind lower r) k r m) [
    | inl x ↦ elim (Dict.insert_cases (key kind lower q) k q m') [
      | inl y ↦ rw (x.1, y.1) (something r q a)
      | inr y ↦ absurd (y.0 (same_key r q a ∙ x.0))
    ]
    | inr x ↦ elim (Dict.insert_cases (key kind lower q) k q m') [
      | inl y ↦ absurd (x.0 (sym (same_key r q a) ∙ y.0))
      | inr y ↦ rw (x.1, y.1) (both k)
    ]
  ]

  -- Lists that are alike leave maps that are alike.
  pub take_each-Both :
      (l l' : List R) (m m' : Dict R)
      → Each Alike l l'
      → ((k : String) → Both Alike (Dict.lookup k m) (Dict.lookup k m'))
      → (k : String)
      → Both Alike
          (Dict.lookup k (take_each kind lower l m))
          (Dict.lookup k (take_each kind lower l' m'))
  unfolding take_each
  take_each-Both _ _ m m' ends both k = both k
  take_each-Both _ _ m m' (follows r q l l' a all) both k =
      take_each-Both l l' _ _ all (insert-Both r q m m' a both) k

pub Each-All :
    {R : Type 0} (Alike : R → R → Type 0) (P : R → Type 0) (l l' : List R)
    → ((r q : R) → Alike r q → P r → P q)
    → Each Alike l l'
    → All P l
    → All P l'
Each-All Alike P _ _ keeps ends all = tt
Each-All Alike P _ _ keeps (follows r q l l' a each) all =
    (keeps r q a all.0, Each-All Alike P l l' keeps each all.1)
