-- ===== src/Heap/Best.antt =====
-- The visitors of HasDue and PopIfDueWhere over a list of indices.
use mathlib.Core.List.Memᴰ
use godelayq.Prelude.{
  ℕ, ◌≤◌, ◌<◌, ◌≡◌, refl, subst, ◌∙◌, sym, ap, ◌⊎◌, inl, inr, List, [], ◌∷◌, Option, none, some,
  Memᴰ, arith, Bool, true, false, not, ltb, length, get_elem?, Returns, returns, Returns-map,
  Returns-if, Returns-bind, Bool-cases,
}
use godelayq.Heap.{Item, earlier, visit_best}
use godelayq.Heap.Array.{get_elem?-in}
use godelayq.Heap.Due.{fold_visits}

-- The visitor of HasDue reports any visit.
pub fold_found :
    (i : ℕ) (l : List ℕ) (b : Bool) → fold_visits (λ _ _. some true) (i ∷ l) b ≡ some true
fold_found i [] b = refl
fold_found i (j ∷ l) b = fold_found j l true

earlier_from :
    (i t : ℕ) (best : Option (ℕ × ℕ)) {j u : ℕ}
    → earlier i t best ≡ some (j, u)
    → (best ≡ some (j, u)) ⊎ ((j ≡ i) × (u ≡ t))
unfolding earlier
earlier_from i t none e = ground arith
earlier_from i t (some (b, k)) e = ground arith

-- The later choice is no later in time.
abbrev Improves : Option (ℕ × ℕ) → ℕ → Type 0
Improves out t = (j : ℕ) × (u : ℕ) × (out ≡ some (j, u)) × (u ≤ t)

earlier-Improves :
    (i t : ℕ) (best : Option (ℕ × ℕ)) {j u : ℕ} → best ≡ some (j, u) → Improves (earlier i t best) u
unfolding earlier
earlier-Improves i t none e = absurd (cc)
earlier-Improves i t (some (b, k)) e = elim (Bool-cases (ltb t k)) [
  | inl p ↦ (i, t, rw p, ground arith)
  | inr p ↦ (b, k, rw p, ground arith)
]

earlier_self : (i t : ℕ) (best : Option (ℕ × ℕ)) → Improves (earlier i t best) t
unfolding earlier
earlier_self i t none = (i, t, refl, omega arith)
earlier_self i t (some (b, k)) = elim (Bool-cases (ltb t k)) [
  | inl p ↦ (i, t, rw p, omega arith)
  | inr p ↦ (b, k, rw p, ground arith)
]

module _ {ℓ} {A : Type ℓ} ⦃item : Item A⦄ (a : List A) (allow : A → Bool) where
  -- An allowed item at `i` with its due time.
  abbrev pub Candidate : ℕ → ℕ → Type ℓ
  Candidate i t = (x : A) × (get_elem? a i ≡ some x) × (allow x ≡ true) × (item.trigger_time x ≡ t)

  -- `out` is the earliest of `best` and of the allowed items at the indices `l`.
  pub record Best (l : List ℕ) (best out : Option (ℕ × ℕ)) : Type ℓ where
    pub from : (i t : ℕ) → out ≡ some (i, t) → (best ≡ some (i, t)) ⊎ (Memᴰ i l × Candidate i t)
    pub beats_start :
        (i t : ℕ) → best ≡ some (i, t) → (j : ℕ) × (u : ℕ) × (out ≡ some (j, u)) × (u ≤ t)
    pub beats :
        (i t : ℕ) → Memᴰ i l → Candidate i t → (j : ℕ) × (u : ℕ) × (out ≡ some (j, u)) × (u ≤ t)

  Best-then :
      (i : ℕ) (l : List ℕ) (best mid out : Option (ℕ × ℕ))
      → Best (i ∷ []) best mid
      → Best l mid out
      → Best (i ∷ l) best out
  Best-then i l best mid out v w = record {
    from = λ j t e. elim (w.from j t e) [
      | inl m ↦ elim (v.from j t m) [
        | inl b ↦ inl b
        | inr c ↦ inr (Memᴰ.head (Memᴰ.eq_of_singleton c.0), c.1)
      ]
      | inr c ↦ inr (Memᴰ.tail c.0, c.1)
    ];
    beats_start = λ j t e.
        let (j', u, e', p) = v.beats_start j t e in
        let (j'', u', e'', p') = w.beats_start j' u e' in (j'', u', e'', omega arith);
    beats = λ j t m c. elim (Memᴰ.cases_cons m) [
      | inl e ↦
          let (j', u, e', p) = v.beats j t (Memᴰ.head e) c in
          let (j'', u', e'', p') = w.beats_start j' u e' in (j'', u', e'', omega arith)
      | inr m' ↦ w.beats j t m' c
    ];
  }

  skip_Best :
      (i : ℕ) (best : Option (ℕ × ℕ)) (x : A)
      → get_elem? a i ≡ some x
      → allow x ≡ false
      → Best (i ∷ []) best best
  skip_Best i best x ex off = record {
    from = λ j t e. inl e;
    beats_start = λ j t e. (j, t, e, omega arith);
    beats = λ j t m (y, ey, on, _). absurd (disagree j y (Memᴰ.eq_of_singleton m) ey on);
  }
    where
      disagree : (j : ℕ) (y : A) → j ≡ i → get_elem? a j ≡ some y → allow y ≡ true → ⊥
      disagree j y e ey on = cc

  take_Best :
      (i : ℕ) (best : Option (ℕ × ℕ)) (x : A)
      → get_elem? a i ≡ some x
      → allow x ≡ true
      → Best (i ∷ []) best (earlier i (item.trigger_time x) best)
  take_Best i best x ex on = record {
    from = λ j t e. elim (earlier_from i (item.trigger_time x) best e) [
      | inl b ↦ inl b
      | inr p ↦ inr (Memᴰ.head p.0, (x, ap (get_elem? a) p.0 ∙ ex, on, sym p.1))
    ];
    beats_start = λ j t e. earlier-Improves i (item.trigger_time x) best e;
    beats = λ j t m (y, ey, _, ty).
        let (k, u, e, p) = earlier_self i (item.trigger_time x) best in
        (k, u, e, subst (λ z. u ≤ z) (same_time j t y (Memᴰ.eq_of_singleton m) ey ty) p);
  }
    where
      same_time :
          (j t : ℕ) (y : A)
          → j ≡ i
          → get_elem? a j ≡ some y
          → item.trigger_time y ≡ t
          → item.trigger_time x ≡ t
      same_time j t y e ey ty = cc

  visit_Best :
      (i : ℕ) (best : Option (ℕ × ℕ))
      → i < length a
      → Returns (Best (i ∷ []) best) (visit_best a allow i best)
  unfolding visit_best
  visit_Best i best p =
      let (x, ex) = get_elem?-in a i p in
      rw ex (
        Returns-if (not (allow x)) (λ refused. returns (skip_Best i best x ex (ground arith)))
          (λ allowed. returns (take_Best i best x ex (ground arith))))

  pub fold_Best :
      (l : List ℕ) (best : Option (ℕ × ℕ))
      → ((i : ℕ) → Memᴰ i l → i < length a)
      → Returns (Best l best) (fold_visits (visit_best a allow) l best)
  fold_Best [] best h = returns (record {
    from = λ i t e. inl e;
    beats_start = λ i t e. (i, t, e, omega arith);
    beats = λ i t m c. absurd (Memᴰ.not-nil m);
  })
  fold_Best (i ∷ l) best h = Returns-bind (visit_Best i best (h i (Memᴰ.head refl))) λ mid v.
      Returns-map (fold_Best l mid (λ j m. h j (Memᴰ.tail m)))
        λ out w. Best-then i l best mid out v w
