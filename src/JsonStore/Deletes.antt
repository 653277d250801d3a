-- ===== src/JsonStore/Deletes.antt =====
-- What a list of deletions leaves in the map.
use godelayq.Prelude.{
  ◌≡◌, ◌≢◌, refl, sym, ap, ◌∙◌, ◌⊎◌, inl, inr, List, [], ◌∷◌, none, some, String, if_pos, if_neg,
  string_discrete,
}
use godelayq.Dict
use godelayq.Dict.{Dict}
use godelayq.Dict.Keys.{Distinct, delete-Distinct}
use godelayq.Job.{JobSnapshot}
use godelayq.JsonStore.{delete_all}
use godelayq.JsonStore.Live.{Keyed, delete-Keyed}
use godelayq.JsonStore.Entries.{All, Finished}
use godelayq.JsonStore.Sorted.{In, here, there}

module _ (k : String) where
  lookup-delete_all-none :
      (l : List JobSnapshot) (m : Dict JobSnapshot)
      → Dict.lookup k m ≡ none
      → Dict.lookup k (delete_all l m) ≡ none
  unfolding delete_all
  lookup-delete_all-none [] m e = e
  lookup-delete_all-none (x ∷ l) m e =
      lookup-delete_all-none l (Dict.delete x.id m)
        (elim (Dict.delete_cases x.id k m) [ inl p ↦ p.1 | inr p ↦ p.1 ∙ e ])

  -- A job that is not in the list stays.
  lookup-delete_all :
      (l : List JobSnapshot) (m : Dict JobSnapshot)
      → All (λ t. t.id ≢ k) l
      → Dict.lookup k (delete_all l m) ≡ Dict.lookup k m
  unfolding delete_all
  lookup-delete_all [] m h = refl
  lookup-delete_all (x ∷ l) m h =
      lookup-delete_all l (Dict.delete x.id m) h.1
      ∙ Dict.lookup-delete x.id k m
      ∙ if_neg (string_discrete x.id k) h.0 _ _

  -- One that is gone was in the list.
  pub gone-In :
      (l : List JobSnapshot) (m : Dict JobSnapshot) (s : JobSnapshot)
      → All (Finished m) l
      → Dict.lookup k m ≡ some s
      → Dict.lookup k (delete_all l m) ≡ none
      → In s l
  gone-In l m s f e gone = elim (search_for l f) [
    | inl i ↦ i
    | inr h ↦ let kept = lookup-delete_all l m h in absurd (cc)
  ]
    where
      search_for : (l : List JobSnapshot) → All (Finished m) l → In s l ⊎ All (λ t. t.id ≢ k) l
      search_for [] f = inr tt
      search_for (x ∷ l) f = elim (string_discrete x.id k) [
        | yes same ↦
            let at = f.0.0 in
            let x_is : x ≡ s = cc (at, e, ap (λ i. Dict.lookup i m) same) in inl (here x_is)
        | no other ↦ elim (search_for l f.1) [ inl i ↦ inl (there i) | inr h ↦ inr (other, h) ]
      ]

pub kept-not-In :
    {t : JobSnapshot} (l : List JobSnapshot) (m : Dict JobSnapshot)
    → In t l
    → Dict.lookup t.id (delete_all l m) ≡ none
unfolding delete_all
kept-not-In [] m i = elim i [ ]
kept-not-In {t} (x ∷ l) m (here e) = lookup-delete_all-none t.id l (Dict.delete x.id m) (
    ap (λ (w : JobSnapshot). Dict.lookup w.id (Dict.delete x.id m)) (sym e)
    ∙ Dict.lookup-delete_self x.id m)
kept-not-In (x ∷ l) m (there i) = kept-not-In l (Dict.delete x.id m) i

pub delete_all-Distinct :
    (l : List JobSnapshot) (m : Dict JobSnapshot) → Distinct m → Distinct (delete_all l m)
unfolding delete_all
delete_all-Distinct [] m d = d
delete_all-Distinct (x ∷ l) m d = delete_all-Distinct l _ (delete-Distinct x.id m d)

pub delete_all-Keyed :
    (l : List JobSnapshot) (m : Dict JobSnapshot) → Keyed m → Keyed (delete_all l m)
unfolding delete_all
delete_all-Keyed [] m d = d
delete_all-Keyed (x ∷ l) m d = delete_all-Keyed l _ (delete-Keyed x.id m d)

pub lookup-delete_all-some :
    (k : String) (l : List JobSnapshot) (m : Dict JobSnapshot) (t : JobSnapshot)
    → Dict.lookup k (delete_all l m) ≡ some t
    → Dict.lookup k m ≡ some t
unfolding delete_all
lookup-delete_all-some k [] m t e = e
lookup-delete_all-some k (x ∷ l) m t e =
    let ih = lookup-delete_all-some k l (Dict.delete x.id m) t e in
    elim (Dict.delete_cases x.id k m) [ inl p ↦ absurd (cc (p.1, ih)) | inr p ↦ sym p.1 ∙ ih ]

pub Keyed-lookup :
    (k : String) (m : Dict JobSnapshot) (t : JobSnapshot)
    → Keyed m
    → Dict.lookup k m ≡ some t
    → t.id ≡ k
unfolding Dict.lookup
Keyed-lookup k [] t h e = absurd (cc)
Keyed-lookup k ((j, s) ∷ m) t h e = elim (string_discrete j k) [
  | yes same ↦
      let e1 = rw (if_pos (string_discrete j k) same) at e in
      let s_is : s ≡ t = cc in ap (λ (x : JobSnapshot). x.id) (sym s_is) ∙ h.0 ∙ same
  | no other ↦ Keyed-lookup k m t h.1 (rw (if_neg (string_discrete j k) other) at e)
]
