-- ===== src/JsonStore/Trim.antt =====
-- What the retention drops: never a job that is not finished, and of the finished ones the oldest.
use godelayq.Prelude.{
  ℕ, ◌≤◌, ◌<◌, ◌≡◌, ◌≢◌, refl, sym, ap, ◌∙◌, ◌⊎◌, inl, inr, List, [], ◌∷◌, true, false, none, some,
  String, arith, if_pos, if_neg, string_discrete, Bool-cases, Option-cases, drop, length,
  length-drop, ltb,
}
use godelayq.Dict
use godelayq.Dict.{Dict}
use godelayq.Dict.Keys.{Distinct, insert-Distinct}
use godelayq.Job.{JobSnapshot, is_terminal}
use godelayq.JsonStore.{
  JsonFileStore, negative64, sweep, terminals, sort_newest, delete_all, trim_terminal_locked,
  trim_after_write_locked, update,
}
use godelayq.JsonStore.Live.{
  Keyed, insert-Keyed, off, lookup-sweep, lookup-sweep-none, sweep-Distinct, sweep-Keyed,
}
use godelayq.JsonStore.Entries.{
  All, All-drop, All-sort, Unique-drop, Unique-sort, length-sort, Finished, terminals-Unique,
  terminals-Finished, delete_all_count,
}
use godelayq.JsonStore.Sorted.{
  In, here, there, sort-Descending, In-sort, In-terminals, In-split, Descending-cut,
}
use godelayq.JsonStore.Deletes.{
  gone-In, kept-not-In, delete_all-Distinct, delete_all-Keyed, lookup-delete_all-some, Keyed-lookup,
}

-- What the retention leaves of the jobs `m`. No job that is not finished is lost. At most `limit`
-- finished jobs are left, none of them stale, and none at all where the limit is negative. A
-- finished job that was dropped and was not stale is no later than any that was kept.
pub record Retained (limit ttl now : ℕ) (m m' : Dict JobSnapshot) : Type 0 where
  pub distinct : Distinct m'
  pub keyed : Keyed m'
  pub live :
      (k : String) (s : JobSnapshot)
      → Dict.lookup k m ≡ some s
      → is_terminal s.status ≡ false
      → Dict.lookup k m' ≡ some s
  pub none_new :
      (k : String) (s : JobSnapshot) → Dict.lookup k m' ≡ some s → Dict.lookup k m ≡ some s
  pub fresh :
      (k : String) (s : JobSnapshot) → Dict.lookup k m' ≡ some s → off limit ttl now s ≡ false
  pub bounded : negative64 limit ≡ false → length (terminals m') ≤ limit
  pub emptied : negative64 limit ≡ true → length (terminals m') ≡ 0
  pub newest :
      (k j : String) (s t : JobSnapshot)
      → Dict.lookup k m ≡ some s
      → off limit ttl now s ≡ false
      → Dict.lookup k m' ≡ none
      → Dict.lookup j m' ≡ some t
      → is_terminal t.status ≡ true
      → s.updated_at ≤ t.updated_at

module _ (limit ttl now : ℕ) where
  sweep-some :
      (k : String) (m : Dict JobSnapshot) (s : JobSnapshot)
      → Distinct m
      → Dict.lookup k (sweep limit ttl now m) ≡ some s
      → Dict.lookup k m ≡ some s
  unfolding sweep Dict.lookup
  sweep-some k [] s d e = e
  sweep-some k ((j, u) ∷ m) s d e = elim (Bool-cases (off limit ttl now u)) [
    | inl gone ↦
        let e1 = rw gone at e in
        elim (string_discrete j k) [
          | yes same ↦
              let missing : Dict.lookup k m ≡ none = ap (λ x. Dict.lookup x m) (sym same) ∙ d.0 in
              let f = lookup-sweep-none limit ttl now k m missing in absurd (cc)
          | no other ↦ if_neg (string_discrete j k) other _ _ ∙ sweep-some k m s d.1 e1
        ]
    | inr stays ↦
        let e1 = rw stays at e in
        elim (string_discrete j k) [
          | yes same ↦
              if_pos (string_discrete j k) same _ _ ∙ rw (if_pos (string_discrete j k) same) at e1
          | no other ↦
              if_neg (string_discrete j k) other _ _
              ∙ sweep-some k m s d.1 (rw (if_neg (string_discrete j k) other) at e1)
        ]
  ]

  sweep_fresh :
      (k : String) (m : Dict JobSnapshot) (s : JobSnapshot)
      → Dict.lookup k (sweep limit ttl now m) ≡ some s
      → off limit ttl now s ≡ false
  unfolding sweep Dict.lookup
  sweep_fresh k [] s e = absurd (cc)
  sweep_fresh k ((j, u) ∷ m) s e = elim (Bool-cases (off limit ttl now u)) [
    | inl gone ↦ sweep_fresh k m s (rw gone at e)
    | inr stays ↦
        let e1 = rw stays at e in
        elim (string_discrete j k) [
          | yes same ↦
              let e2 = rw (if_pos (string_discrete j k) same) at e1 in
              let u_is : u ≡ s = cc in ap (off limit ttl now) (sym u_is) ∙ stays
          | no other ↦ sweep_fresh k m s (rw (if_neg (string_discrete j k) other) at e1)
        ]
  ]

  no_terminals :
      (m : Dict JobSnapshot)
      → negative64 limit ≡ true
      → length (terminals (sweep limit ttl now m)) ≡ 0
  unfolding sweep terminals
  no_terminals [] n = refl
  no_terminals ((j, s) ∷ m) n = elim (Bool-cases (is_terminal s.status)) [
    | inl t ↦ rw (t, n) (no_terminals m n)
    | inr t ↦ rw (t) (rw t (no_terminals m n))
  ]

  swept_lem :
      (m : Dict JobSnapshot)
      → Distinct m
      → Keyed m
      → (negative64 limit ≡ false → length (terminals (sweep limit ttl now m)) ≤ limit)
      → Retained limit ttl now m (sweep limit ttl now m)
  swept_lem m d h few = record {
    distinct = sweep-Distinct limit ttl now m d;
    keyed = sweep-Keyed limit ttl now m h;
    live = λ k s e t. lookup-sweep limit ttl now k s m e (ground arith);
    none_new = λ k s e. sweep-some k m s d e;
    fresh = λ k s e. sweep_fresh k m s e;
    bounded = few;
    emptied = no_terminals m;
    newest =
        λ k j s t e o gone f g. let stays = lookup-sweep limit ttl now k s m e o in absurd (cc);
  }

  dropped_lem :
      (m : Dict JobSnapshot)
      → Distinct m
      → Keyed m
      → negative64 limit ≡ false
      → limit < length (terminals (sweep limit ttl now m))
      → Retained limit ttl now m (
          delete_all
            (drop limit (sort_newest (terminals (sweep limit ttl now m))))
            (sweep limit ttl now m))
  dropped_lem m d h bound many =
      let swept = sweep limit ttl now m in
      let dist = sweep-Distinct limit ttl now m d in
      let key = sweep-Keyed limit ttl now m h in
      let sorted = sort_newest (terminals swept) in
      let l = drop limit sorted in
      let fin =
        All-drop (Finished swept) limit sorted
          (All-sort (Finished swept) (terminals swept) (terminals-Finished swept dist key)) in
      let uniq =
        Unique-drop limit sorted
          (Unique-sort (terminals swept) (terminals-Unique swept dist key)) in
      record {
        distinct = delete_all-Distinct l swept dist;
        keyed = delete_all-Keyed l swept key;
        live = λ k s e t.
            let stays = lookup-sweep limit ttl now k s m e (ground arith) in
            elim (Option-cases (Dict.lookup k (delete_all l swept))) [
              | inl gone ↦ absurd (In-Finished swept s l fin (gone-In k l swept s fin stays gone) t)
              | inr (u, at) ↦ at ∙ sym (lookup-delete_all-some k l swept u at) ∙ stays
            ];
        none_new = λ k s e. sweep-some k m s d (lookup-delete_all-some k l swept s e);
        fresh = λ k s e. sweep_fresh k m s (lookup-delete_all-some k l swept s e);
        bounded = λ _. omega (
          arith,
          delete_all_count l swept dist uniq fin,
          length-drop limit sorted,
          length-sort (terminals swept),
          many,
        );
        emptied = λ n. absurd (cc);
        newest = λ k j s t e o gone f g.
            let stays = lookup-sweep limit ttl now k s m e o in
            let s_in = gone-In k l swept s fin stays gone in
            let t_at = lookup-delete_all-some j l swept t f in
            let t_in = In-sort (terminals swept) (In-terminals j t swept t_at g) in
            elim (In-split limit sorted t_in) [
              | inl kept ↦ Descending-cut limit sorted (sort-Descending (terminals swept)) kept s_in
              | inr cut ↦
                  let t_gone = kept-not-In l swept cut in
                  let same = Keyed-lookup j swept t key t_at in
                  absurd (cc (t_gone, f, ap (λ x. Dict.lookup x (delete_all l swept)) same))
            ];
      }
    where
      In-Finished :
          (m : Dict JobSnapshot) (s : JobSnapshot) (l : List JobSnapshot)
          → All (Finished m) l
          → In s l
          → is_terminal s.status ≢ false
      In-Finished m s [] f i t = elim i [ ]
      In-Finished m s (x ∷ l) f (here e) t =
          let g = f.0.1 in cc (g, t, ap (λ (w : JobSnapshot). is_terminal w.status) e)
      In-Finished m s (x ∷ l) f (there i) t = In-Finished m s l f.1 i t

-- The map of the store has one entry for each id, and each job under its own.
pub record Sound (s : JsonFileStore) : Type 0 where
  pub distinct : Distinct s.jobs
  pub keyed : Keyed s.jobs

trim_lem :
    (s : JsonFileStore) (now : ℕ)
    → Sound s
    → Retained s.history_limit s.history_ttl now s.jobs (trim_terminal_locked s now).jobs
unfolding trim_terminal_locked
trim_lem s now v =
    let swept = sweep s.history_limit s.history_ttl now s.jobs in
    elim (Bool-cases (negative64 s.history_limit)) [
      | inl neg ↦
          rw neg
            (swept_lem s.history_limit s.history_ttl now s.jobs v.distinct v.keyed λ p. absurd (cc))
      | inr pos ↦ rw pos (elim (Bool-cases (ltb s.history_limit (length (terminals swept)))) [
        | inl many ↦ rw many (
            dropped_lem s.history_limit s.history_ttl now s.jobs v.distinct v.keyed pos
              (ground arith))
        | inr few ↦ rw few (
            swept_lem s.history_limit s.history_ttl now s.jobs v.distinct v.keyed λ p. ground arith)
      ])
    ]

-- Update, and so Save, of a store whose map is sound. A job that is not finished is stored under its
-- id and nothing else changes. A finished job is stored and the retention applied: no job that is not
-- finished is lost, no job appears, at most as many finished ones are left as the limit says, none
-- where it is negative, and one that was dropped before it was stale is no later than any kept one.
pub update-Retained :
    (s : JsonFileStore) (now : ℕ) (snap : JobSnapshot)
    → Sound s
    → ((is_terminal snap.status ≡ false)
        × ((update s now snap).jobs ≡ Dict.insert snap.id snap s.jobs)
        × Sound (update s now snap))
      ⊎ ((is_terminal snap.status ≡ true)
          × Retained s.history_limit s.history_ttl now
              (Dict.insert snap.id snap s.jobs)
              (update s now snap).jobs)
unfolding update trim_after_write_locked
update-Retained s now snap v =
    let s1 : JsonFileStore = record s { jobs = Dict.insert snap.id snap s.jobs; dirty = true } in
    let v1 : Sound s1 = record {
      distinct = insert-Distinct snap.id snap s.jobs v.distinct;
      keyed = insert-Keyed snap.id snap s.jobs refl v.keyed;
    } in
    elim (Bool-cases (is_terminal snap.status)) [
      | inr live ↦ rw live (inl (refl, refl, v1))
      | inl over ↦ rw over (inr (refl, trim_lem s1 now v1))
    ]
