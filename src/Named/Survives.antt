-- ===== src/Named/Survives.antt =====
-- The calls of the two stores as steps, and what the file holds after one that gave no error.
use godelayq.Prelude.{
  ℕ, ◌≡◌, refl, sym, ap, subst, inl, inr, true, ◌&&◌, Option, none, some, String, List, [],
  Bool-cases, Option-cases,
}
use godelayq.Dict
use godelayq.Dict.{Dict}
use godelayq.Dict.Keys.{Distinct, insert-Distinct, delete-Distinct}
use godelayq.JsonStore.{DiskAnswers, FileRead, contents}
use godelayq.Named.{
  Kind, ListCodec, NamedStore, done, values, key, sort_named, list_all, get, stamp, take_each,
  write_all, save_named, delete_named, load_named,
}
use godelayq.Named.Agree.{All, Apart, All-sort_named, sort_named-Apart}
use godelayq.Named.Alike.{Both, nothing, AlikeLaws, Each-Apart, Each-All, take_each-Both}
use godelayq.Named.Reopen.{
  KindLaws, ListLaws, Keyed, insert-Keyed, delete-Keyed, values-All, values-Apart, reread,
}

module _ {R : Type 0} (kind : Kind R) (lower : String → String) (codec : ListCodec R) where
  pub data NamedStep (s : NamedStore R) : NamedStore R → Type 0 where
    saved :
        (r : R) (now : ℕ) (disk : DiskAnswers)
        → NamedStep s (save_named kind lower codec s r now disk).0
    deleted :
        (name : String) (disk : DiskAnswers)
        → NamedStep s (delete_named kind lower codec s name disk).0

  pub data NamedSteps (s : NamedStore R) : NamedStore R → Type 0 where
    no_call : NamedSteps s s
    then_call : (s1 s2 : NamedStore R) → NamedSteps s s1 → NamedStep s1 s2 → NamedSteps s s2

  -- A call that gave no error.
  pub data Acked (s : NamedStore R) : NamedStore R → Type 0 where
    saved :
        (r : R) (now : ℕ) (disk : DiskAnswers)
        → (save_named kind lower codec s r now disk).1 ≡ done
        → Acked s (save_named kind lower codec s r now disk).0
    deleted :
        (name : String) (disk : DiskAnswers)
        → (delete_named kind lower codec s name disk).1 ≡ done
        → Acked s (delete_named kind lower codec s name disk).0

  -- The file, read by the load, gives under every name what is like what the store gives.
  pub record Survives (Alike : R → R → Type 0) (load : FileRead → Option (Dict R))
      (s : NamedStore R) : Type 0 where
    pub bytes : List ℕ
    pub kept : s.file ≡ some bytes
    pub reopened : Dict R
    pub read : load (contents bytes) ≡ some reopened
    pub same :
        (name : String) → Both Alike (get kind lower s name) (Dict.lookup (lower name) reopened)

  -- One record for each key, each under its name and with the property.
  abbrev pub Tidy : (R → Type 0) → Dict R → Type 0
  Tidy P m = Distinct m × Keyed kind lower P m

  -- A loop that takes every record of a list of records that have the property and whose keys differ.
  abbrev pub TakesAll : (R → Type 0) → (List R → Option (Dict R)) → Type 0
  TakesAll P loop =
      (l : List R) → Apart kind lower l → All P l → loop l ≡ some (take_each kind lower l [])

  -- What holds of a record holds of one that is like it.
  abbrev pub Shared : (R → R → Type 0) → (R → Type 0) → Type 0
  Shared Alike P = (r q : R) → Alike r q → P r → P q

  written-Apart :
      (P : R → Type 0) (m : Dict R)
      → Tidy P m
      → Apart kind lower (sort_named kind lower (values m))
        × All P (sort_named kind lower (values m))
  written-Apart P m tidy = (
    sort_named-Apart kind lower (values m) (values-Apart kind lower P m tidy.0 tidy.1),
    All-sort_named kind lower P (values m) (values-All kind lower P m tidy.1),
  )

  write_all-Survives :
      (Alike : R → R → Type 0) (P : R → Type 0) (loop : List R → Option (Dict R)) (s : NamedStore R)
      (disk : DiskAnswers)
      → AlikeLaws kind Alike
      → Shared Alike P
      → ListLaws Alike codec
      → TakesAll P loop
      → Tidy P s.records
      → (write_all kind lower codec s disk).1 ≡ done
      → Survives Alike (load_named kind lower codec loop) (write_all kind lower codec s disk).0
  unfolding write_all load_named Dict.lookup
  write_all-Survives Alike P loop s disk alike shared laws takes tidy h =
      elim (Option-cases (codec.marshal (list_all kind lower s))) [
        | inl bad ↦ let e = rw (bad, write_all) at h in absurd (cc)
        | inr (bytes, good) ↦
            let e = rw (good, write_all) at h in
            let (l', again, each) = laws.read_back _ bytes good in
            let (apart, all) = written-Apart P s.records tidy in
            elim (Bool-cases (disk.written && disk.renamed)) [
              | inl fine ↦
                  rw (good, write_all, fine)
                    (record {
                      bytes = bytes;
                      kept = refl;
                      reopened = take_each kind lower l' [];
                      read =
                          rw (laws.not_blank _ bytes good, again, load_named)
                            (takes l' (Each-Apart kind lower Alike alike _ l' each apart)
                              (Each-All Alike P _ l' shared each all));
                      same = λ name.
                          subst
                            (λ o.
                              Both Alike o (Dict.lookup (lower name) (take_each kind lower l' [])))
                            (reread kind lower P s.records tidy.0 tidy.1 (lower name))
                            (take_each-Both kind lower Alike alike _ l' [] [] each (λ k. nothing)
                              (lower name));
                    })
              | inr bad ↦ let f = rw bad at e in absurd (cc)
            ]
      ]

  pub write_all-records :
      (s : NamedStore R) (disk : DiskAnswers)
      → (write_all kind lower codec s disk).0.records ≡ s.records
  unfolding write_all
  write_all-records s disk = elim (Option-cases (codec.marshal (list_all kind lower s))) [
    | inl bad ↦ rw (bad, write_all) refl
    | inr (bytes, good) ↦
        rw (good, write_all)
          (elim (Bool-cases (disk.written && disk.renamed)) [
            | inl fine ↦ rw fine refl
            | inr bad ↦ rw bad refl
          ])
  ]

  module _ (P : R → Type 0)
      (stamps : (r : R) (created updated : ℕ)
        → kind.good r ≡ true
        → P (kind.stamped r created updated))
      (laws : KindLaws kind) where
    stamp-kept :
        (old : Option R) (r : R) (now : ℕ)
        → kind.good r ≡ true
        → P (stamp kind lower old r now)
          × (key kind lower (stamp kind lower old r now) ≡ key kind lower r)
    unfolding stamp
    stamp-kept none r now good = (stamps r _ now good, ap lower (laws.name-stamped r _ now))
    stamp-kept (some q) r now good = (stamps r _ now good, ap lower (laws.name-stamped r _ now))

    put-Tidy :
        (s : NamedStore R) (r : R) (now : ℕ)
        → kind.good r ≡ true
        → Tidy P s.records
        → Tidy P (
            Dict.insert
              (key kind lower r)
              (stamp kind lower (Dict.lookup (key kind lower r) s.records) r now)
              s.records)
    put-Tidy s r now good tidy =
        let (p, same) = stamp-kept (Dict.lookup (key kind lower r) s.records) r now good in
        (
          insert-Distinct _ _ s.records tidy.0,
          insert-Keyed kind lower P _ _ s.records same p tidy.1,
        )

    NamedStep-Tidy : (s s1 : NamedStore R) → NamedStep s s1 → Tidy P s.records → Tidy P s1.records
    unfolding save_named delete_named
    NamedStep-Tidy s _ (saved r now disk) tidy = elim (Bool-cases (kind.good r)) [
      | inl good ↦
          rw good (subst (Tidy P) (sym (write_all-records _ disk)) (put-Tidy s r now good tidy))
      | inr bad ↦ rw bad tidy
    ]
    NamedStep-Tidy s _ (deleted name disk) tidy =
        elim (Option-cases (Dict.lookup (lower name) s.records)) [
          | inl gone ↦ rw (gone, delete_named) tidy
          | inr (r, found) ↦
              rw (found, delete_named)
                (subst (Tidy P) (sym (write_all-records _ disk)) (
                  delete-Distinct (lower name) s.records tidy.0,
                  delete-Keyed kind lower P (lower name) s.records tidy.1,
                ))
        ]

    pub NamedSteps-Tidy :
        (s s1 : NamedStore R) → NamedSteps s s1 → Tidy P s.records → Tidy P s1.records
    NamedSteps-Tidy s _ no_call tidy = tidy
    NamedSteps-Tidy s s2 (then_call s1 _ before step) tidy =
        NamedStep-Tidy s1 s2 step (NamedSteps-Tidy s s1 before tidy)

    pub Acked-Survives :
        (Alike : R → R → Type 0) (loop : List R → Option (Dict R)) (s s1 : NamedStore R)
        → AlikeLaws kind Alike
        → Shared Alike P
        → ListLaws Alike codec
        → TakesAll P loop
        → Tidy P s.records
        → Acked s s1
        → Survives Alike (load_named kind lower codec loop) s1
    unfolding save_named delete_named
    Acked-Survives Alike loop s _ alike shared back takes tidy (saved r now disk e) =
        elim (Bool-cases (kind.good r)) [
          | inl good ↦
              let e = rw good at e in
              rw good (
                write_all-Survives Alike P loop _ disk alike shared back takes
                  (put-Tidy s r now good tidy) e)
          | inr bad ↦ let e = rw bad at e in absurd (cc)
        ]
    Acked-Survives Alike loop s _ alike shared back takes tidy (deleted name disk e) =
        elim (Option-cases (Dict.lookup (lower name) s.records)) [
          | inl gone ↦ let e = rw (gone, delete_named) at e in absurd (cc)
          | inr (r, found) ↦
              let e = rw (found, delete_named) at e in
              rw (found, delete_named)
                (write_all-Survives Alike P loop _ disk alike shared back takes
                  (
                    delete-Distinct (lower name) s.records tidy.0,
                    delete-Keyed kind lower P (lower name) s.records tidy.1,
                  )
                  e)
        ]
