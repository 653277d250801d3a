-- ===== src/Named/Updates.antt =====
-- What a Save leaves under each name.
use godelayq.Prelude.{
  ℕ, ◌≡◌, ◌≢◌, ◌⊎◌, refl, sym, ap, ◌∙◌, inl, inr, Bool, true, false, ◌&&◌, not, Option, none, some,
  String, ◌==◌, Bool-cases, Option-cases, if◌then◌else◌,
}
use godelayq.Dict
use godelayq.JsonStore.{DiskAnswers}
use godelayq.Named.{
  Kind, ListCodec, NamedStore, refused, key, get, list_all, stamp, write_all, save_named,
}
use godelayq.Named.Survives.{write_all-records}

-- The record is under its name, with the times of the call, and no other name has another record. Of
-- the time of its creation, one that the call gives counts, then that of the record of before.
pub record Put {R : Type 0} (kind : Kind R) (lower : String → String) (s s1 : NamedStore R) (r : R)
    (now : ℕ) : Type 0 where
  pub there :
      get kind lower s1 (kind.name r)
      ≡ some (
          kind.stamped r
            (if not (kind.created_at r == 0)
              then kind.created_at r
              else elim (get kind lower s (kind.name r)) [
                | none ↦ now
                | some q ↦ kind.created_at q
              ])
            now)
  pub others :
      (name : String)
      → lower name ≢ lower (kind.name r)
      → get kind lower s1 name ≡ get kind lower s name

flip : (b : Bool) (x y : ℕ) → (if b then x else y) ≡ (if not b then y else x)
flip true x y = refl
flip false x y = refl

stamp_lem :
    {R : Type 0} (kind : Kind R) (lower : String → String) (old : Option R) (r : R) (now : ℕ)
    → stamp kind lower old r now
      ≡ kind.stamped r
          (if not (kind.created_at r == 0)
            then kind.created_at r
            else elim old [ none ↦ now | some q ↦ kind.created_at q ])
          now
unfolding stamp
stamp_lem kind lower none r now = ap (λ c. kind.stamped r c now) (flip (kind.created_at r == 0) _ _)
stamp_lem kind lower (some q) r now =
    ap (λ c. kind.stamped r c now) (flip (kind.created_at r == 0) _ _)

not_refused :
    {R : Type 0} (kind : Kind R) (lower : String → String) (codec : ListCodec R) (s : NamedStore R)
    (disk : DiskAnswers)
    → (write_all kind lower codec s disk).1 ≢ refused
unfolding write_all
not_refused kind lower codec s disk e =
    elim (Option-cases (codec.marshal (list_all kind lower s))) [
      | inl bad ↦ let e = rw (bad, write_all) at e in absurd (cc)
      | inr (bytes, good) ↦
          let e = rw (good, write_all) at e in
          elim (Bool-cases (disk.written && disk.renamed)) [
            | inl fine ↦ let e = rw fine at e in absurd (cc)
            | inr bad ↦ let e = rw bad at e in absurd (cc)
          ]
    ]

good_saved :
    {R : Type 0} (kind : Kind R) (lower : String → String) (codec : ListCodec R) (s : NamedStore R)
    (r : R) (now : ℕ) (disk : DiskAnswers)
    → kind.good r ≡ true
    → Put kind lower s (save_named kind lower codec s r now disk).0 r now
      × ((save_named kind lower codec s r now disk).1 ≢ refused)
unfolding save_named
good_saved kind lower codec s r now disk good = rw good (
  record {
    there = rw (write_all-records kind lower codec _ disk) (
        Dict.lookup-insert_self (key kind lower r) _ s.records
        ∙ ap some (stamp_lem kind lower (get kind lower s (kind.name r)) r now));
    others = λ name other.
        rw (write_all-records kind lower codec _ disk)
          (elim (Dict.insert_cases (key kind lower r) (lower name)
            (stamp kind lower (Dict.lookup (key kind lower r) s.records) r now) s.records) [
              | inl p ↦ absurd (other (sym p.0))
              | inr p ↦ p.1
            ]);
  },
  not_refused kind lower codec _ disk,
)

-- A Save of a record that passes the check puts it into the memory, whether or not the disk fails, with
-- the time of the call and, as the time of its creation, the one that the call gives, else that of the
-- record of before, else the time of the call; no other name has another record. A Save of a record that
-- does not pass is refused and changes nothing.
pub save_named_lem :
    {R : Type 0} (kind : Kind R) (lower : String → String) (codec : ListCodec R) (s : NamedStore R)
    (r : R) (now : ℕ) (disk : DiskAnswers)
    → ((kind.good r ≡ true)
        × Put kind lower s (save_named kind lower codec s r now disk).0 r now
        × ((save_named kind lower codec s r now disk).1 ≢ refused))
      ⊎ ((kind.good r ≡ false) × (save_named kind lower codec s r now disk ≡ (s, refused)))
unfolding save_named
save_named_lem kind lower codec s r now disk = elim (Bool-cases (kind.good r)) [
  | inl good ↦
      let (put, answered) = good_saved kind lower codec s r now disk good in
      inl (good, put, answered)
  | inr bad ↦ inr (bad, rw bad refl)
]
