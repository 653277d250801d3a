-- ===== src/Named/Opened.antt =====
-- What a store that was opened from a file leaves in it.
use mathlib.Core.Option.{some_inj}
use godelayq.Prelude.{
  ℕ, ◌≡◌, refl, subst, ◌∙◌, inl, inr, Bool, true, Option, none, some, String, List, [], ◌∷◌,
  Bool-cases, Option-cases,
}
use godelayq.Dict
use godelayq.Dict.{Dict}
use godelayq.Dict.Keys.{insert-Distinct}
use godelayq.JsonStore.{FileRead, missing, unreadable, contents}
use godelayq.Named.{
  Kind, ListCodec, NamedStore, key, take_each, take_checked, load_named, load_groups, load_profiles,
}
use godelayq.Named.Agree.{All, take_checked_lem}
use godelayq.Named.Alike.{AlikeLaws}
use godelayq.Named.Reopen.{KindLaws, ListLaws, insert-Keyed, take_each-Keyed}
use godelayq.Named.Survives.{
  NamedSteps, Acked, Survives, Tidy, TakesAll, NamedSteps-Tidy, Acked-Survives,
}

module _ {R : Type 0} (kind : Kind R) (lower : String → String) (codec : ListCodec R) where
  groups_TakesAll : TakesAll kind lower codec (λ r. Unit) (λ l. some (take_each kind lower l []))
  groups_TakesAll l apart all = refl

  All-none : (l : List R) → All (λ r. Dict.lookup {V = Bool} (key kind lower r) [] ≡ none) l
  unfolding Dict.lookup
  All-none [] = tt
  All-none (r ∷ l) = (refl, All-none l)

  profiles_TakesAll :
      TakesAll kind lower codec (λ r. kind.good r ≡ true) (λ l. take_checked kind lower l [] [])
  profiles_TakesAll l apart all = take_checked_lem kind lower l [] [] apart all (All-none l)

  take_checked-Tidy :
      (l : List R) (seen : Dict Bool) (m m' : Dict R)
      → Tidy kind lower codec (λ r. kind.good r ≡ true) m
      → take_checked kind lower l seen m ≡ some m'
      → Tidy kind lower codec (λ r. kind.good r ≡ true) m'
  unfolding take_checked
  take_checked-Tidy [] seen m m' tidy e =
      subst (Tidy kind lower codec (λ r. kind.good r ≡ true)) (some_inj.0 e) tidy
  take_checked-Tidy (r ∷ l) seen m m' tidy e = elim (Bool-cases (kind.good r)) [
    | inl good ↦
        let e = rw good at e in
        elim (Option-cases (Dict.lookup (key kind lower r) seen)) [
          | inl fresh ↦
              take_checked-Tidy l _ _ m'
                (
                  insert-Distinct (key kind lower r) r m tidy.0,
                  insert-Keyed kind lower (λ q. kind.good q ≡ true) r (key kind lower r) m refl good
                      tidy.1,
                )
                (rw (fresh, take_checked) at e)
          | inr (b, twice) ↦ let e = rw (twice, take_checked) at e in absurd (cc)
        ]
    | inr bad ↦ let e = rw bad at e in absurd (cc)
  ]

  All-unit : (l : List R) → All (λ r. Unit {0}) l
  All-unit [] = tt
  All-unit (r ∷ l) = (tt, All-unit l)

  load-Tidy :
      (P : R → Type 0) (loop : List R → Option (Dict R)) (read : FileRead) (m : Dict R)
      → ((l : List R) (m' : Dict R) → loop l ≡ some m' → Tidy kind lower codec P m')
      → load_named kind lower codec loop read ≡ some m
      → Tidy kind lower codec P m
  unfolding load_named
  load-Tidy P loop missing m keeps e = subst (Tidy kind lower codec P) (some_inj.0 e) (tt, tt)
  load-Tidy P loop unreadable m keeps e = absurd (cc)
  load-Tidy P loop (contents bytes) m keeps e = elim (Bool-cases (codec.blank bytes)) [
    | inl empty ↦ subst (Tidy kind lower codec P) (some_inj.0 (rw empty at e)) (tt, tt)
    | inr text ↦
        let e = rw text at e in
        elim (Option-cases (codec.unmarshal bytes)) [
          | inl bad ↦ let e = rw (bad, load_named) at e in absurd (cc)
          | inr (l, good) ↦ keeps l m (rw (good, load_named) at e)
        ]
  ]

-- After a file was opened by the load that takes every record and any calls were made, one that gives no error leaves a file that,
-- opened again, gives under every name what is like what the store gives now.
pub every_record_read :
    {R : Type 0} (kind : Kind R) (lower : String → String) (codec : ListCodec R)
    (Alike : R → R → Type 0) (read : FileRead) (m : Dict R) (file : Option (List ℕ))
    (s s1 : NamedStore R)
    → KindLaws kind
    → AlikeLaws kind Alike
    → ListLaws Alike codec
    → load_groups kind lower codec read ≡ some m
    → NamedSteps kind lower codec (record { records = m; file = file }) s
    → Acked kind lower codec s s1
    → Survives kind lower codec Alike (load_groups kind lower codec) s1
every_record_read kind lower codec Alike read m file s s1 laws alike back opened calls last =
    Acked-Survives kind lower codec (λ r. Unit) (λ r c u g. tt) laws Alike _ s s1 alike
      (λ r q a u. tt) back (groups_TakesAll kind lower codec)
      (NamedSteps-Tidy kind lower codec (λ r. Unit) (λ r c u g. tt) laws _ s calls
        (load-Tidy kind lower codec (λ r. Unit) _ read m
          (λ l m' e.
            subst (Tidy kind lower codec (λ r. Unit)) (some_inj.0 e)
              (take_each-Keyed kind lower (λ r. Unit) l [] (All-unit kind lower codec l) tt tt))
          opened))
      last

-- The same with the load that refuses bad records and a second one of a name.
pub good_records_read :
    {R : Type 0} (kind : Kind R) (lower : String → String) (codec : ListCodec R)
    (Alike : R → R → Type 0) (read : FileRead) (m : Dict R) (file : Option (List ℕ))
    (s s1 : NamedStore R)
    → KindLaws kind
    → AlikeLaws kind Alike
    → ListLaws Alike codec
    → load_profiles kind lower codec read ≡ some m
    → NamedSteps kind lower codec (record { records = m; file = file }) s
    → Acked kind lower codec s s1
    → Survives kind lower codec Alike (load_profiles kind lower codec) s1
good_records_read kind lower codec Alike read m file s s1 laws alike back opened calls last =
    let stamps : (r : _) (c u : ℕ) → kind.good r ≡ true → kind.good (kind.stamped r c u) ≡ true =
      λ r c u g. laws.good-stamped r c u ∙ g in
    Acked-Survives kind lower codec (λ r. kind.good r ≡ true) stamps laws Alike _ s s1 alike
      (λ r q a g. alike.one_check r q a ∙ g) back (profiles_TakesAll kind lower codec)
      (NamedSteps-Tidy kind lower codec (λ r. kind.good r ≡ true) stamps laws _ s calls
        (load-Tidy kind lower codec (λ r. kind.good r ≡ true) _ read m
          (λ l m' e. take_checked-Tidy kind lower codec l [] [] m' (tt, tt) e) opened))
      last
