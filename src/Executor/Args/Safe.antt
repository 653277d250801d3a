-- ===== src/Executor/Args/Safe.antt =====
-- What the values are that a payload passes to a program.
use mathlib.Core.Option.{some_inj}
use godelayq.Prelude.{
  ◌≡◌, ◌≢◌, ◌≤◌, ◌⊎◌, refl, sym, ap, subst, ◌∙◌, inl, inr, List, [], ◌∷◌, Bool, true, false, ◌&&◌,
  ◌||◌, not, Option, none, some, String, arith, length, Bool-cases, Option-cases, if_pos, if_neg,
  string_discrete,
}
use godelayq.Text.{codes}
use godelayq.Dict
use godelayq.Dict.{Dict}
use godelayq.Dict.Keys.{Entry, here, there}
use godelayq.Executor.Args.{
  ArgSpec, Profile, max_arg_value_len, positional_key, contains_control, starts_with_dash,
  check_arg_value, find_arg, all_given, fill_each, fill_values,
}

-- The value is that of the payload, for an argument that the profile declares; it is short, has no
-- control character, matches the pattern of the argument, and looks like an option only where the
-- argument allows it.
pub record Passed {E : Type 0} (scalar : E → Option String) (args : List ArgSpec) (source : Dict E)
    (name value : String) : Type 0 where
  pub encoded : E
  pub given : Entry name encoded source
  pub read : scalar encoded ≡ some value
  pub arg : ArgSpec
  pub declared : find_arg args name ≡ some arg
  pub short : length (codes value) ≤ max_arg_value_len
  pub no_control : contains_control (codes value) ≡ false
  pub matching : arg.matches value ≡ true
  pub no_option : (arg.allow_dash ≡ true) ⊎ (starts_with_dash value ≡ false)

-- All values are so, and no required argument is missing.
pub record Filled {E : Type 0} (scalar : E → Option String) (p : Profile) (source : Dict E)
    (target : Dict String) : Type 0 where
  pub passed :
      (name value : String)
      → Dict.lookup name target ≡ some value
      → Passed scalar p.args source name value
  pub required :
      (name : String) (arg : ArgSpec)
      → find_arg p.args name ≡ some arg
      → arg.required ≡ true
      → Dict.lookup arg.name target ≢ none

-- The parts of a test that holds.
four :
    (a b c d : Bool) → (a && b && c && d) ≡ true → (a ≡ true) × (b ≡ true) × (c ≡ true) × (d ≡ true)
four true true true true e = (refl, refl, refl, refl)
four false b c d e = absurd (cc)
four true false c d e = absurd (cc)
four true true false d e = absurd (cc)
four true true true false e = absurd (cc)

either : (a b : Bool) → (a || not b) ≡ true → (a ≡ true) ⊎ (b ≡ false)
either true b e = inl refl
either false false e = inr refl
either false true e = absurd (cc)

negated : (b : Bool) → not b ≡ true → b ≡ false
negated false e = refl
negated true e = absurd (cc)

checked :
    {E : Type 0} (scalar : E → Option String) (args : List ArgSpec) (source : Dict E)
    (name value : String) (encoded : E) (arg : ArgSpec)
    → Entry name encoded source
    → scalar encoded ≡ some value
    → find_arg args name ≡ some arg
    → check_arg_value arg value ≡ true
    → Passed scalar args source name value
unfolding check_arg_value
checked scalar args source name value encoded arg given read declared good =
    let (short, control, match, dash) = four _ _ _ _ good in
    record {
      encoded = encoded;
      given = given;
      read = read;
      arg = arg;
      declared = declared;
      short = ground arith;
      no_control = negated _ control;
      matching = match;
      no_option = either _ _ dash;
    }

module _ {E : Type 0} (scalar : E → Option String) (args : List ArgSpec) (all : Dict E) where
  abbrev AllPassed : Dict String → Type 0
  AllPassed target =
      (name value : String)
      → Dict.lookup name target ≡ some value
      → Passed scalar args all name value

  insert-AllPassed :
      (name value : String) (target : Dict String)
      → Passed scalar args all name value
      → AllPassed target
      → AllPassed (Dict.insert name value target)
  insert-AllPassed name value target new old other v e =
      elim (Dict.insert_cases name other value target) [
        | inl p ↦
            let same : value ≡ v = some_inj.0 (sym p.1 ∙ e) in
            subst (λ w. Passed scalar args all other w) same
              (subst (λ n. Passed scalar args all n value) p.0 new)
        | inr p ↦ old other v (sym p.1 ∙ e)
      ]

  fill_each-AllPassed :
      (source : Dict E) (target result : Dict String)
      → ((name : String) (e : E) → Entry name e source → Entry name e all)
      → AllPassed target
      → fill_each scalar args source target ≡ some result
      → AllPassed result
  unfolding fill_each
  fill_each-AllPassed [] target result part old e = subst AllPassed (some_inj.0 e) old
  fill_each-AllPassed ((name, encoded) ∷ source) target result part old e =
      let rest = λ (n : String) (x : E) (t : Entry n x source). part n x (there t) in
      elim (string_discrete name positional_key) [
        | yes positional ↦
            fill_each-AllPassed source target result rest old
              (rw (if_pos (string_discrete name positional_key) positional) at e)
        | no named ↦
            let f = rw (if_neg (string_discrete name positional_key) named) at e in
            elim (Option-cases (scalar encoded)) [
              | inl bad ↦ let g = rw bad at f in absurd (cc)
              | inr (value, read) ↦
                  let g = rw read at f in
                  elim (Option-cases (find_arg args name)) [
                    | inl unknown ↦ let h = rw unknown at g in absurd (cc)
                    | inr (arg, declared) ↦
                        let h = rw declared at g in
                        elim (Bool-cases (check_arg_value arg value)) [
                          | inl good ↦
                              fill_each-AllPassed source (Dict.insert name value target) result rest
                                (insert-AllPassed name value target
                                  (checked scalar args all name value encoded arg
                                    (part name encoded (here refl refl)) read declared good)
                                  old)
                                (rw good at h)
                          | inr bad ↦ let k = rw bad at h in absurd (cc)
                        ]
                  ]
            ]
      ]

nothing_yet :
    {E : Type 0} (scalar : E → Option String) (args : List ArgSpec) (all : Dict E)
    → AllPassed scalar args all []
unfolding Dict.lookup
nothing_yet scalar args all name value e = absurd (cc)

given_rest :
    (a : ArgSpec) (l : List ArgSpec) (target : Dict String)
    → all_given (a ∷ l) target ≡ true
    → (all_given l target ≡ true) × ((a.required ≡ true) → Dict.lookup a.name target ≢ none)
unfolding all_given
given_rest a l target given = elim (Bool-cases a.required) [
  | inr free ↦ (rw free at given, λ needed. absurd (cc))
  | inl needed ↦
      let e = rw needed at given in
      elim (Option-cases (Dict.lookup a.name target)) [
        | inl gone ↦ let f = rw gone at e in absurd (cc)
        | inr (v, there_it_is) ↦ (rw there_it_is at e, λ n gone. absurd (cc))
      ]
]

all_given_sound :
    (args : List ArgSpec) (target : Dict String) (name : String) (arg : ArgSpec)
    → all_given args target ≡ true
    → find_arg args name ≡ some arg
    → arg.required ≡ true
    → Dict.lookup arg.name target ≢ none
unfolding find_arg
all_given_sound [] target name arg given found needed gone = absurd (cc)
all_given_sound (a ∷ l) target name arg given found needed gone =
    let (rest, first) = given_rest a l target given in
    elim (string_discrete a.name name) [
      | yes same ↦
          let which : a ≡ arg =
            some_inj.0 (rw (if_pos (string_discrete a.name name) same) at found) in
          first (ap (λ (b : ArgSpec). b.required) which ∙ needed)
            (ap (λ (b : ArgSpec). Dict.lookup b.name target) which ∙ gone)
      | no other ↦
          all_given_sound l target name arg rest
            (rw (if_neg (string_discrete a.name name) other) at found) needed gone
    ]

-- What fillValues accepts is safe to pass on: every value is that of the payload, for an argument that
-- the profile declares, has at most 256 characters and no control character, matches the pattern of the
-- argument, and starts with a dash only where the argument allows it; and every required argument has a
-- value.
pub fill_values_lem :
    {E : Type 0} (scalar : E → Option String) (p : Profile) (source : Dict E) (target : Dict String)
    → fill_values scalar p source ≡ some target
    → Filled scalar p source target
unfolding fill_values
fill_values_lem scalar p source target e = elim (Option-cases (fill_each scalar p.args source [])) [
  | inl bad ↦ let f = rw (bad, fill_values) at e in absurd (cc)
  | inr (filled, done) ↦
      let f = rw (done, fill_values) at e in
      elim (Bool-cases (all_given p.args filled)) [
        | inl complete ↦
            let same : filled ≡ target = some_inj.0 (rw complete at f) in
            subst (Filled scalar p source) same (record {
              passed =
                  fill_each-AllPassed scalar p.args source source [] filled (λ n x t. t)
                    (nothing_yet scalar p.args source) done;
              required = λ name arg found needed.
                  all_given_sound p.args filled name arg complete found needed;
            })
        | inr missing ↦ let g = rw missing at f in absurd (cc)
      ]
]
