-- ===== src/EventBus/Drops.antt =====
-- The lists of the channels after the loop of Unsubscribe.
use godelayq.Prelude.{
  has_num, ℕ, ◌≡◌, ◌≢◌, refl, ap, ◌∙◌, inl, inr, List, [], ◌∷◌, Bool, true, false, ◌||◌, String,
  arith, ite, if_pos, if_neg, string_discrete, Bool-cases,
}
use godelayq.Dict
use godelayq.Dict.{Dict}
use godelayq.EventBus.{members, is_in, remove_subscriber_channel, put_members, drop_key, drop_keys}

pub has_num-remove :
    (n ch : ℕ) (l : List ℕ)
    → has_num n (remove_subscriber_channel l ch) ≡ true
    → (has_num n l ≡ true) × (n ≢ ch)
unfolding remove_subscriber_channel
has_num-remove n ch [] h = absurd (cc)
has_num-remove n ch (x ∷ l) h = ground (arith, has_num-remove n ch l)

pub members-put :
    (key j : String) (l : List ℕ) (m : Dict (List ℕ))
    → members (Dict.lookup j (put_members key l m))
      ≡ ite (string_discrete key j) l (members (Dict.lookup j m))
members-put key j [] m = ground (arith, Dict.lookup-delete key j m)
members-put key j (c ∷ l) m = ground (arith, Dict.lookup-insert key j (c ∷ l) m)

-- Whether Unsubscribe takes the channel off the key.
abbrev pub taken : Bool → List String → String → Bool
taken remove_all remove_set key = remove_all || is_in key remove_set

-- After the loop a list has the channel only where it had it, and not under a key that was taken.
pub record Dropped (ch : ℕ) (test : String → Bool) (keys : List String) (m m' : Dict (List ℕ))
    : Type 0 where
  pub kept :
      (j : String) (n : ℕ)
      → has_num n (members (Dict.lookup j m')) ≡ true
      → has_num n (members (Dict.lookup j m)) ≡ true
  pub gone :
      (j : String)
      → is_in j keys ≡ true
      → test j ≡ true
      → has_num ch (members (Dict.lookup j m')) ≡ false

pub drop_key-kept :
    (m : Dict (List ℕ)) (key : String) (ch : ℕ) (j : String) (n : ℕ)
    → has_num n (members (Dict.lookup j (drop_key m key ch))) ≡ true
    → (has_num n (members (Dict.lookup j m)) ≡ true) × ((key ≡ j) → n ≢ ch)
unfolding drop_key
drop_key-kept m key ch j n h = elim (string_discrete key j) [
  | yes same ↦
      let h1 =
        rw
          (
            members-put key j (remove_subscriber_channel (members (Dict.lookup key m)) ch) m,
            if_pos (string_discrete key j) same,
          )
          at h in
      let r = has_num-remove n ch (members (Dict.lookup key m)) h1 in (rw (← same) r.0, λ e. r.1)
  | no other ↦
      let h1 =
        rw
          (
            members-put key j (remove_subscriber_channel (members (Dict.lookup key m)) ch) m,
            if_neg (string_discrete key j) other,
          )
          at h in
      (h1, λ e. absurd (other e))
]

pub drop_keys-Dropped :
    (remove_all : Bool) (remove_set : List String) (ch : ℕ) (keys : List String) (m : Dict (List ℕ))
    → Dropped ch (taken remove_all remove_set) keys m (drop_keys remove_all remove_set ch keys m).0
unfolding drop_keys
drop_keys-Dropped remove_all remove_set ch [] m = record { kept = λ j n h. h; gone = λ j h t. cc }
drop_keys-Dropped remove_all remove_set ch (key ∷ keys) m =
    elim (Bool-cases (taken remove_all remove_set key)) [
      | inl yes_taken ↦
          let ih = drop_keys-Dropped remove_all remove_set ch keys (drop_key m key ch) in
          rw yes_taken (record {
            kept = λ j n h. (drop_key-kept m key ch j n (ih.kept j n h)).0;
            gone = λ j h t.
                elim (Bool-cases (
                  has_num ch (
                    members (
                      Dict.lookup j
                        (drop_keys remove_all remove_set ch keys (drop_key m key ch)).0)))) [
                          | inr f ↦ f
                          | inl still ↦ elim (string_discrete key j) [
                            | yes same ↦
                                absurd
                                  ((drop_key-kept m key ch j ch (ih.kept j ch still)).1 same refl)
                            | no other ↦
                                ih.gone j (rw (if_neg (string_discrete key j) other) at h) t
                          ]
                        ];
          })
      | inr spared ↦
          let ih = drop_keys-Dropped remove_all remove_set ch keys m in
          rw spared (record {
            kept = ih.kept;
            gone = λ j h t. elim (string_discrete key j) [
              | yes same ↦ absurd (cc (spared, t, ap (taken remove_all remove_set) same))
              | no other ↦ ih.gone j (rw (if_neg (string_discrete key j) other) at h) t
            ];
          })
    ]

pub drop_keys_remaining :
    (remove_all : Bool) (remove_set : List String) (ch : ℕ) (keys : List String) (m : Dict (List ℕ))
    (j : String)
    → is_in j keys ≡ true
    → taken remove_all remove_set j ≡ false
    → is_in j (drop_keys remove_all remove_set ch keys m).1 ≡ true
unfolding drop_keys
drop_keys_remaining remove_all remove_set ch [] m j h t = absurd (cc)
drop_keys_remaining remove_all remove_set ch (key ∷ keys) m j h t =
    elim (Bool-cases (taken remove_all remove_set key)) [
      | inl yes_taken ↦ rw yes_taken (elim (string_discrete key j) [
        | yes same ↦ absurd (cc (yes_taken, t, ap (taken remove_all remove_set) same))
        | no other ↦
            drop_keys_remaining remove_all remove_set ch keys (drop_key m key ch) j
              (rw (if_neg (string_discrete key j) other) at h) t
      ])
      | inr spared ↦ rw spared (elim (string_discrete key j) [
        | yes same ↦ if_pos (string_discrete key j) same _ _
        | no other ↦
            if_neg (string_discrete key j) other _ _
            ∙ drop_keys_remaining remove_all remove_set ch keys m j
                (rw (if_neg (string_discrete key j) other) at h) t
      ])
    ]
