-- ===== src/Job/Preview.antt =====
-- The cut of TrimExecPreview, described without its loop.
use mathlib.Core.List.{append_assoc}
use godelayq.Prelude.{
  ℕ, zero, suc, ◌+◌, ◌-◌, ◌≤◌, ◌<◌, ◌≡◌, refl, ap, ◌∙◌, List, [], ◌∷◌, ◌++◌, true, false, ◌⊎◌, inl,
  inr, arith, leb, length, length-append, drop, length-drop, Bool-cases,
}
use godelayq.Int64.{positive64}
use godelayq.Job.{rune_start, skip_continuation, trim_exec_preview}

-- The text is empty, or its first byte starts a character.
abbrev pub StartsRune : List ℕ → Type 0
StartsRune [] = Unit {0}
StartsRune (b ∷ s) = rune_start b ≡ true

-- `out` is the longest end of `text` that has at most `limit` bytes and starts a character.
pub record IsPreview (text : List ℕ) (limit : ℕ) (out : List ℕ) : Type 0 where
  pub cut : List ℕ
  pub suffix : cut ++ out ≡ text
  pub fits : length out ≤ limit
  pub starts : StartsRune out
  pub longest :
      (front back : List ℕ)
      → front ++ back ≡ text
      → length back ≤ limit
      → StartsRune back
      → length back ≤ length out

-- An end of `c ∷ tail` that starts a character, where `c` starts none, is an end of `tail`.
shorter :
    (c : ℕ) (tail f b : List ℕ)
    → rune_start c ≡ false
    → f ++ b ≡ c ∷ tail
    → StartsRune b
    → (f' : List ℕ) × (f' ++ b ≡ tail)
shorter c tail [] [] inside e s = absurd (cc)
shorter c tail [] (d ∷ b) inside e s = absurd (ground arith)
shorter c tail (d ∷ f) b inside e s = (f, ground arith)

end_le : (f b tail : List ℕ) → f ++ b ≡ tail → length b ≤ length tail
end_le f b tail e = omega (arith, length-append f b, ap length e)

skip_lem : (tail : List ℕ) → IsPreview tail (length tail) (skip_continuation tail)
unfolding skip_continuation
skip_lem [] = record {
  cut = [];
  suffix = refl;
  fits = omega arith;
  starts = tt;
  longest = λ f b e p s. p;
}
skip_lem (c ∷ tail) = elim (Bool-cases (rune_start c)) [
  | inl start ↦ rw start (record {
    cut = [];
    suffix = refl;
    fits = omega arith;
    starts = start;
    longest = λ f b e p s. p;
  })
  | inr inside ↦
      let ih = skip_lem tail in
      rw inside (record {
        cut = c ∷ ih.cut;
        suffix = ap (◌∷◌ c) ih.suffix;
        fits = omega (arith, ih.fits);
        starts = ih.starts;
        longest = λ f b e p s.
            let (f', e') = shorter c tail f b inside e s in
            ih.longest f' b e' (end_le f' b tail e') s;
      })
]

drop_end :
    (k : ℕ) (f b text : List ℕ)
    → f ++ b ≡ text
    → k + length b ≤ length text
    → (f' : List ℕ) × (f' ++ b ≡ drop k text)
drop_end zero f b text e p = (f, e)
drop_end (suc k) [] b [] e p = absurd (omega arith)
drop_end (suc k) [] b (c ∷ text) e p = absurd (omega (arith, ap length e))
drop_end (suc k) (d ∷ f) b [] e p = absurd (cc)
drop_end (suc k) (d ∷ f) b (c ∷ text) e p = drop_end k f b text (ground arith) (omega arith)

drop_cut : (k : ℕ) (text : List ℕ) → (front : List ℕ) × (front ++ drop k text ≡ text)
drop_cut zero text = ([], refl)
drop_cut (suc k) [] = ([], refl)
drop_cut (suc k) (c ∷ text) = let (f, e) = drop_cut k text in (c ∷ f, ap (◌∷◌ c) e)

trimmed :
    (text : List ℕ) (limit : ℕ)
    → limit < length text
    → IsPreview text limit (skip_continuation (drop (length text - limit) text))
trimmed text limit p =
    let k = length text - limit in
    let v = skip_lem (drop k text) in
    let (front, whole) = drop_cut k text in
    record {
      cut = front ++ v.cut;
      suffix = append_assoc front v.cut _ ∙ ap (λ t. front ++ t) v.suffix ∙ whole;
      fits = omega (arith, v.fits, length-drop k text);
      starts = v.starts;
      longest = λ f b e q s.
          let (f', e') = drop_end k f b text e (omega arith) in
          v.longest f' b e' (end_le f' b _ e') s;
    }

-- TrimExecPreview gives nothing for a limit that is not positive, the text itself if it fits, and
-- else the longest end of the text that has at most `limit` bytes and starts a character.
pub trim_exec_preview_lem :
    (text : List ℕ) (limit : ℕ)
    → ((positive64 limit ≡ false) × (trim_exec_preview text limit ≡ []))
      ⊎ ((length text ≤ limit) × (trim_exec_preview text limit ≡ text))
      ⊎ ((limit < length text) × IsPreview text limit (trim_exec_preview text limit))
unfolding trim_exec_preview
trim_exec_preview_lem text limit = elim (Bool-cases (positive64 limit)) [
  | inr e ↦ inl (e, rw e)
  | inl e ↦ elim (Bool-cases (leb (length text) limit)) [
    | inl f ↦ inr (inl (ground arith, rw (e, f)))
    | inr f ↦ inr (inr (ground arith, rw (e, f) (trimmed text limit (ground arith))))
  ]
]
