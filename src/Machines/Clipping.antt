-- ===== src/Machines/Clipping.antt =====
-- How recordResult shortens its texts.
use agentless_monitoring.Common.{
  zero, suc, sym, ℕ, ◌≤◌, ◌≡◌, ◌≢◌, ◌⊎◌, ap, inl, inr, refl, true, [], ◌∷◌, ◌++◌, append-nil, Bytes,
  arith, ltb, length, length-take, take, drop, trim_space, Bool-cases, ◌==◌, if◌then◌else◌,
}
use agentless_monitoring.Machines.Record.{clip}

take-drop : (n : ℕ) (s : Bytes) → s ≡ take n s ++ drop n s
take-drop zero s = refl
take-drop (suc n) [] = refl
take-drop (suc n) (c ∷ s) = ap (◌∷◌ c) (take-drop n s)

-- The text that is kept if it fits: the given one without the spaces around it, or the fallback where
-- nothing else is left.
abbrev pub Chosen : Bytes → Bytes → Bytes → Type 0
Chosen fallback text t =
    ((trim_space text ≡ []) × (t ≡ fallback)) ⊎ ((trim_space text ≢ []) × (t ≡ trim_space text))

-- The longest beginning of the chosen text that has at most `limit` bytes.
pub record IsClipped (limit : ℕ) (fallback text s : Bytes) : Type 0 where
  pub whole : Bytes
  pub rest : Bytes
  pub chosen : Chosen fallback text whole
  pub cut : whole ≡ s ++ rest
  pub fits : length s ≤ limit
  pub longest : (rest ≡ []) ⊎ (length s ≡ limit)

take-IsClipped :
    (limit : ℕ) (fallback text whole : Bytes)
    → Chosen fallback text whole
    → IsClipped limit fallback text (if ltb limit (length whole) then take limit whole else whole)
take-IsClipped limit fallback text whole chosen = elim (Bool-cases (ltb limit (length whole))) [
  | inl e ↦
      let l = length-take {0} limit whole in
      rw e (record {
        whole = whole;
        rest = drop limit whole;
        chosen = chosen;
        cut = take-drop limit whole;
        fits = ground (arith, l);
        longest = inr (ground (arith, l));
      })
  | inr e ↦ rw e (record {
    whole = whole;
    rest = [];
    chosen = chosen;
    cut = sym (append-nil whole);
    fits = ground arith;
    longest = inl refl;
  })
]

length_zero : (s : Bytes) → (length s == 0) ≡ true → s ≡ []
length_zero [] h = refl
length_zero (c ∷ s) h = absurd (ground arith)

pub clip-IsClipped :
    (limit : ℕ) (fallback text : Bytes) → IsClipped limit fallback text (clip limit fallback text)
unfolding clip
clip-IsClipped limit fallback text = elim (Bool-cases (length (trim_space text) == 0)) [
  | inl e ↦
      rw e
        (take-IsClipped limit fallback text fallback (inl (length_zero (trim_space text) e, refl)))
  | inr e ↦ rw e (
      take-IsClipped limit fallback text (trim_space text)
        (inr ((λ h. ground (arith, ap (λ (x : Bytes). length x) h)), refl)))
]
