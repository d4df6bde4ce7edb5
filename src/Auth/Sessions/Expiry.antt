-- ===== src/Auth/Sessions/Expiry.antt =====
-- How the text of an expiry orders times.
use agentless_monitoring.Common.{
  bytes_less, ℕ, ◌/◌, ◌<◌, ◌≤◌, ◌≡◌, inl, inr, refl, true, false, [], ◌∷◌, ◌++◌, Bytes, ltb, length,
  arith, Bool-cases,
}
use agentless_monitoring.Auth.Sessions.{second, format_time}

-- The seconds from the year 1 to the end of the year 9999.
abbrev pub last_second : ℕ
last_second = 315537897599

-- What time.Format does with the seconds of these years: texts of one length, in the order of time.
pub record IsClockFormat (format_seconds : ℕ → Bytes) : Type 0 where
  pub increasing :
      (a b : ℕ) → a < b → b ≤ last_second → bytes_less (format_seconds a) (format_seconds b) ≡ true
  pub uniform :
      (a b : ℕ)
      → a ≤ last_second
      → b ≤ last_second
      → length (format_seconds a) ≡ length (format_seconds b)

bytes_less-append :
    (x y s t : Bytes)
    → length x ≡ length y
    → bytes_less x y ≡ true
    → bytes_less (x ++ s) (y ++ t) ≡ true
bytes_less-append [] [] s t n h = absurd (ground arith)
bytes_less-append [] (d ∷ y) s t n h = absurd (omega arith)
bytes_less-append (c ∷ x) [] s t n h = absurd (omega arith)
bytes_less-append (c ∷ x) (d ∷ y) s t n h = elim (Bool-cases (ltb c d)) [
  | inl e ↦ rw e refl
  | inr e ↦
      let rest : bytes_less x y ≡ true = ground arith in
      ground (arith, bytes_less-append x y s t (omega (arith, n)) rest)
]

bytes_less-asym : (x y : Bytes) → bytes_less x y ≡ true → bytes_less y x ≡ false
bytes_less-asym x [] h = absurd (ground arith)
bytes_less-asym [] (d ∷ y) h = refl
bytes_less-asym (c ∷ x) (d ∷ y) h = elim (Bool-cases (bytes_less x y)) [
  | inl e ↦ ground (arith, bytes_less-asym x y e)
  | inr e ↦ ground arith
]

module _ (format_seconds : ℕ → Bytes) (clock : IsClockFormat format_seconds) where
  -- A time in an earlier second has a smaller text.
  pub format_time-increasing :
      (a b : ℕ)
      → a / second < b / second
      → b / second ≤ last_second
      → bytes_less (format_time format_seconds a) (format_time format_seconds b) ≡ true
  unfolding format_time
  format_time-increasing a b h last =
      bytes_less-append (format_seconds (a / second)) (format_seconds (b / second)) _ _
        (clock.uniform _ _ (omega arith) last) (clock.increasing _ _ h last)

  -- A time with a greater text is in no earlier second.
  pub later_second :
      (a b : ℕ)
      → a / second ≤ last_second
      → bytes_less (format_time format_seconds a) (format_time format_seconds b) ≡ true
      → a / second ≤ b / second
  later_second a b last h = elim (Bool-cases (ltb (b / second) (a / second))) [
    | inl e ↦
        let reversed =
          bytes_less-asym (format_time format_seconds b) (format_time format_seconds a)
            (format_time-increasing b a (ground arith) last) in
        absurd (ground (arith, reversed, h))
    | inr e ↦ ground arith
  ]
