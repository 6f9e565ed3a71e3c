-- ===== src/Throttle/Hours.antt =====
-- `in_active_hours` of src/impostarr/throttle.py, on the texts that its comment describes.
use impostarr.Prelude.{
  ℕ, zero, suc, ◌+◌, ◌-◌, ◌/◌, ◌%◌, ◌≤◌, ◌<◌, ◌≡◌, ap, ◌∙◌, inl, inr, Bool-cases, some, List, [],
  ◌∷◌, ◌++◌, arith, ltb, leb,
}
use impostarr.Text.{pad2, decimal}
use impostarr.Throttle.{in_active_hours, in_range, split_dash, digits, to_int, both, between}

-- "HH-HH"
abbrev pub hours : ℕ → ℕ → List ℕ
hours start end = pad2 start ++ 45 ∷ pad2 end

-- Hours after `start`, on a clock of 24.
abbrev pub after : ℕ → ℕ → ℕ
after start hour = (hour + 24 - start) % 24

decimal_two : (n : ℕ) → 10 ≤ n → n < 100 → decimal (suc n) n [] ≡ (48 + n / 10) ∷ (48 + n % 10) ∷ []
unfolding decimal
decimal_two zero l h = ground arith
decimal_two (suc zero) l h = ground arith
decimal_two (suc (suc n)) l h = ground arith

pad2_two : (n : ℕ) → n < 100 → pad2 n ≡ (48 + n / 10) ∷ (48 + n % 10) ∷ []
unfolding pad2
pad2_two n h = elim (Bool-cases (ltb n 10)) [
  | inl l ↦ rw (l) (ground arith)
  | inr l ↦ ground (arith, decimal_two n)
]

to_int_two : (n : ℕ) → n < 100 → to_int ((48 + n / 10) ∷ (48 + n % 10) ∷ []) ≡ some n
unfolding to_int digits
to_int_two n h = ground arith

split_hours :
    (a b : ℕ) (rest : List ℕ)
    → split_dash ((48 + a) ∷ (48 + b) ∷ 45 ∷ rest) ≡ some ((48 + a) ∷ (48 + b) ∷ [], rest)
unfolding split_dash
split_hours a b rest = ground arith

range-clock :
    (start end hour : ℕ)
    → start < 24
    → end < 24
    → hour < 24
    → in_range start end hour ≡ leb (after start hour) (after start end)
range-clock start end hour s e h = ground arith

-- On a range "HH-HH" of two hours, `in_active_hours` says whether the clock, running from the first
-- hour, comes to the hour no later than to the second: also where the range wraps past midnight.
pub in_active_hours-clock :
    (start end hour : ℕ)
    → start < 24
    → end < 24
    → hour < 24
    → in_active_hours (some (hours start end)) hour
      ≡ some (leb (after start hour) (after start end))
unfolding in_active_hours between both
in_active_hours-clock start end hour s e h =
    rw (pad2_two start (omega arith), pad2_two end (omega arith))
      (ap (λ o. between o hour)
          (split_hours (start / 10) (start % 10) ((48 + end / 10) ∷ (48 + end % 10) ∷ []))
        ∙ (λ i. both (to_int_two start (omega arith) i) (to_int_two end (omega arith) i) hour)
        ∙ ap some (range-clock start end hour s e h))
