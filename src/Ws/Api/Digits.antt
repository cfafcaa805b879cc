-- ===== src/Ws/Api/Digits.antt =====
-- The fuel of the digits in a message of ws/eventapi.go.
use minipush.Base.{
  ℕ, zero, suc, ◌+◌, ◌/◌, ◌^◌, ◌<◌, ltb, ◌≡◌, ◌⊎◌, refl, ap, ◌∙◌, true, arith, inl, inr,
}
use minipush.Ws.Api.{digits}

-- The rounds that are given reach a number of one digit.
abbrev Enough : ℕ → ℕ → Type 0
Enough zero n = ⊥
Enough (suc fuel) n = (n < 10) ⊎ Enough fuel (n / 10)

next_round : (fuel extra : ℕ) → suc fuel + extra ≡ suc (fuel + extra)
next_round fuel extra = omega arith

one_digit : (n : ℕ) → n < 10 → ltb n 10 ≡ true
one_digit n h = ground arith

more_fuel : (fuel extra n : ℕ) → Enough fuel n → digits (fuel + extra) n ≡ digits fuel n
unfolding digits
more_fuel zero extra n e = absurd e
more_fuel (suc fuel) extra n (inl small) =
    ap (λ k. digits k n) (next_round fuel extra) ∙ rw (one_digit n small) refl
more_fuel (suc fuel) extra n (inr e) =
    ap (λ k. digits k n) (next_round fuel extra) ∙ rw (more_fuel fuel extra (n / 10) e) refl

-- For the size of an int32, ten rounds give the same digits as any greater number of rounds.
pub digits_enough : (extra n : ℕ) → n < 2 ^ 32 → digits (10 + extra) n ≡ digits 10 n
digits_enough extra n h =
    more_fuel 10 extra n (inr (inr (inr (inr (inr (inr (inr (inr (inr (inl (omega arith)))))))))))
