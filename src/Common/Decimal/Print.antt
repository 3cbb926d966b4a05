-- ===== src/Common/Decimal/Print.antt =====
-- A number that is printed is read back, whatever it is: the fuel of the printing is enough.
use ortus.Common.Base.{
  ℕ, zero, suc, ◌+◌, ◌-◌, ◌*◌, ◌/◌, ◌%◌, ◌≤◌, ◌<◌, ◌≡◌, refl, ◌∙◌, ap, some, [], ◌∷◌, ◌++◌, arith,
  inl, inr,
}
use ortus.Common.Tests.{ltb, Bool-cases, if_cases}
use ortus.Common.Bytes.{Str}
use ortus.Common.Decimal.{digits, natural, decimal, itoa}

digits-append :
    (m k d : ℕ) (s : Str)
    → d < 10
    → digits m s ≡ some k
    → digits m (s ++ ((b'0' + d) ∷ [])) ≡ some (k * 10 + d)
unfolding digits
digits-append m k d [] h e = ground (arith, h, e)
digits-append m k d (c ∷ s) h e = ground (arith, e, digits-append (m * 10 + (c - b'0')) k d s h)

digits-decimal : (fuel n : ℕ) → n ≤ fuel → digits 0 (decimal fuel n) ≡ some n
unfolding decimal digits
digits-decimal zero n h = ground (arith, h)
digits-decimal (suc fuel) n h = elim (Bool-cases (ltb n 10)) [
  | inl small ↦ ground (arith, small)
  | inr large ↦
      rw (decimal, large)
        (digits-append 0 (n / 10) (n % 10) (decimal fuel (n / 10)) (omega arith)
            (digits-decimal fuel (n / 10) (ground (arith, large, h)))
          ∙ ap some (omega arith))
]

natural-snoc : (s : Str) (d : ℕ) → natural (s ++ (d ∷ [])) ≡ digits 0 (s ++ (d ∷ []))
unfolding natural
natural-snoc [] d = refl
natural-snoc (c ∷ s) d = refl

-- What is printed has a digit.
decimal-cons : (fuel n : ℕ) → natural (decimal fuel n) ≡ digits 0 (decimal fuel n)
unfolding natural decimal
decimal-cons zero n = refl
decimal-cons (suc fuel) n =
    if_cases (λ s. natural s ≡ digits 0 s) (ltb n 10) (λ small. refl)
      (λ large. natural-snoc (decimal fuel (n / 10)) (b'0' + n % 10))

pub natural-itoa : (n : ℕ) → natural (itoa n) ≡ some n
unfolding itoa
natural-itoa n = decimal-cons n n ∙ digits-decimal n n (omega arith)
