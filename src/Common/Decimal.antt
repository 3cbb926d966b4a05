-- ===== src/Common/Decimal.antt =====
-- Go's `strconv.Atoi`: a sign, then decimal digits, within 64 bits; and `strconv.Itoa` of a natural
-- number.
pub mod Print
use ortus.Common.Base.{
  ℕ, zero, suc, ◌+◌, ◌-◌, ◌*◌, ◌/◌, ◌%◌, ◌^◌, ◌++◌, Bool, ◌&&◌, Option, none, some, List, [], ◌∷◌,
}
use ortus.Common.Tests.{leb, ltb, ◌==◌, if◌then◌else◌}
use ortus.Common.Bytes.{Str}
use ortus.Common.Int.{ℤ, pos, sub_ℕ}

abbrev is_digit : ℕ → Bool
is_digit c = leb b'0' c && leb c b'9'

-- The digits, after those whose value is `n`.
unfoldable pub digits : ℕ → Str → Option ℕ
digits n [] = some n
digits n (c ∷ s) = if is_digit c then digits (n * 10 + (c - b'0')) s else none

-- At least one digit.
unfoldable pub natural : Str → Option ℕ
natural [] = none
natural (c ∷ s) = digits 0 (c ∷ s)

-- The digits of `n`, of which there are no more than `fuel` + 1.
unfoldable pub decimal : ℕ → ℕ → Str
decimal zero n = (b'0' + n % 10) ∷ []
decimal (suc fuel) n =
    let higher = decimal fuel (n / 10) in
    if ltb n 10 then (b'0' + n) ∷ [] else higher ++ ((b'0' + n % 10) ∷ [])

-- A number has no more digits than its value, so the fuel is enough.
unfoldable pub itoa : ℕ → Str
itoa n = decimal n n

unfoldable pub atoi : Str → Option ℤ
atoi [] = none
atoi (c ∷ s) =
    if c == b'-'
    then elim (natural s) [
      | none ↦ none
      | some n ↦ if leb n (2 ^ 63) then some (sub_ℕ 0 n) else none
    ]
    else elim (natural (if c == b'+' then s else c ∷ s)) [
      | none ↦ none
      | some n ↦ if ltb n (2 ^ 63) then some (pos n) else none
    ]
