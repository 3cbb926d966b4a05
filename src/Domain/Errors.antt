-- ===== src/Domain/Errors.antt =====
-- The errors of internal/domain/errors.go that the services return, and results.
use ortus.Common.{◌≡◌, refl, Bool, true, false, List, Str}

pub data Error : Type 0 where
  source_not_found source_id_collision unsupported_source rate_limited : Error
  invalid_coordinate : Str → Error
  escapes_cache_dir : Error
  not_found gazetteer_disabled unsupported_projection : Error
  missing_fields : List Str → Error
  undefined_equivalent : Str → Error
  canceled deadline_exceeded : Error
  other : Str → Error

pub data Result {ℓ} (A : Type ℓ) : Type ℓ where
  ok : A → Result A
  err : Error → Result A

infixl 5 ◌>>=◌
abbrev pub ◌>>=◌ {ℓ κ} : {A : Type ℓ} {B : Type κ} → Result A → (A → Result B) → Result B
ok a >>= f = f a
err e >>= f = err e

-- `errors.Is(err, context.Canceled)`
unfoldable pub is_canceled : Error → Bool
is_canceled canceled = true
is_canceled _ = false

-- `errors.Is(err, domain.ErrNotFound)`; an `other` error is none of these.
unfoldable pub is_not_found : Error → Bool
is_not_found source_not_found = true
is_not_found not_found = true
is_not_found _ = false

unfoldable pub is_context_err : Error → Bool
is_context_err canceled = true
is_context_err deadline_exceeded = true
is_context_err _ = false

pub result_cases {ℓ κ μ} :
    {A : Type ℓ} {B : Type κ} (P : B → Type μ) (m : Result A) {f : A → B} {g : Error → B}
    → ((e : Error) → m ≡ err e → P (g e))
    → ((a : A) → m ≡ ok a → P (f a))
    → P (elim m [ ok a ↦ f a | err e ↦ g e ])
result_cases P (ok a) h k = k a refl
result_cases P (err e) h k = h e refl
