-- ===== src/Http/Batch/Scatter.antt =====
-- Where the answers of a batch go: the scatter of internal/adapters/http/batch.go.
use ortus.Common.{
  ℕ, zero, suc, ◌≡◌, refl, sym, ap, ◌∙◌, Option, none, some, List, [], ◌∷◌, ◌++◌, length,
  length-append, set, replicate, arith,
}
use mathlib.Core.List.{append_assoc}
use ortus.Common.Int.{ℤ}
use ortus.Domain.Types.{Coordinate, QueryResponse}
use ortus.Domain.Errors.{Result, ok, err, result_cases}
use ortus.Http.Batch.{BatchPoint, BatchInputs, BatchServer, coordinate, resolve_points, scatter}

-- The answers in order, one for each item that is no error.
unfoldable pub align : List (Result Coordinate) → List QueryResponse → List (Option QueryResponse)
align [] sub = []
align (err e ∷ items) sub = none ∷ align items sub
align (ok c ∷ items) [] = none ∷ align items []
align (ok c ∷ items) (r ∷ sub) = some r ∷ align items sub

set-append :
    {A : Type 0} (xs ys : List A) (a v : A) → set (xs ++ (a ∷ ys)) (length xs) v ≡ xs ++ (v ∷ ys)
set-append [] ys a v = refl
set-append (x ∷ xs) ys a v = ap (◌∷◌ x) (set-append xs ys a v)

length-snoc : {A : Type 0} (xs : List A) (a : A) → length (xs ++ (a ∷ [])) ≡ suc (length xs)
length-snoc xs a = omega (arith, length-append xs (a ∷ []))

-- What `scatter` makes of the inputs that are left, behind the answers that are in place.
abbrev Scattered : List (Option QueryResponse) → ℕ → BatchInputs → Type 0
Scattered done n q =
    (sub : List QueryResponse)
    → length sub ≡ length q.valid
    → scatter q.valid_idx sub (done ++ replicate n none) ≡ done ++ align q.items sub

-- One more answer, or none, is in place.
Scattered-snoc :
    (done : List (Option QueryResponse)) (x : Option QueryResponse) (n : ℕ) (q : BatchInputs)
    (sub : List QueryResponse)
    → Scattered (done ++ (x ∷ [])) n q
    → length sub ≡ length q.valid
    → scatter q.valid_idx sub (done ++ (x ∷ replicate n none)) ≡ done ++ (x ∷ align q.items sub)
Scattered-snoc done x n q sub h e =
    ap (scatter q.valid_idx sub) (sym (append_assoc done (x ∷ []) (replicate n none)))
    ∙ h sub e
    ∙ append_assoc done (x ∷ []) (align q.items sub)

module _ {W G : Type 0} (s : BatchServer W G) (srid : ℤ) where
  pub scatter-align :
      (points : List BatchPoint) (done : List (Option QueryResponse)) (i : ℕ)
      → i ≡ length done
      → Scattered done (length points) (resolve_points s srid i points)
  unfolding resolve_points scatter align
  scatter-align [] done i at = nothing
    where
      nothing : Scattered done zero (resolve_points s srid i [])
      nothing [] e = refl
      nothing (r ∷ sub) e = absurd (omega (arith, e))
  scatter-align (p ∷ points) done i at =
      let rest = λ (x : Option QueryResponse).
        scatter-align points (done ++ (x ∷ [])) (suc i) (ap suc at ∙ sym (length-snoc done x)) in
      result_cases (Scattered done (suc (length points))) (coordinate p srid)
        (λ e failed sub. Scattered-snoc done none (length points) left sub (rest none))
        (λ c found sub. placed c sub (rest (sub_head sub)))
    where
      left : BatchInputs
      left = resolve_points s srid (suc i) points

      sub_head : List QueryResponse → Option QueryResponse
      sub_head [] = none
      sub_head (r ∷ sub) = some r

      placed :
          (c : Coordinate) (sub : List QueryResponse)
          → Scattered (done ++ (sub_head sub ∷ [])) (length points) left
          → length sub ≡ suc (length left.valid)
          → scatter (i ∷ left.valid_idx) sub (done ++ (none ∷ replicate (length points) none))
            ≡ done ++ align (ok c ∷ left.items) sub
      placed c [] h e = absurd (omega arith)
      placed c (r ∷ sub) h e =
          ap (scatter left.valid_idx sub) (
            ap (λ k. set (done ++ (none ∷ replicate (length points) none)) k (some r)) at
            ∙ set-append done (replicate (length points) none) none (some r))
          ∙ Scattered-snoc done (some r) (length points) left sub h (omega (arith, e))
