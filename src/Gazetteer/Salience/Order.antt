-- ===== src/Gazetteer/Salience/Order.antt =====
-- The orders of internal/application/gazetteer/salience.go among candidates whose distance is a
-- number.
use ortus.Common.{
  ◌≡◌, refl, sym, ◌∙◌, Bool, true, false, not, ◌&&◌, ◌||◌, [], ◌∷◌, Str, arith, if◌then◌else◌,
}
use ortus.Common.Int.{ℤ, ltb_ℤ}
use ortus.Common.Float.{float_lt, float_eq, float_key, is_nan}
use ortus.Gazetteer.Salience.{Candidate, str_lt, nearer, more_salient}
use ortus.Gazetteer.Salience.Best.{IsOrderOn}

pub str_lt_asym : (s t : Str) → str_lt s t ≡ true → str_lt t s ≡ false
unfolding str_lt
str_lt_asym [] [] h = refl
str_lt_asym (x ∷ xs) [] h = cc
str_lt_asym [] (y ∷ ys) h = refl
str_lt_asym (x ∷ xs) (y ∷ ys) h = ground (arith, h, str_lt_asym xs ys)

pub str_lt_trans : (s t u : Str) → str_lt t s ≡ false → str_lt u t ≡ false → str_lt u s ≡ false
unfolding str_lt
str_lt_trans [] t [] h k = refl
str_lt_trans [] t (z ∷ zs) h k = refl
str_lt_trans (x ∷ xs) [] u h k = cc
str_lt_trans (x ∷ xs) (y ∷ ys) [] h k = cc
str_lt_trans (x ∷ xs) (y ∷ ys) (z ∷ zs) h k = ground (arith, h, k, str_lt_trans xs ys zs)

pub str_lt_total : (s t : Str) → str_lt s t ≡ false → str_lt t s ≡ false → s ≡ t
unfolding str_lt
str_lt_total [] [] h k = refl
str_lt_total [] (y ∷ ys) h k = cc
str_lt_total (x ∷ xs) [] h k = cc
str_lt_total (x ∷ xs) (y ∷ ys) h k = ground (arith, h, k, str_lt_total xs ys)

-- An order by a key that is a number, and then by another one.
abbrev by_key : ℤ → ℤ → Bool → Bool
by_key i j less = if ltb_ℤ i j || ltb_ℤ j i then ltb_ℤ i j else less

by_key_asym :
    (i j : ℤ) (s t : Bool) → (s ≡ true → t ≡ false) → by_key i j s ≡ true → by_key j i t ≡ false
by_key_asym i j s t h k = ground (arith, h, k)

by_key_trans :
    (i j k : ℤ) (s t u : Bool)
    → (s ≡ false → t ≡ false → u ≡ false)
    → by_key j i s ≡ false
    → by_key k j t ≡ false
    → by_key k i u ≡ false
by_key_trans i j k s t u h a b = ground (arith, h, a, b)

-- The distance is a number.
abbrev pub IsMeasured : Candidate → Type 0
IsMeasured c = is_nan c.distance_km ≡ false

nearer-by_key :
    (a b : Candidate)
    → IsMeasured a
    → IsMeasured b
    → nearer a b
      ≡ by_key
          (float_key a.distance_km)
          (float_key b.distance_km)
          (str_lt a.place.name b.place.name)
unfolding nearer float_eq float_lt
nearer-by_key a b m n =
    measured (float_key a.distance_km) (float_key b.distance_km) (is_nan a.distance_km)
      (is_nan b.distance_km) _ m n
  where
    measured :
        (i j : ℤ) (p q s : Bool)
        → p ≡ false
        → q ≡ false
        → (if not (not p && (not q && (not (ltb_ℤ i j) && not (ltb_ℤ j i))))
            then not p && (not q && ltb_ℤ i j)
            else s)
          ≡ by_key i j s
    measured i j p q s m n = ground (arith, m, n)

pub nearer-IsOrderOn : IsOrderOn IsMeasured nearer
nearer-IsOrderOn = record {
  asym = λ a b m n h.
      nearer-by_key b a n m
      ∙ by_key_asym (float_key a.distance_km) (float_key b.distance_km) _ _
          (str_lt_asym a.place.name b.place.name) (sym (nearer-by_key a b m n) ∙ h);
  trans = λ a b c m n o h k.
      nearer-by_key c a o m
      ∙ by_key_trans (float_key a.distance_km) (float_key b.distance_km) (float_key c.distance_km) _
          _ _ (str_lt_trans a.place.name b.place.name c.place.name)
          (sym (nearer-by_key b a n m) ∙ h) (sym (nearer-by_key c b o n) ∙ k);
}

pub more_salient-IsOrderOn : IsOrderOn IsMeasured more_salient
unfolding more_salient
more_salient-IsOrderOn = record {
  asym = λ a b m n h. ground (arith, h, nearer-IsOrderOn.asym a b m n);
  trans = λ a b c m n o h k. ground (arith, h, k, nearer-IsOrderOn.trans a b c m n o);
}
