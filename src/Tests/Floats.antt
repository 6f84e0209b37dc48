-- ===== src/Tests/Floats.antt =====
-- Fractions as the floats of the tests: they meet the laws that the theorems assume of float64.
use mathlib.Core.Path.{ap₂}
use native.Mathlib.Decide.{dec_lt}
use pixels_spike.Base.{
  ℕ, zero, suc, ◌+◌, ◌-◌, ◌*◌, ◌/◌, ap, ◌<◌, ◌≤◌, ◌≡◌, refl, ◌∙◌, Bool, false, arith, ltb,
  if◌then◌else◌,
}
use pixels_spike.Base.Float.{FloatOps, DivisionKeepsOrder}
use pixels_spike.Base.Int.{ℤ, pos, negsuc, pos_part, neg_part, sub_ℕ, ltb_ℤ, ◌<ℤ◌}

-- A numerator over a natural denominator; `nan` stands for what has no value.
pub data Fraction : Type 0 where
  frac : ℤ → ℕ → Fraction
  nan : Fraction

abbrev pub scale : ℤ → ℕ → ℤ
scale (pos n) k = pos (n * k)
scale (negsuc n) zero = pos 0
scale (negsuc n) (suc k) = negsuc (suc n * suc k - 1)

abbrev pub over : ℤ → ℕ → Fraction → Fraction
over a b (frac (pos (suc c)) d) = frac (scale a d) (b * suc c)
over a b x = nan

abbrev pub divide : Fraction → Fraction → Fraction
divide (frac a b) x = over a b x
divide nan x = nan

abbrev pub less : Fraction → Fraction → Bool
less (frac a b) (frac c d) = ltb_ℤ (scale a d) (scale c b)
less x y = false

abbrev pub plus : Fraction → Fraction → Fraction
plus (frac a b) (frac c d) =
    frac
      (sub_ℕ (pos_part (scale a d) + pos_part (scale c b))
        (neg_part (scale a d) + neg_part (scale c b)))
      (b * d)
plus x y = nan

abbrev pub times : Fraction → Fraction → Fraction
times (frac a b) (frac (pos c) d) = frac (scale a c) (b * d)
times x y = nan

-- Half away from zero, for what is not negative.
abbrev pub round : Fraction → ℤ
round (frac (pos a) (suc b)) = pos ((2 * a + suc b) / (2 * suc b))
round x = pos 0

abbrev pub fractions : FloatOps Fraction
fractions = record {
  of_int = λ n. frac n 1;
  round_int32 = round;
  add = plus;
  mul = times;
  div = divide;
  lt = less;
  maximum = λ x y. if less x y then y else x;
}

mul_le : (x y c : ℕ) → x ≤ y → x * suc c ≤ y * suc c
mul_le x y c h = grind arith

mul_lt : (x y c : ℕ) → x < y → x * suc c < y * suc c
mul_lt x y c h = let below = mul_le (suc x) y c h in omega arith

ltb-mul : (x y c : ℕ) → ltb (x * suc c) (y * suc c) ≡ ltb x y
ltb-mul x y c = elim (dec_lt x y) [
  | yes p ↦ let more = mul_lt x y c p in ground arith
  | no p ↦ let fewer = mul_le y x c (omega arith) in ground arith
]

scale_parts :
    (a : ℤ) (k : ℕ)
    → (pos_part (scale a (suc k)) ≡ pos_part a * suc k)
      × (neg_part (scale a (suc k)) ≡ neg_part a * suc k)
scale_parts (pos n) k = (refl, omega arith)
scale_parts (negsuc n) k = (omega arith, grind arith)

ltb-scale : (a b : ℤ) (c : ℕ) → ltb_ℤ (scale a (suc c)) (scale b (suc c)) ≡ ltb_ℤ a b
ltb-scale a b c =
    let (pa, na) = scale_parts a c in
    let (pb, nb) = scale_parts b c in
    rw (pa, na, pb, nb)
      (ap₂ ltb (regroup (pos_part a) (neg_part b) (suc c))
          (regroup (pos_part b) (neg_part a) (suc c))
        ∙ ltb-mul (pos_part a + neg_part b) (pos_part b + neg_part a) c)
  where
    regroup : (x y k : ℕ) → x * k + y * k ≡ (x + y) * k
    regroup x y k = omega arith

scale_one : (a : ℤ) → scale a 1 ≡ a
scale_one (pos n) = ap pos (omega arith)
scale_one (negsuc n) = ap negsuc (omega arith)

lt-fractions :
    (a b c : ℤ)
    → pos 0 <ℤ c
    → less (divide (frac a 1) (frac c 1)) (divide (frac b 1) (frac c 1)) ≡ ltb_ℤ a b
lt-fractions a b (pos zero) h = absurd (omega arith)
lt-fractions a b (pos (suc c)) h = rw (scale_one a, scale_one b, one_mul c) (ltb-scale a b c)
  where
    one_mul : (k : ℕ) → 1 * suc k ≡ suc k
    one_mul k = omega arith
lt-fractions a b (negsuc n) h = absurd (omega arith)

pub fractions-DivisionKeepsOrder : DivisionKeepsOrder fractions
fractions-DivisionKeepsOrder = record { lt-div = λ a b c _ _ _ h. lt-fractions a b c h }
