-- ===== src/L2/Gcd/Divides.antt =====
-- `gcd_u32` and `gcd_all` are the greatest common divisors.
use tsn_fieldbus.Base.{
  ◌↔◌, ℕ, ◌+◌, ◌*◌, ◌-◌, ◌/◌, ◌%◌, ◌<◌, ◌≡◌, sym, ◌∙◌, ap, List, [], ◌∷◌, All, arith,
}
use tsn_fieldbus.Base.Order.{lt_wf}
use tsn_fieldbus.L2.Gcd.{gcd_loop, gcd_u32, gcd_rest, gcd_all, mod_smaller}
use mathlib.Core.Logic.{dif_pos, dif_neg}
use mathlib.Core.WellFounded.{Acc}
use native.Mathlib.Decide.{dec_lt}
use native.Mathlib.Bridge.{le_prop}
use native.Mathlib.Nat.{div-add-mod', mul_assoc, add-mul, mul_comm, mul-sub}

-- `d` divides `n`.
abbrev pub Divides : ℕ → ℕ → Type 0
Divides d n = (k : ℕ) × (n ≡ k * d)

Divides-refl : (d : ℕ) → Divides d d
Divides-refl d = (1, omega arith)

Divides-zero : (d : ℕ) → Divides d 0
Divides-zero d = (0, omega arith)

pub Divides-trans : (d e n : ℕ) → Divides d e → Divides e n → Divides d n
Divides-trans d e n (k, he) (j, hn) = (j * k, hn ∙ ap (λ t. j * t) he ∙ sym (mul_assoc j k d))

add_multiple : (d q b r n : ℕ) → n ≡ q * b + r → Divides d b → Divides d r → Divides d n
add_multiple d q b r n e (k, hb) (j, hr) = (q * k + j, rw (add-mul, mul_assoc) (e ∙ rw (hb, hr)))

-- A common divisor of `a` and `b` divides the remainder.
mod_multiple : (d a b : ℕ) → Divides d a → Divides d b → Divides d (a % b)
mod_multiple d a b (k, ha) (j, hb) = (
  k - a / b * j,
  omega (
    arith,
    div-add-mod' a b,
    ap (λ (t : ℕ). a / b * t) hb,
    mul_assoc (a / b) j d,
    mul_comm (k - a / b * j) d,
    mul-sub d k (a / b * j),
    mul_comm d k,
    mul_comm d (a / b * j),
  ),
)

module _ (a b : ℕ) (smaller : (y : ℕ) → y < b → Acc ◌<◌ y) where
  gcd_loop_pos :
      (h : 0 < b)
      → gcd_loop a b (Acc.intro b smaller)
        ≡ gcd_loop b (a % b) (smaller (a % b) (mod_smaller a b h))
  unfolding gcd_loop
  gcd_loop_pos h = dif_pos (dec_lt 0 b) le_prop h _ _

  gcd_loop_zero : ¬ (0 < b) → gcd_loop a b (Acc.intro b smaller) ≡ a
  unfolding gcd_loop
  gcd_loop_zero h = dif_neg (dec_lt 0 b) h _ _

-- What makes `g` the greatest common divisor of `a` and `b`.
pub record IsGcd (g a b : ℕ) : Type 0 where
  pub divides_left : Divides g a
  pub divides_right : Divides g b
  pub greatest : (d : ℕ) → Divides d a → Divides d b → Divides d g

gcd_loop-IsGcd : (a b : ℕ) (w : Acc ◌<◌ b) → IsGcd (gcd_loop a b w) a b
gcd_loop-IsGcd a b (Acc.intro _ smaller) = elim (dec_lt 0 b) [
  | yes h ↦
      let rest : IsGcd (gcd_loop b (a % b) (smaller (a % b) (mod_smaller a b h))) b (a % b) =
        gcd_loop-IsGcd b (a % b) (smaller (a % b) (mod_smaller a b h)) in
      rw (gcd_loop_pos a b smaller h) (record {
        divides_left =
            add_multiple _ (a / b) b (a % b) a (sym (div-add-mod' a b)) rest.divides_left
              rest.divides_right;
        divides_right = rest.divides_left;
        greatest = λ d da db. rest.greatest d db (mod_multiple d a b da db);
      })
  | no h ↦
      let none_left : b ≡ 0 = omega arith in
      rw (gcd_loop_zero a b smaller h) (record {
        divides_left = Divides-refl a;
        divides_right = rw none_left (Divides-zero a);
        greatest = λ d da db. da;
      })
]

-- The loop ends with the greatest common divisor of any two numbers.
pub gcd_u32-IsGcd : (a b : ℕ) → IsGcd (gcd_u32 a b) a b
unfolding gcd_u32
gcd_u32-IsGcd a b = gcd_loop-IsGcd a b (lt_wf.apply b)

All-Divides-trans : (d e : ℕ) (xs : List ℕ) → Divides d e → All (Divides e) xs → All (Divides d) xs
All-Divides-trans d e [] h k = tt
All-Divides-trans d e (x ∷ xs) h (kx, k) = (Divides-trans d e x h kx, All-Divides-trans d e xs h k)

gcd_rest-Divides :
    (acc : ℕ) (xs : List ℕ) → Divides (gcd_rest acc xs) acc × All (Divides (gcd_rest acc xs)) xs
unfolding gcd_rest
gcd_rest-Divides acc [] = (Divides-refl acc, tt)
gcd_rest-Divides acc (x ∷ xs) =
    let g = gcd_u32-IsGcd acc x in
    let (first, others) = gcd_rest-Divides (gcd_u32 acc x) xs in
    (Divides-trans _ _ _ first g.divides_left, (Divides-trans _ _ _ first g.divides_right, others))

gcd_rest_greatest :
    (d acc : ℕ) (xs : List ℕ) → Divides d acc → All (Divides d) xs → Divides d (gcd_rest acc xs)
unfolding gcd_rest
gcd_rest_greatest d acc [] h k = h
gcd_rest_greatest d acc (x ∷ xs) h (kx, k) =
    gcd_rest_greatest d (gcd_u32 acc x) xs ((gcd_u32-IsGcd acc x).greatest d h kx) k

-- `gcd_all` divides every number of the list.
gcd_all-Divides : (values : List ℕ) → All (Divides (gcd_all values)) values
unfolding gcd_all
gcd_all-Divides [] = tt
gcd_all-Divides (x ∷ xs) = gcd_rest-Divides x xs

-- Every common divisor of the list divides `gcd_all`.
gcd_all_greatest : (d : ℕ) (values : List ℕ) → All (Divides d) values → Divides d (gcd_all values)
unfolding gcd_all
gcd_all_greatest d [] h = Divides-zero d
gcd_all_greatest d (x ∷ xs) (h, k) = gcd_rest_greatest d x xs h k

-- A number divides `gcd_all` exactly when it divides every number of the list: `gcd_all` is the greatest
-- common divisor, and 0 for a list without a number other than 0.
pub gcd_all_iff : (d : ℕ) (values : List ℕ) → Divides d (gcd_all values) ↔ All (Divides d) values
gcd_all_iff d values = (
  λ h. All-Divides-trans d (gcd_all values) values h (gcd_all-Divides values),
  gcd_all_greatest d values,
)
