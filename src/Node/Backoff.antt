-- ===== src/Node/Backoff.antt =====
-- The delay before a node reconnects: crates/stackhour-node/src/backoff.rs. A `Duration` is its
-- milliseconds; `jitter` stands for the product of a length and the random fraction, which is a
-- floating-point number in [0, 1).
use stackhour.Prelude.{
  ℕ, ◌+◌, ◌-◌, ◌*◌, ◌/◌, ◌^◌, ◌%◌, ◌≤◌, min, ◌≡◌, ◌==◌, true, Bool-cases, ==_iff, ap, ◌∙◌, inl, inr,
  ◌||◌, if◌then◌else◌, arith,
}

abbrev pub u64_modulus : ℕ
u64_modulus = 2 ^ 64

abbrev pub saturating_mul : ℕ → ℕ → ℕ
saturating_mul a b = min (a * b) (u64_modulus - 1)

-- The exponential step, clamped to the maximum. `shift` is at most 32, so the shifted 1 has no
-- overflow.
unfoldable pub capped_delay : (attempt base max : ℕ) → ℕ
capped_delay attempt base max =
    let shift = min (attempt - 1) 32 in
    min (saturating_mul (base % u64_modulus) (2 ^ shift)) (max % u64_modulus)

unfoldable pub delay : (jitter : ℕ → ℕ) → (attempt base max : ℕ) → ℕ
unfolding capped_delay
delay jitter attempt base max =
    if (base % u64_modulus == 0) || (max % u64_modulus == 0)
    then 0
    else (let half = capped_delay attempt base max / 2 in half + jitter half)

min_le_right : (a b : ℕ) → min a b ≤ b
min_le_right a b = ground arith

min-zero : (a : ℕ) → min a 0 ≡ 0
min-zero a = ground arith

zero_step : (s m : ℕ) → min (saturating_mul 0 s) m ≡ 0
zero_step s m = omega arith

mod_le : (n : ℕ) → n % u64_modulus ≤ n
mod_le n = omega arith

capped_delay-le : (attempt base max : ℕ) → capped_delay attempt base max ≤ max
unfolding capped_delay
capped_delay-le attempt base max = omega (
  arith,
  min_le_right (saturating_mul (base % u64_modulus) (2 ^ min (attempt - 1) 32)) (max % u64_modulus),
  mod_le max,
)

capped_delay-zero :
    (attempt base max : ℕ)
    → ((base % u64_modulus == 0) || (max % u64_modulus == 0)) ≡ true
    → capped_delay attempt base max ≡ 0
unfolding capped_delay
capped_delay-zero attempt base max h = elim (Bool-cases (base % u64_modulus == 0)) [
  | inl p ↦
      ap (λ (b : ℕ). min (saturating_mul b (2 ^ min (attempt - 1) 32)) (max % u64_modulus))
        ((==_iff (base % u64_modulus) 0).0 p)
      ∙ zero_step _ _
  | inr p ↦
      ap (λ (m : ℕ). min (saturating_mul (base % u64_modulus) (2 ^ min (attempt - 1) 32)) m)
        ((==_iff (max % u64_modulus) 0).0 (rw p at h))
      ∙ min-zero _
]

-- The delay lies between half the capped step and the whole of it, which is at most the maximum.
pub delay-bounds :
    (jitter : ℕ → ℕ) (attempt base max : ℕ)
    → ((n : ℕ) → jitter n ≤ n)
    → (capped_delay attempt base max / 2 ≤ delay jitter attempt base max)
      × (delay jitter attempt base max ≤ capped_delay attempt base max)
      × (capped_delay attempt base max ≤ max)
unfolding delay
delay-bounds jitter attempt base max bounded =
    elim (Bool-cases ((base % u64_modulus == 0) || (max % u64_modulus == 0))) [
      | inl p ↦ (
        ground (arith, capped_delay-zero attempt base max p),
        ground (arith, capped_delay-zero attempt base max p),
        capped_delay-le attempt base max,
      )
      | inr p ↦ (
        ground (arith, bounded (capped_delay attempt base max / 2)),
        ground (arith, bounded (capped_delay attempt base max / 2)),
        capped_delay-le attempt base max,
      )
    ]
