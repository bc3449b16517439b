-- ===== src/Bytes/Xor.antt =====
-- The exclusive or of the native numbers: taken twice with the same number, it changes nothing.
use Prim.Native.Nat.{differ, digits, bit_xor, bit_xor-bitwise}
use rmvl.Prelude.{arith, refl, suc, zero, ℕ, ◌%◌, ◌*◌, ◌+◌, ◌/◌, ◌<◌, ◌≡◌, ◌≤◌}

-- More rounds than the number needs change nothing.
more_rounds :
    (n m a b : ℕ) → a ≤ n → a ≤ m → digits (λ y. y) differ n a b ≡ digits (λ y. y) differ m a b
more_rounds zero zero a b h k = refl
more_rounds zero (suc m) zero b h k = refl
more_rounds (suc n) zero zero b h k = refl
more_rounds (suc n) (suc m) zero b h k = refl
more_rounds zero (suc m) (suc a) b h k = absurd (omega arith)
more_rounds (suc n) zero (suc a) b h k = absurd (omega arith)
more_rounds (suc n) (suc m) (suc a) b h k =
    rw (more_rounds n m (suc a / 2) (b / 2) (omega arith) (omega arith)) refl

pub bit_xor_step : (a b : ℕ) → bit_xor a b ≡ bit_xor (a / 2) (b / 2) * 2 + differ (a % 2) (b % 2)
bit_xor_step zero b = simp bit_xor-bitwise (omega arith)
bit_xor_step (suc a) b =
    simp bit_xor-bitwise
      (omega (arith, more_rounds a (suc a / 2) (suc a / 2) (b / 2) (omega arith) (omega arith)))

differ_bit : (a b : ℕ) → a < 2 → b < 2 → (differ a b < 2) × (differ (differ a b) b ≡ a)
differ_bit zero zero h k = (omega arith, refl)
differ_bit zero (suc zero) h k = (omega arith, refl)
differ_bit (suc zero) zero h k = (omega arith, refl)
differ_bit (suc zero) (suc zero) h k = (omega arith, refl)
differ_bit a (suc (suc b)) h k = absurd (omega arith)
differ_bit (suc (suc a)) b h k = absurd (omega arith)

cancel : (n a b : ℕ) → a ≤ n → b ≤ n → bit_xor (bit_xor a b) b ≡ a
cancel zero zero zero h k = refl
cancel zero (suc a) b h k = absurd (omega arith)
cancel zero a (suc b) h k = absurd (omega arith)
cancel (suc n) a b h k =
    let x = bit_xor (a / 2) (b / 2) in
    let (small, back) = differ_bit (a % 2) (b % 2) (omega arith) (omega arith) in
    let low : bit_xor a b % 2 ≡ differ (a % 2) (b % 2) = omega (arith, bit_xor_step a b) in
    let high : bit_xor a b / 2 ≡ x = omega (arith, bit_xor_step a b) in
    let again : bit_xor (bit_xor a b) b
        ≡ bit_xor x (b / 2) * 2 + differ (differ (a % 2) (b % 2)) (b % 2) =
      rw (← high, ← low) (bit_xor_step (bit_xor a b) b) in
    omega (arith, again, back, cancel n (a / 2) (b / 2) (omega arith) (omega arith))

-- The operation undoes itself.
pub bit_xor-cancel : (a b : ℕ) → bit_xor (bit_xor a b) b ≡ a
bit_xor-cancel a b = cancel (a + b) a b (omega arith) (omega arith)
