-- ===== src/Prelude/Wrap.antt =====
-- Laws of the integers, and of sums that wrap around as Go's int32 does.
use mathlib.Core.Path.{◌≡◌, ◌∙◌, ap}
use native.Mathlib.Omega.{arith}
use stripe_payment_integrati.Prelude.Int.{ℤ, pos, negsuc, int32, ◌+ℤ◌}

pub wrap_left : (a b : ℤ) → int32 (int32 a +ℤ b) ≡ int32 (a +ℤ b)
unfolding int32 ◌+ℤ◌
wrap_left (pos a) (pos b) = ground arith
wrap_left (negsuc a) (pos b) = ground arith
wrap_left (pos a) (negsuc b) = ground arith
wrap_left (negsuc a) (negsuc b) = ground arith

pub add_comm : (a b : ℤ) → a +ℤ b ≡ b +ℤ a
unfolding ◌+ℤ◌
add_comm (pos a) (pos b) = ground arith
add_comm (negsuc a) (pos b) = ground arith
add_comm (pos a) (negsuc b) = ground arith
add_comm (negsuc a) (negsuc b) = ground arith

pub add_assoc : (a b c : ℤ) → (a +ℤ b) +ℤ c ≡ a +ℤ (b +ℤ c)
unfolding ◌+ℤ◌
add_assoc (pos a) (pos b) (pos c) = ground arith
add_assoc (negsuc a) (pos b) (pos c) = ground arith
add_assoc (pos a) (negsuc b) (pos c) = ground arith
add_assoc (negsuc a) (negsuc b) (pos c) = ground arith
add_assoc (pos a) (pos b) (negsuc c) = ground arith
add_assoc (negsuc a) (pos b) (negsuc c) = ground arith
add_assoc (pos a) (negsuc b) (negsuc c) = ground arith
add_assoc (negsuc a) (negsuc b) (negsuc c) = ground arith

pub add_zero : (a : ℤ) → a +ℤ pos 0 ≡ a
unfolding ◌+ℤ◌
add_zero (pos a) = ground arith
add_zero (negsuc a) = ground arith

-- A wrapped sum of wrapped numbers is the sum, wrapped once.
pub wrap_both : (a b : ℤ) → int32 (int32 a +ℤ int32 b) ≡ int32 (a +ℤ b)
wrap_both a b =
    wrap_left a (int32 b)
    ∙ ap int32 (add_comm a (int32 b))
    ∙ wrap_left b a
    ∙ ap int32 (add_comm b a)
