-- ===== src/Message/Deserialize/Flags.antt =====
-- The flags that src/message/attrs.rs knows are four bits.
use Prim.Native.Nat.{bit_and, bit_and-bitwise, digits, min}
use rusftp.Prelude.{ℕ, zero, suc, ◌+◌, ◌/◌, ◌<◌, ◌≤◌, ◌≡◌, refl, true, if◌then◌else◌, arith}
use rusftp.Message.Deserialize.{known_flags, has_flag}

digits_le : (n a b : ℕ) → digits (λ b. zero) min n a b ≤ b
digits_le zero a b = omega arith
digits_le (suc n) zero b = omega arith
digits_le (suc n) (suc a) b = omega (arith, digits_le n (suc a / 2) (b / 2))

bit_and_le : (a b : ℕ) → bit_and a b ≤ b
bit_and_le a b = rw (bit_and-bitwise a b) (digits_le a a b)

known_flags_lt : (flags : ℕ) → known_flags flags ≡ true → flags < 16
unfolding known_flags
known_flags_lt flags e = ground (arith, e, bit_and_le flags 15)

-- A number of four bits is the sum of the flags that it has.
abbrev pub flag_of : ℕ → ℕ → ℕ
flag_of flags bit = if has_flag flags bit then bit else 0

flags_sum_lt :
    (flags : ℕ)
    → flags < 16
    → flag_of flags 1 + flag_of flags 2 + flag_of flags 4 + flag_of flags 8 ≡ flags
unfolding has_flag
flags_sum_lt zero h = refl
flags_sum_lt (suc zero) h = refl
flags_sum_lt (suc (suc zero)) h = refl
flags_sum_lt (suc (suc (suc zero))) h = refl
flags_sum_lt (suc (suc (suc (suc zero)))) h = refl
flags_sum_lt (suc (suc (suc (suc (suc zero))))) h = refl
flags_sum_lt (suc (suc (suc (suc (suc (suc zero)))))) h = refl
flags_sum_lt (suc (suc (suc (suc (suc (suc (suc zero))))))) h = refl
flags_sum_lt (suc (suc (suc (suc (suc (suc (suc (suc zero)))))))) h = refl
flags_sum_lt (suc (suc (suc (suc (suc (suc (suc (suc (suc zero))))))))) h = refl
flags_sum_lt (suc (suc (suc (suc (suc (suc (suc (suc (suc (suc zero)))))))))) h = refl
flags_sum_lt (suc (suc (suc (suc (suc (suc (suc (suc (suc (suc (suc zero))))))))))) h = refl
flags_sum_lt (suc (suc (suc (suc (suc (suc (suc (suc (suc (suc (suc (suc zero)))))))))))) h = refl
flags_sum_lt (suc (suc (suc (suc (suc (suc (suc (suc (suc (suc (suc (suc (suc zero))))))))))))) h =
    refl
flags_sum_lt
      (suc (suc (suc (suc (suc (suc (suc (suc (suc (suc (suc (suc (suc (suc zero)))))))))))))) h =
    refl
flags_sum_lt
      (suc (suc (suc (suc (suc (suc (suc (suc (suc (suc (suc (suc (suc (suc (suc zero)))))))))))))))
      h =
    refl
flags_sum_lt
      (suc
        (suc (suc (suc (suc (suc (suc (suc (suc (suc (suc (suc (suc (suc (suc (suc n))))))))))))))))
      h =
    absurd (omega (arith, h))

pub flags_sum :
    (flags : ℕ)
    → known_flags flags ≡ true
    → flag_of flags 1 + flag_of flags 2 + flag_of flags 4 + flag_of flags 8 ≡ flags
flags_sum flags e = flags_sum_lt flags (known_flags_lt flags e)
