-- ===== src/Nal/Writer.antt =====
-- crates/encoder/src/h264/bitstream.rs: the bit writer. `buf.last_mut()` is there whenever it is
-- taken: a byte is pushed at the first of its bits. The assertion on `width` is the caller's.
use ferricast.Base.{
  ℕ, zero, suc, ◌+◌, ◌-◌, ◌*◌, ◌%◌, ◌^◌, List, [], ◌∷◌, ◌++◌, Bool, ◌==◌, if◌then◌else◌, bit_and,
  bit_or,
}
use ferricast.Base.Words.{ℤ, pos, negsuc, shl8, shr}
use ferricast.Nal.{leading_zeros64}

pub record BitWriter : Type 0 where
  pub buf : List ℕ
  pub bit_pos : ℕ

unfoldable pub new : BitWriter
new = record { buf = []; bit_pos = 0 }

-- `*buf.last_mut().unwrap() |= bits`
unfoldable pub or_last : List ℕ → ℕ → List ℕ
or_last [] bits = []
or_last (b ∷ []) bits = bit_or b bits ∷ []
or_last (b ∷ c ∷ rest) bits = b ∷ or_last (c ∷ rest) bits

unfoldable pub write_bit : BitWriter → ℕ → BitWriter
write_bit w bit =
    let pushed = if w.bit_pos == 0 then w.buf ++ 0 ∷ [] else w.buf in
    record {
      buf = or_last pushed (shl8 (bit_and bit 1) (7 - w.bit_pos));
      bit_pos = bit_and (w.bit_pos + 1) 7;
    }

-- The `width` low bits, the highest first.
unfoldable pub write_bits : BitWriter → ℕ → ℕ → BitWriter
write_bits w value zero = w
write_bits w value (suc i) = write_bits (write_bit w (bit_and (shr value i) 1)) value i

unfoldable pub write_flag : BitWriter → Bool → BitWriter
write_flag w flag = write_bit w (if flag then 1 else 0)

unfoldable pub write_zeros : BitWriter → ℕ → BitWriter
write_zeros w zero = w
write_zeros w (suc n) = write_zeros (write_bit w 0) n

unfoldable pub write_ue : BitWriter → ℕ → BitWriter
write_ue w value =
    let v_plus_1 = value + 1 in
    let leading = 63 - leading_zeros64 v_plus_1 in
    write_bits (write_zeros w leading) (v_plus_1 % 2 ^ 32) (leading + 1)

-- The values of the headers are small, so `2 * value` does not overflow.
unfoldable pub mapped : ℤ → ℕ
mapped (pos zero) = 0
mapped (pos (suc n)) = 2 * suc n - 1
mapped (negsuc n) = 2 * suc n

unfoldable pub write_se : BitWriter → ℤ → BitWriter
write_se w value = write_ue w (mapped value)

unfoldable pub byte_align : BitWriter → BitWriter
byte_align w = record w { bit_pos = 0 }

unfoldable pub finish_rbsp : BitWriter → List ℕ
finish_rbsp w = (byte_align (write_bit w 1)).buf
