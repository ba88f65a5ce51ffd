-- ===== src/Tlv/BigEndian.antt =====
-- Big-endian numbers, which length fields and INTEGER values share.
use keycard_go.Base.{ℕ, ◌+◌, ◌*◌, ◌<◌, ◌≤◌, [], ◌∷◌, arith}
use keycard_go.Base.Bytes.{Bytes, IsByte}

-- The number that big-endian bytes stand for, behind the digits `value`.
unfoldable pub be_value : ℕ → Bytes → ℕ
be_value value [] = value
be_value value (b ∷ bs) = be_value (value * 256 + b) bs

pub fits_next :
    (value b p : ℕ)
    → IsByte b
    → 0 < p
    → (value + 1) * (p * 256) ≤ 0x100000000
    → (value < 0x1000000) × ((value * 256 + b + 1) * p ≤ 0x100000000)
fits_next value b p hb hp h = (grind arith, grind arith)
