-- ===== src/Kea/Can/Address.antt =====
-- The address of a packet in the registers.
use uptiny.Base.{
  ℕ, ◌+◌, ◌*◌, ◌/◌, ◌%◌, ◌^◌, ◌<◌, ◌≤◌, ◌≡◌, true, false, leb, ◌==◌, arith, inl, inr, ◌⊎◌,
}
use uptiny.Kea.Can.{CanPack, address_of_frame, frame_of}

extended :
    (af : ℕ)
    → 2 ^ 31 ≤ af
    → af < 2 ^ 31 + 2 ^ 29
    → 2 ^ 31
        + af * 2 % 256 / 2
        + af / 2 ^ 7 % 256 * 2 ^ 7
        + (af / 2 ^ 15 % 8 + 0x18 + af / 2 ^ 18 % 8 * 32) % 8 * 2 ^ 15
        + (af / 2 ^ 15 % 8 + 0x18 + af / 2 ^ 18 % 8 * 32) / 32 * 2 ^ 18
        + af / 2 ^ 21 % 256 * 2 ^ 21
      ≡ af
extended af low high = omega arith

standard_address : (af : ℕ) → af < 2 ^ 11 → af % 8 * 32 / 32 + af / 8 % 256 * 8 ≡ af
standard_address af small = omega arith

-- The address that is read from the registers that were written for a packet is that of the packet,
-- for a standard address of 11 bits and for an extended one of 29 bits.
pub address_of_frame-frame_of :
    (pack : CanPack)
    → (pack.af < 2 ^ 11) ⊎ ((2 ^ 31 ≤ pack.af) × (pack.af < 2 ^ 31 + 2 ^ 29))
    → address_of_frame (frame_of pack) ≡ pack.af
address_of_frame-frame_of pack (inl standard) =
    let short : leb (2 ^ 31) pack.af ≡ false = ground arith in
    let flag : (pack.af % 8 * 32 / 8 % 2 == 1) ≡ false = ground arith in
    rw (short, flag) (standard_address pack.af standard)
address_of_frame-frame_of pack (inr (low, high)) =
    let long : leb (2 ^ 31) pack.af ≡ true = ground arith in
    let flag : ((pack.af / 2 ^ 15 % 8 + 0x18 + pack.af / 2 ^ 18 % 8 * 32) / 8 % 2 == 1) ≡ true =
      ground arith in
    rw (long, flag) (extended pack.af low high)
