-- ===== src/Checksum.antt =====
-- `cksum_update` of src/network_headers.h: the incremental update of an Internet checksum.
pub mod Congruence
use natasha.Base.{ℕ, ◌+◌, ltb, if◌then◌else◌, bit_and}
use natasha.Word.{u16, u32, not32, ◌>>>◌}

-- `x + (x < y)` on `uint32_t`: the carry of a sum `x` of `y` comes back in at the low end
abbrev pub add_carry : ℕ → ℕ → ℕ
add_carry x y = u32 (x + (if ltb x y then 1 else 0))

-- `sum = (sum & 0xffff) + (sum >> 16)`
abbrev pub fold : ℕ → ℕ
fold sum = u32 (bit_and sum 0xffff + sum >>> 16)

unfoldable pub cksum_update : ℕ → ℕ → ℕ → ℕ
cksum_update csum from to =
    let csum_c : ℕ = not32 csum in
    let from_c : ℕ = not32 from in
    let res : ℕ = u32 (csum_c + from_c) in
    let ret : ℕ = add_carry res from_c in
    let res2 : ℕ = u32 (ret + to) in
    let ret2 : ℕ = add_carry res2 to in u16 (not32 (fold (fold ret2)))
