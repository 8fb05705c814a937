-- ===== src/Security/Crc.antt =====
-- CRC-32C and its place at the end of a packet, gbnet/src/security.rs.
use Prim.Native.Nat.{bit_xor}
use gbnet.Prelude.{
  ℕ, zero, suc, ◌+◌, ◌-◌, ◌/◌, ◌%◌, ◌≤◌, ◌<◌, ◌≡◌, ◌↔◌, refl, sym, ap, ◌∙◌, false, Option, none,
  some, List, [], ◌∷◌, ◌++◌, length, get_or, take, drop, length-append, length-drop, take-append,
  drop-append, take-append-drop, arith, ltb, ◌==◌, ==_refl, if◌then◌else◌, All,
}
use gbnet.Prelude.Bytes.{IsByte, u32_to_le_bytes, u32_from_le_bytes, u32_from-to_le_bytes}

abbrev crc32c_polynomial : ℕ
crc32c_polynomial = 0x82F63B78

-- one round of the inner loop
unfoldable pub crc_bit : ℕ → ℕ
crc_bit crc = if crc % 2 == 1 then bit_xor (crc / 2) crc32c_polynomial else crc / 2

unfoldable pub crc_bits : ℕ → ℕ → ℕ
unfolding crc_bit
crc_bits zero crc = crc
crc_bits (suc n) crc = crc_bits n (crc_bit crc)

unfoldable pub crc_bytes : ℕ → List ℕ → ℕ
unfolding crc_bits
crc_bytes crc [] = crc
crc_bytes crc (b ∷ bs) = crc_bytes (crc_bits 8 (bit_xor crc b)) bs

-- `!crc` on a u32 is the complement.
unfoldable pub crc32c : List ℕ → ℕ
unfolding crc_bytes
crc32c d = 0xFFFFFFFF - crc_bytes 0xFFFFFFFF d

unfoldable pub append_crc32 : List ℕ → List ℕ
append_crc32 d = d ++ u32_to_le_bytes (crc32c d)

unfoldable pub validate_and_strip_crc32 : List ℕ → Option (List ℕ)
validate_and_strip_crc32 d =
    let n = length d - 4 in
    let payload = take n d in
    let expected =
      u32_from_le_bytes (get_or d n 0) (get_or d (n + 1) 0) (get_or d (n + 2) 0)
        (get_or d (n + 3) 0) in
    if ltb (length d) 4 then none else if crc32c payload == expected then some payload else none

crc32c-lt : (d : List ℕ) → crc32c d < 0x100000000
unfolding crc32c
crc32c-lt d = omega arith

-- The byte `i` places behind `n` is the byte `i` of what is left after `n`.
pub get_or-drop : (n i : ℕ) (d : List ℕ) → get_or d (n + i) 0 ≡ get_or (drop n d) i 0
get_or-drop zero i d = let e : 0 + i ≡ i = omega arith in rw e
get_or-drop (suc n) i [] = refl
get_or-drop (suc n) i (x ∷ d) =
    let e : suc n + i ≡ suc (n + i) = omega arith in rw e (get_or-drop n i d)

All-drop : (n : ℕ) (d : List ℕ) → All IsByte d → All IsByte (drop n d)
All-drop zero d h = h
All-drop (suc n) [] h = tt
All-drop (suc n) (x ∷ d) (h, hs) = All-drop n d hs

-- The u32 that four bytes stand for.
abbrev le_value : List ℕ → ℕ
le_value t = u32_from_le_bytes (get_or t 0 0) (get_or t 1 0) (get_or t 2 0) (get_or t 3 0)

le_value-inverse : (t : List ℕ) → length t ≡ 4 → All IsByte t → t ≡ u32_to_le_bytes (le_value t)
le_value-inverse [] l h = absurd (omega arith)
le_value-inverse (a ∷ []) l h = absurd (omega arith)
le_value-inverse (a ∷ b ∷ []) l h = absurd (omega arith)
le_value-inverse (a ∷ b ∷ c ∷ []) l h = absurd (omega arith)
le_value-inverse (a ∷ b ∷ c ∷ e ∷ []) l h =
    let v = le_value (a ∷ b ∷ c ∷ e ∷ []) in
    let p0 : a ≡ v % 256 = omega arith in
    let p1 : b ≡ v / 0x100 % 256 = omega arith in
    let p2 : c ≡ v / 0x10000 % 256 = omega arith in
    let p3 : e ≡ v / 0x1000000 % 256 = omega arith in λ i. p0 i ∷ p1 i ∷ p2 i ∷ p3 i ∷ []
le_value-inverse (a ∷ b ∷ c ∷ e ∷ f ∷ t) l h = absurd (omega arith)

-- `validate_and_strip_crc32` on a packet in two parts.
validate_and_strip_crc32_split :
    (d : List ℕ)
    → let n = length d - 4 in
      validate_and_strip_crc32 d ≡ (
        if ltb (length d) 4
        then none
        else if crc32c (take n d) == le_value (drop n d)
        then some (take n d)
        else none)
unfolding validate_and_strip_crc32
validate_and_strip_crc32_split d =
    let n = length d - 4 in
    let z : n + 0 ≡ n = omega arith in
    let first : get_or d n 0 ≡ get_or (drop n d) 0 0 = rw z at (get_or-drop n 0 d) in
    rw (first, get_or-drop n 1 d, get_or-drop n 2 d, get_or-drop n 3 d)

pub validate-append : (p : List ℕ) → validate_and_strip_crc32 (append_crc32 p) ≡ some p
unfolding append_crc32
validate-append p =
    let t = u32_to_le_bytes (crc32c p) in
    let n : length (p ++ t) - 4 ≡ length p = omega (arith, length-append p t) in
    let long : ltb (length (p ++ t)) 4 ≡ false = ground (arith, length-append p t) in
    let sum : le_value t ≡ crc32c p = u32_from-to_le_bytes (crc32c p) (crc32c-lt p) in
    rw (validate_and_strip_crc32_split (p ++ t), long, n, take-append p t, drop-append p t, sum)
      (rw ==_refl refl)

-- What is validated is what was appended to: validation accepts a packet of bytes, and returns
-- `payload`, exactly when the packet is `payload` with its CRC at the end.
pub validate_and_strip_crc32_iff :
    (d payload : List ℕ)
    → All IsByte d
    → (validate_and_strip_crc32 d ≡ some payload) ↔ (d ≡ append_crc32 payload)
unfolding append_crc32
validate_and_strip_crc32_iff d payload bytes = (stripped, appended)
  where
    stripped : validate_and_strip_crc32 d ≡ some payload → d ≡ append_crc32 payload
    stripped h =
        let n = length d - 4 in
        let h' = rw validate_and_strip_crc32_split at h in
        let long : 4 ≤ length d = ground arith in
        let same : take n d ≡ payload = ground arith in
        let sum : crc32c (take n d) ≡ le_value (drop n d) = ground arith in
        let four : length (drop n d) ≡ 4 = omega (arith, length-drop n d) in
        sym (take-append-drop n d)
        ∙ ap (λ t. take n d ++ t) (le_value-inverse (drop n d) four (All-drop n d bytes))
        ∙ ap (λ v. take n d ++ u32_to_le_bytes v) (sym sum)
        ∙ ap append_crc32 same

    appended : d ≡ append_crc32 payload → validate_and_strip_crc32 d ≡ some payload
    appended e = rw e (validate-append payload)
