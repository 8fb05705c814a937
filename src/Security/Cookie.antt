-- ===== src/Security/Cookie.antt =====
-- Stateless connection cookies, gbnet/src/security.rs, and their way over the wire as two u64.
use native.Mathlib.Nat.{div-mul-le_self, div-eq-sub-div}
use mathlib.Core.Path.{ap₂}
use gbnet.Prelude.{
  ℕ, suc, ◌+◌, ◌-◌, ◌/◌, ◌%◌, ◌≤◌, ◌<◌, ◌≡◌, ◌≢◌, ◌↔◌, ◌⊎◌, inl, inr, refl, sym, ap, ◌∙◌, Bool,
  true, false, List, [], ◌∷◌, ◌++◌, zero, length, get_or, take, drop, length-take, length-drop,
  take-append-drop, mul_mono, arith, ltb, if◌then◌else◌, All,
}
use gbnet.Prelude.Bytes.{
  IsByte, u16_to_le_bytes, u32_to_le_bytes, u64_to_le_bytes, u64_from_le_bytes, bytes_eq,
  bytes_eq_iff,
}
use gbnet.Security.Crc.{crc32c, get_or-drop}

abbrev cookie_size : ℕ
cookie_size = 16

-- The octets of an address, four or sixteen.
pub data IpAddr : Type 0 where
  v4 : List ℕ → IpAddr
  v6 : List ℕ → IpAddr

pub record SocketAddr : Type 0 where
  pub ip : IpAddr
  pub port : ℕ

abbrev pub octets : IpAddr → List ℕ
octets (v4 o) = o
octets (v6 o) = o

unfoldable pub generate_cookie : SocketAddr → ℕ → List ℕ → List ℕ
generate_cookie addr timestamp_secs secret =
    let d0 =
      octets addr.ip
      ++ (u16_to_le_bytes addr.port ++ (u64_to_le_bytes timestamp_secs ++ take 16 secret)) in
    let c0 = crc32c d0 in
    let d1 = d0 ++ (u32_to_le_bytes c0 ++ take 16 (drop 16 secret)) in
    let c1 = crc32c d1 in
    let d2 = d1 ++ u32_to_le_bytes c1 in
    let c2 = crc32c d2 in
    let d3 = d2 ++ u32_to_le_bytes c2 in
    let c3 = crc32c d3 in
    u32_to_le_bytes c0 ++ (u32_to_le_bytes c1 ++ (u32_to_le_bytes c2 ++ u32_to_le_bytes c3))

unfoldable pub validate_cookie : List ℕ → SocketAddr → ℕ → List ℕ → ℕ → Bool
validate_cookie cookie addr current_timestamp_secs secret window_secs =
    let current_window = current_timestamp_secs / window_secs in
    if bytes_eq cookie (generate_cookie addr current_window secret)
    then true
    else if ltb 0 current_window
    then bytes_eq cookie (generate_cookie addr (current_window - 1) secret)
    else false

-- `u64::from_le_bytes` of the eight bytes from `i` on
abbrev u64_at : List ℕ → ℕ → ℕ
u64_at c i =
    u64_from_le_bytes (get_or c i 0) (get_or c (i + 1) 0) (get_or c (i + 2) 0) (get_or c (i + 3) 0)
      (get_or c (i + 4) 0) (get_or c (i + 5) 0) (get_or c (i + 6) 0) (get_or c (i + 7) 0)

unfoldable pub cookie_to_u64_pair : List ℕ → ℕ × ℕ
cookie_to_u64_pair c = (u64_at c 0, u64_at c 8)

unfoldable pub cookie_from_u64_pair : ℕ → ℕ → List ℕ
cookie_from_u64_pair high low = u64_to_le_bytes high ++ u64_to_le_bytes low

-- An array of 16 bytes.
abbrev IsCookie : List ℕ → Type 0
IsCookie c = (length c ≡ 16) × All IsByte c

generate_cookie-IsCookie :
    (addr : SocketAddr) (t : ℕ) (secret : List ℕ) → IsCookie (generate_cookie addr t secret)
unfolding generate_cookie
generate_cookie-IsCookie addr t secret = (refl, omega arith)

u64_bytes :
    (a b c d e f g h : ℕ)
    → All IsByte (a ∷ b ∷ c ∷ d ∷ e ∷ f ∷ g ∷ h ∷ [])
    → u64_to_le_bytes (u64_from_le_bytes a b c d e f g h) ≡ a ∷ b ∷ c ∷ d ∷ e ∷ f ∷ g ∷ h ∷ []
u64_bytes a b c d e f g h k =
    let v = u64_from_le_bytes a b c d e f g h in
    let p0 : v % 256 ≡ a = omega arith in
    let p1 : v / 0x100 % 256 ≡ b = omega arith in
    let p2 : v / 0x10000 % 256 ≡ c = omega arith in
    let p3 : v / 0x1000000 % 256 ≡ d = omega arith in
    let p4 : v / 0x100000000 % 256 ≡ e = omega arith in
    let p5 : v / 0x10000000000 % 256 ≡ f = omega arith in
    let p6 : v / 0x1000000000000 % 256 ≡ g = omega arith in
    let p7 : v / 0x100000000000000 % 256 ≡ h = omega arith in
    λ i. p0 i ∷ p1 i ∷ p2 i ∷ p3 i ∷ p4 i ∷ p5 i ∷ p6 i ∷ p7 i ∷ []

-- A list of eight bytes, item by item.
eight : (t : List ℕ) → length t ≡ 8 → All IsByte t → u64_to_le_bytes (u64_at t 0) ≡ t
eight (a ∷ b ∷ c ∷ d ∷ e ∷ f ∷ g ∷ h ∷ []) l k = u64_bytes a b c d e f g h k
eight _ l k = absurd (omega arith)

All-take-drop : (n : ℕ) (c : List ℕ) → All IsByte c → All IsByte (take n c) × All IsByte (drop n c)
All-take-drop zero c h = (tt, h)
All-take-drop (suc n) [] h = (tt, tt)
All-take-drop (suc n) (x ∷ c) (h, hs) = let (p, q) = All-take-drop n c hs in ((h, p), q)

get_or-take : (n i : ℕ) (c : List ℕ) → i < n → get_or (take n c) i 0 ≡ get_or c i 0
get_or-take zero i c h = absurd (omega arith)
get_or-take (suc n) i [] h = refl
get_or-take (suc n) zero (x ∷ c) h = refl
get_or-take (suc n) (suc i) (x ∷ c) h = get_or-take n i c (omega arith)

u64_at-take : (c : List ℕ) → u64_at (take 8 c) 0 ≡ u64_at c 0
u64_at-take c = omega (
  arith,
  get_or-take 8 0 c (omega arith),
  get_or-take 8 1 c (omega arith),
  get_or-take 8 2 c (omega arith),
  get_or-take 8 3 c (omega arith),
  get_or-take 8 4 c (omega arith),
  get_or-take 8 5 c (omega arith),
  get_or-take 8 6 c (omega arith),
  get_or-take 8 7 c (omega arith),
)

u64_at-drop : (c : List ℕ) → u64_at (drop 8 c) 0 ≡ u64_at c 8
u64_at-drop c = omega (
  arith,
  get_or-drop 8 0 c,
  get_or-drop 8 1 c,
  get_or-drop 8 2 c,
  get_or-drop 8 3 c,
  get_or-drop 8 4 c,
  get_or-drop 8 5 c,
  get_or-drop 8 6 c,
  get_or-drop 8 7 c,
)

-- A cookie that is sent as two u64 and put together again is the same cookie.
pub cookie_from_u64_pair-cookie_to_u64_pair :
    (c : List ℕ)
    → IsCookie c
    → let (high, low) = cookie_to_u64_pair c in cookie_from_u64_pair high low ≡ c
unfolding cookie_from_u64_pair cookie_to_u64_pair
cookie_from_u64_pair-cookie_to_u64_pair c (l, bytes) =
    let (front, back) = All-take-drop 8 c bytes in
    let high : u64_to_le_bytes (u64_at c 0) ≡ take 8 c =
      ap u64_to_le_bytes (sym (u64_at-take c))
      ∙ eight (take 8 c) (omega (arith, length-take 8 c)) front in
    let low : u64_to_le_bytes (u64_at c 8) ≡ drop 8 c =
      ap u64_to_le_bytes (sym (u64_at-drop c))
      ∙ eight (drop 8 c) (omega (arith, length-drop 8 c)) back in
    ap₂ ◌++◌ high low ∙ take-append-drop 8 c

-- The window of a time, and of a time up to one window later.
window_next : (t t' w : ℕ) → w ≢ 0 → t ≤ t' → t' ≤ t + w → (t' / w ≡ t / w) ⊎ (t' / w ≡ suc (t / w))
window_next t t' w nz h k =
    let early : t' / w < t / w → ⊥ =
      λ p. absurd (omega (arith, mul_mono (t' / w + 1) (t / w) w (omega arith))) in
    let late : suc (t / w) < t' / w → ⊥ =
      λ p. absurd (omega (arith, mul_mono (t / w + 2) (t' / w) w (omega arith))) in
    ground (arith, early, late)

accepts_iff :
    (cookie : List ℕ) (addr : SocketAddr) (now : ℕ) (secret : List ℕ) (w : ℕ)
    → (validate_cookie cookie addr now secret w ≡ true) ↔ (
        (cookie ≡ generate_cookie addr (now / w) secret)
        ⊎ (0 < now / w) × (cookie ≡ generate_cookie addr (now / w - 1) secret))
unfolding validate_cookie
accepts_iff cookie addr now secret w = ground (
  arith,
  bytes_eq_iff cookie (generate_cookie addr (now / w) secret),
  bytes_eq_iff cookie (generate_cookie addr (now / w - 1) secret),
)

pos_of : (w : ℕ) → w ≢ 0 → 0 < w
pos_of w nz = ground (arith, nz)

-- Where the windows are longer than 0, validation accepts exactly the cookies that are generated, for
-- the same address, at some time from one window ago until now.
pub validate_cookie_iff :
    (cookie : List ℕ) (addr : SocketAddr) (now : ℕ) (secret : List ℕ) (w : ℕ)
    → w ≢ 0
    → (validate_cookie cookie addr now secret w ≡ true)
      ↔ ((t : ℕ) × (t ≤ now) × (now ≤ t + w) × (cookie ≡ generate_cookie addr (t / w) secret))
validate_cookie_iff cookie addr now secret w nz =
    let made : ℕ → List ℕ = λ window. generate_cookie addr window secret in
    (
      λ accepted. elim ((accepts_iff cookie addr now secret w).0 accepted) [
        | inl e ↦ (now, omega arith, omega arith, e)
        | inr (later, e) ↦
            let reached : w ≤ now =
              (let p = div-mul-le_self now w in
                omega (arith, p, mul_mono 1 (now / w) w (omega (arith, later)))) in
            let before : (now - w) / w ≡ now / w - 1 =
              omega (arith, div-eq-sub-div (pos_of w nz) reached) in
            (now - w, omega arith, omega (arith, reached), e ∙ ap made (sym before))
      ],
      λ (t, h, k, e). (accepts_iff cookie addr now secret w).1 (elim (window_next t now w nz h k) [
        | inl same ↦ inl (e ∙ ap made (sym same))
        | inr next ↦
            let back : t / w ≡ now / w - 1 = omega arith in inr (omega arith, e ∙ ap made back)
      ]),
    )

-- The cookie that the server sends at the time `t` is accepted from the same address, having gone
-- over the wire as two u64, up to one window later.
pub validate_cookie-generate_cookie :
    (addr : SocketAddr) (secret : List ℕ) (t t' w : ℕ)
    → w ≢ 0
    → t ≤ t'
    → t' ≤ t + w
    → let (high, low) = cookie_to_u64_pair (generate_cookie addr (t / w) secret) in
      validate_cookie (cookie_from_u64_pair high low) addr t' secret w ≡ true
validate_cookie-generate_cookie addr secret t t' w nz h k =
    let c = generate_cookie addr (t / w) secret in
    rw (cookie_from_u64_pair-cookie_to_u64_pair c (generate_cookie-IsCookie addr (t / w) secret))
      ((validate_cookie_iff c addr t' secret w nz).1 (t, h, k, refl))
