-- ===== src/Security/Tests.antt =====
-- Runs of gbnet/src/security.rs.
use gbnet.Prelude.{
  ◌+◌, ◌≤◌, err, ℕ, suc, ◌/◌, ◌≡◌, ◌↔◌, ◌⊎◌, refl, true, some, List, [], ◌∷◌, arith, replicate,
}
use gbnet.Security.Encryption.{EncryptionState, make_nonce, make_nonce_iff}
use gbnet.Security.Crc.{
  crc_bit, crc_bits, crc_bytes, crc32c, append_crc32, validate_and_strip_crc32,
  validate_and_strip_crc32_iff,
}
use gbnet.Prelude.Maps.{insert, lookup}
use gbnet.Security.RateLimit.{
  new, recent, timestamps_of, allow, retain_recent, cleanup, Event, request, clean, all_passed,
  ip_key,
}
use gbnet.Security.Token.{
  ConnectToken, new_token, TokenValidator, with_max_tracked_tokens, make_room, mark_used, validate,
  expired, replayed,
}
use gbnet.Security.Token.Replay.{
  HasValidated, validate-HasValidated, validate_all, validate_replayed,
}
use gbnet.Security.Cookie.{
  v4, SocketAddr, generate_cookie, validate_cookie, cookie_to_u64_pair, cookie_from_u64_pair,
  validate_cookie_iff, validate_cookie-generate_cookie,
}

abbrev address : SocketAddr
address = record { ip = v4 (127 ∷ 0 ∷ 0 ∷ 1 ∷ []); port = 4000 }

abbrev other : SocketAddr
other = record { ip = v4 (10 ∷ 0 ∷ 0 ∷ 2 ∷ []); port = 4000 }

-- Three requests of one address within a second, with two allowed, and one of another.
abbrev requests : List Event
requests =
    request address 5 ∷ request other 6 ∷ request address 7 ∷ clean 8 ∷ request address 9 ∷ []

requests-passed : all_passed (ip_key address.ip) (new 2) requests ≡ 5 ∷ 7 ∷ []
unfolding new allow cleanup retain_recent recent timestamps_of insert lookup
requests-passed = refl

-- A table for two tokens.
abbrev validator : TokenValidator
validator = with_max_tracked_tokens (gbnet.Security.Token.new 100) 2

abbrev token : ConnectToken
token = new_token 77 [] 30 [] 0

validate-HasValidated_example : HasValidated validator token 5 (validate validator token 5)
validate-HasValidated_example = validate-HasValidated validator token 5

validate_replayed_example :
    ((validate
        (validate_all (validate validator token 5).0 ((new_token 78 [] 30 [] 0, 6) ∷ []))
        token
        7).1
      ≡ err expired)
    ⊎ ((validate
          (validate_all (validate validator token 5).0 ((new_token 78 [] 30 [] 0, 6) ∷ []))
          token
          7).1
        ≡ err replayed)
unfolding validate make_room mark_used new_token with_max_tracked_tokens gbnet.Security.Token.new
    lookup insert
validate_replayed_example =
    validate_replayed validator token token 5 7 ((new_token 78 [] 30 [] 0, 6) ∷ []) (omega arith)
      refl refl

abbrev packet : List ℕ
packet = append_crc32 (1 ∷ 2 ∷ 3 ∷ [])

-- The standard check value of CRC-32C, of "123456789".
crc32c_check : crc32c (49 ∷ 50 ∷ 51 ∷ 52 ∷ 53 ∷ 54 ∷ 55 ∷ 56 ∷ 57 ∷ []) ≡ 0xE3069283
unfolding crc32c crc_bytes crc_bits crc_bit
crc32c_check = refl

abbrev secret : List ℕ
secret = replicate 32 7

validate_and_strip_crc32_iff_example :
    (validate_and_strip_crc32 (1 ∷ 2 ∷ 3 ∷ 4 ∷ 5 ∷ []) ≡ some (1 ∷ []))
    ↔ (1 ∷ 2 ∷ 3 ∷ 4 ∷ 5 ∷ [] ≡ append_crc32 (1 ∷ []))
validate_and_strip_crc32_iff_example =
    validate_and_strip_crc32_iff (1 ∷ 2 ∷ 3 ∷ 4 ∷ 5 ∷ []) (1 ∷ [])
      (omega arith, (omega arith, (omega arith, (omega arith, (omega arith, tt)))))

abbrev cookie : List ℕ
cookie = 1 ∷ 2 ∷ 3 ∷ 4 ∷ 5 ∷ 6 ∷ 7 ∷ 8 ∷ 9 ∷ 10 ∷ 11 ∷ 12 ∷ 13 ∷ 14 ∷ 15 ∷ 255 ∷ []

validate_cookie_iff_example :
    let made = generate_cookie address 1 secret in
    (validate_cookie made address 65 secret 30 ≡ true)
    ↔ ((t : ℕ) × (t ≤ 65) × (65 ≤ t + 30) × (made ≡ generate_cookie address (t / 30) secret))
validate_cookie_iff_example =
    validate_cookie_iff (generate_cookie address 1 secret) address 65 secret 30 (omega arith)

validate_cookie-generate_cookie_example :
    validate_cookie
      (cookie_from_u64_pair
        (cookie_to_u64_pair (generate_cookie address (59 / 30) secret)).0
        (cookie_to_u64_pair (generate_cookie address (59 / 30) secret)).1)
      address
      80
      secret
      30
    ≡ true
validate_cookie-generate_cookie_example =
    validate_cookie-generate_cookie address secret 59 80 30 (λ e. absurd (omega arith))
      (omega arith) (omega arith)

abbrev salted : EncryptionState ℕ
salted = record { key = 7; connection_salt = 0x0123456789abcdef }

make_nonce_iff_example : (make_nonce salted 3 ≡ make_nonce salted 4) ↔ (suc 2 ≡ suc 3)
make_nonce_iff_example = make_nonce_iff salted 3 4 (omega arith) (omega arith) (omega arith)
