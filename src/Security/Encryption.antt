-- ===== src/Security/Encryption.antt =====
-- Encryption of packets, `EncryptionState` of gbnet/src/security.rs. The cipher is AES-256-GCM of
-- another library: a parameter, as keys, sealing and opening, with what its documentation says.
use Prim.Native.Nat.{bit_xor}
use gbnet.Prelude.{
  ℕ, ◌+◌, ◌^◌, ◌<◌, ◌≡◌, ◌↔◌, refl, ap, ◌∙◌, inl, inr, false, Option, none, some, Option-cases,
  Result, ok, err, List, [], ◌∷◌, ◌++◌, get_or, take, length, ltb, ◌==◌, if◌then◌else◌, arith,
}
use gbnet.Prelude.Bytes.{u64_to_le_bytes}
use gbnet.Prelude.Xor.{bit_xor-cancel, bit_xor-lt}

pub record Cipher {ℓ} (Key : Type ℓ) : Type ℓ where
  -- `UnboundKey::new` and `LessSafeKey::new`
  pub new_key : List ℕ → Option Key
  -- `seal_in_place_append_tag` and `open_in_place`, of a nonce and the bytes
  pub seal : Key → List ℕ → List ℕ → Option (List ℕ)
  pub unseal : Key → List ℕ → List ℕ → Option (List ℕ)

abbrev aes_gcm_tag_len : ℕ
aes_gcm_tag_len = 16

abbrev aes_gcm_nonce_len : ℕ
aes_gcm_nonce_len = 12

pub data EncryptionError : Type 0 where
  invalid_key nonce_error encrypt_failed decrypt_failed : EncryptionError

pub record EncryptionState {ℓ} (Key : Type ℓ) : Type ℓ where
  pub key : Key
  pub connection_salt : ℕ

module _ {ℓ} {Key : Type ℓ} where
  unfoldable pub set_connection_salt : EncryptionState Key → ℕ → EncryptionState Key
  set_connection_salt e salt = record e { connection_salt = salt }

  unfoldable pub make_nonce : EncryptionState Key → ℕ → List ℕ
  make_nonce e sequence = u64_to_le_bytes (bit_xor sequence e.connection_salt) ++ 0 ∷ 0 ∷ 0 ∷ 0 ∷ []

module _ {ℓ} {Key : Type ℓ} ⦃cipher : Cipher Key⦄ where
  unfoldable pub new : List ℕ → Result (EncryptionState Key) EncryptionError
  new key_bytes = elim (cipher.new_key key_bytes) [
    | none ↦ err invalid_key
    | some key ↦ ok (record { key = key; connection_salt = 0 })
  ]

  -- `Nonce::try_assume_unique_for_key` asks for the length only.
  unfoldable pub encrypt : EncryptionState Key → List ℕ → ℕ → Result (List ℕ) EncryptionError
  unfolding make_nonce
  encrypt e payload sequence =
      let nonce = make_nonce e sequence in
      if length nonce == aes_gcm_nonce_len
      then elim (cipher.seal e.key nonce payload) [
        | none ↦ err encrypt_failed
        | some sealed ↦ ok sealed
      ]
      else err nonce_error

  unfoldable pub decrypt : EncryptionState Key → List ℕ → ℕ → Result (List ℕ) EncryptionError
  unfolding make_nonce
  decrypt e ciphertext sequence =
      let nonce = make_nonce e sequence in
      if ltb (length ciphertext) aes_gcm_tag_len
      then err decrypt_failed
      else if length nonce == aes_gcm_nonce_len
      then elim (cipher.unseal e.key nonce ciphertext) [
        | none ↦ err decrypt_failed
        | some plaintext ↦ ok plaintext
      ]
      else err nonce_error

-- What is sealed opens under the same key and nonce, and is longer by the tag.
pub record IsCipher {ℓ} (Key : Type ℓ) ⦃cipher : Cipher Key⦄ : Type ℓ where
  pub unseal-seal :
      (k : Key) (nonce m sealed : List ℕ)
      → cipher.seal k nonce m ≡ some sealed
      → cipher.unseal k nonce sealed ≡ some m
  pub length-seal :
      (k : Key) (nonce m sealed : List ℕ)
      → cipher.seal k nonce m ≡ some sealed
      → length sealed ≡ length m + aes_gcm_tag_len

u64_to_le_bytes-injective :
    (x y : ℕ) → x < 2 ^ 64 → y < 2 ^ 64 → u64_to_le_bytes x ≡ u64_to_le_bytes y → x ≡ y
u64_to_le_bytes-injective x y h k e =
    let digit : (i : ℕ) → get_or (u64_to_le_bytes x) i 0 ≡ get_or (u64_to_le_bytes y) i 0 =
      λ i. ap (λ l. get_or l i 0) e in
    omega (arith, digit 0, digit 1, digit 2, digit 3, digit 4, digit 5, digit 6, digit 7)

module _ {ℓ} {Key : Type ℓ} where
  -- Under one salt, and for numbers and a salt of 64 bits, the nonces of two packets are the same
  -- exactly when their numbers are.
  pub make_nonce_iff :
      (e : EncryptionState Key) (s t : ℕ)
      → e.connection_salt < 2 ^ 64
      → s < 2 ^ 64
      → t < 2 ^ 64
      → (make_nonce e s ≡ make_nonce e t) ↔ (s ≡ t)
  unfolding make_nonce
  make_nonce_iff e s t c h k =
      let salt = e.connection_salt in
      (
        λ same. bit_xor-cancel 64 s t salt h k (
            u64_to_le_bytes-injective (bit_xor s salt) (bit_xor t salt) (bit_xor-lt 64 s salt h c)
              (bit_xor-lt 64 t salt k c) (ap (take 8) same)),
        λ same. ap (make_nonce e) same,
      )

module _ {ℓ} {Key : Type ℓ} ⦃cipher : Cipher Key⦄ (laws : IsCipher Key) where
  -- What was encrypted under a number is decrypted under the same number and salt, and is longer than
  -- its payload by the tag.
  pub decrypt-encrypt :
      (e : EncryptionState Key) (payload sealed : List ℕ) (sequence : ℕ)
      → encrypt e payload sequence ≡ ok sealed
      → (decrypt e sealed sequence ≡ ok payload) × (length sealed ≡ length payload + 16)
  unfolding encrypt decrypt
  decrypt-encrypt e payload sealed sequence h =
      elim (Option-cases (cipher.seal e.key (make_nonce e sequence) payload)) [
        | inl g ↦ let no : err encrypt_failed ≡ ok sealed = rw (g, encrypt) at h in cc no
        | inr (found, g) ↦
            let done : ok found ≡ ok sealed = rw (g, encrypt) at h in
            let same : found ≡ sealed = cc done in
            let nonce = make_nonce e sequence in
            let sealing : cipher.seal e.key nonce payload ≡ some sealed = g ∙ ap some same in
            let size = laws.length-seal e.key nonce payload sealed sealing in
            let long : ltb (length sealed) aes_gcm_tag_len ≡ false = ground (arith, size) in
            let opened = laws.unseal-seal e.key nonce payload sealed sealing in
            (simp (long, opened, decrypt) refl, size)
      ]
