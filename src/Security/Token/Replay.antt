-- ===== src/Security/Token/Replay.antt =====
-- What `TokenValidator` of gbnet/src/security.rs accepts, and how many tokens it remembers.
use gbnet.Prelude.{
  ℕ, zero, suc, ◌+◌, ◌≤◌, ◌<◌, ◌≡◌, ◌⊎◌, refl, true, false, none, some, List, [], ◌∷◌, Result, ok,
  err, inl, inr, Bool-cases, Option-cases, ==_refl, leb, length, arith,
}
use gbnet.Prelude.Maps.{
  Map, contains_key, min_by_key, lookup-insert, length-insert, length-remove, length-retain,
  contains_key-min_by_key,
}
use gbnet.Security.Token.{
  ConnectToken, is_expired, TokenError, expired, replayed, TokenValidator, cleanup, evict,
  evict_rounds, make_room, mark_used, validate,
}

evict-length :
    (v : TokenValidator) (key : ℕ)
    → min_by_key (λ t. t) v.used_tokens ≡ some key
    → length v.used_tokens ≡ suc (length (evict v key).used_tokens)
unfolding evict
evict-length v key e =
    let there = contains_key-min_by_key (λ t. t) v.used_tokens key e in
    ground (arith, there, length-remove key v.used_tokens)

min_by_key-nonempty : (m : Map ℕ) → min_by_key (λ t. t) m ≡ none → length m ≡ 0
unfolding min_by_key
min_by_key-nonempty [] e = refl
min_by_key-nonempty (x ∷ m) e = absurd cc

evict_rounds-IsBounded :
    (n : ℕ) (v : TokenValidator)
    → length v.used_tokens ≤ n
    → (length (evict_rounds n v).used_tokens ≤ v.max_tracked_tokens)
      × ((evict_rounds n v).max_tracked_tokens ≡ v.max_tracked_tokens)
unfolding evict_rounds evict
evict_rounds-IsBounded zero v le = (omega arith, refl)
evict_rounds-IsBounded (suc n) v le =
    elim (Bool-cases (leb (length v.used_tokens) v.max_tracked_tokens)) [
      | inl fits ↦ rw (fits, evict_rounds) (ground arith, refl)
      | inr over ↦ elim (Option-cases (min_by_key (λ t. t) v.used_tokens)) [
        | inl e ↦
            rw (over, e, evict_rounds) (omega (arith, min_by_key-nonempty v.used_tokens e), refl)
        | inr (key, e) ↦
            rw (over, e, evict_rounds)
              (evict_rounds-IsBounded n (evict v key) (omega (arith, evict-length v key e)))
      ]
    ]

make_room-IsBounded :
    (v : TokenValidator) (now : ℕ)
    → (length (make_room v now).used_tokens ≤ v.max_tracked_tokens)
      × ((make_room v now).max_tracked_tokens ≡ v.max_tracked_tokens)
unfolding make_room cleanup
make_room-IsBounded v now = elim (Bool-cases (leb (length v.used_tokens) v.max_tracked_tokens)) [
  | inl fits ↦ rw (fits, make_room) (ground arith, refl)
  | inr over ↦
      rw (over, make_room)
        (evict_rounds-IsBounded (length v.used_tokens) (cleanup v now)
          (length-retain _ v.used_tokens))
]

-- What a validation says of the token, and does to the table.
abbrev pub HasValidated :
    TokenValidator → ConnectToken → ℕ → TokenValidator × Result ℕ TokenError → Type 0
HasValidated v token now (v', ok id) =
    (id ≡ token.client_id)
    × (is_expired token now ≡ false)
    × (contains_key id v.used_tokens ≡ false)
    × (length v'.used_tokens ≤ v.max_tracked_tokens)
HasValidated v token now (v', err expired) = (v' ≡ v) × (is_expired token now ≡ true)
HasValidated v token now (v', err replayed) =
    (v' ≡ v) × (contains_key token.client_id v.used_tokens ≡ true)
HasValidated v token now (v', err _) = ⊥

-- A token is accepted only where it has not expired and its client is not in the table, and then
-- the table is within its bound; a token is refused as expired or as replayed only where it is,
-- and then nothing changes.
pub validate-HasValidated :
    (v : TokenValidator) (token : ConnectToken) (now : ℕ)
    → HasValidated v token now (validate v token now)
unfolding validate mark_used
validate-HasValidated v token now = elim (Bool-cases (is_expired token now)) [
  | inl late ↦ rw (late, validate) (refl, late)
  | inr valid ↦ elim (Bool-cases (contains_key token.client_id v.used_tokens)) [
    | inl used ↦ rw (valid, used, validate) (refl, used)
    | inr fresh ↦
        rw (valid, fresh, validate)
          (refl, valid, fresh, (make_room-IsBounded (mark_used v token.client_id now) now).0)
  ]
]

-- validations one after another
abbrev pub validate_all : TokenValidator → List (ConnectToken × ℕ) → TokenValidator
validate_all v [] = v
validate_all v ((token, now) ∷ rest) = validate_all (validate v token now).0 rest

-- While there is room, a validation forgets nothing and adds at most one entry.
validate-keeps :
    (v : TokenValidator) (token : ConnectToken) (now id : ℕ)
    → length v.used_tokens < v.max_tracked_tokens
    → contains_key id v.used_tokens ≡ true
    → (contains_key id (validate v token now).0.used_tokens ≡ true)
      × (length (validate v token now).0.used_tokens ≤ length v.used_tokens + 1)
      × ((validate v token now).0.max_tracked_tokens ≡ v.max_tracked_tokens)
unfolding validate make_room mark_used
validate-keeps v token now id room there = ground (
  arith,
  lookup-insert token.client_id id now v.used_tokens,
  length-insert token.client_id now v.used_tokens,
)

validate_all-keeps :
    (v : TokenValidator) (others : List (ConnectToken × ℕ)) (id : ℕ)
    → length v.used_tokens + length others ≤ v.max_tracked_tokens
    → contains_key id v.used_tokens ≡ true
    → contains_key id (validate_all v others).used_tokens ≡ true
validate_all-keeps v [] id room there = there
validate_all-keeps v ((token, now) ∷ others) id room there =
    let (there', grown, limit) = validate-keeps v token now id (omega arith) there in
    validate_all-keeps (validate v token now).0 others id (omega arith) there'

-- A client that is accepted is in the table.
validate_ok :
    (v : TokenValidator) (token : ConnectToken) (now : ℕ) {id : ℕ}
    → length v.used_tokens < v.max_tracked_tokens
    → (validate v token now).1 ≡ ok id
    → (contains_key token.client_id (validate v token now).0.used_tokens ≡ true)
      × (length (validate v token now).0.used_tokens ≤ length v.used_tokens + 1)
      × ((validate v token now).0.max_tracked_tokens ≡ v.max_tracked_tokens)
unfolding validate make_room mark_used
validate_ok v token now room accepted = ground (
  arith,
  ==_refl token.client_id,
  lookup-insert token.client_id token.client_id now v.used_tokens,
  length-insert token.client_id now v.used_tokens,
)

refused :
    (v : TokenValidator) (token : ConnectToken) (now : ℕ)
    → contains_key token.client_id v.used_tokens ≡ true
    → ((validate v token now).1 ≡ err expired) ⊎ ((validate v token now).1 ≡ err replayed)
unfolding validate
refused v token now there = ground (arith, there)

-- A client is accepted once: after one of its tokens was accepted, and any others were tried, no
-- token of that client is accepted, as long as the table has had room for all of them.
pub validate_replayed :
    (v : TokenValidator) (token again : ConnectToken) (now later : ℕ)
    (others : List (ConnectToken × ℕ)) {id : ℕ}
    → length v.used_tokens + length others < v.max_tracked_tokens
    → (validate v token now).1 ≡ ok id
    → again.client_id ≡ token.client_id
    → let r = (validate (validate_all (validate v token now).0 others) again later).1 in
      (r ≡ err expired) ⊎ (r ≡ err replayed)
validate_replayed v token again now later others room accepted same =
    let v' = (validate v token now).0 in
    let (there, grown, limit) = validate_ok v token now (omega arith) accepted in
    refused (validate_all v' others) again later
      (validate_all-keeps v' others again.client_id (omega arith) (rw same there))
