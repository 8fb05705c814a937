-- ===== src/Security/Token.antt =====
-- Connect tokens and the table of those already used, `TokenValidator` of
-- gbnet/src/security.rs.
pub mod Replay
use gbnet.Prelude.{
  ℕ, zero, suc, ◌+◌, ◌-◌, ◌≤◌, ◌<◌, ◌≡◌, ◌⊎◌, refl, sym, ◌∙◌, ap, Bool, true, false, not, Option,
  none, some, List, [], ◌∷◌, ◌++◌, Result, ok, err, inl, inr, Bool-cases, Option-cases, ==_refl,
  ltb, leb, ◌==◌, if◌then◌else◌, length, arith,
}
use gbnet.Prelude.Bytes.{u32_to_le_bytes, u64_to_le_bytes}
use gbnet.Prelude.Maps.{
  Map, lookup, contains_key, insert, remove, retain, min_by_key, Distinct, Fresh, lookup-insert,
  length-insert, length-remove, length-retain, contains_key-min_by_key,
}
use gbnet.Config.{secs, default_max_tracked_tokens}
use gbnet.Security.Cookie.{SocketAddr}

pub record ConnectToken : Type 0 where
  pub client_id : ℕ
  pub server_addresses : List SocketAddr
  pub create_time : ℕ
  pub expire_duration : ℕ
  pub user_data : List ℕ
  pub token_data : List ℕ

unfoldable pub new_token : ℕ → List SocketAddr → ℕ → List ℕ → ℕ → ConnectToken
new_token client_id server_addresses expire_secs user_data now = record {
  client_id = client_id;
  server_addresses = server_addresses;
  create_time = now;
  expire_duration = secs expire_secs;
  user_data = user_data;
  token_data =
      u64_to_le_bytes client_id
      ++ (u64_to_le_bytes expire_secs ++ (u32_to_le_bytes (length user_data) ++ user_data));
}

abbrev pub is_expired : ConnectToken → ℕ → Bool
is_expired token now = ltb token.expire_duration (now - token.create_time)

pub data TokenError : Type 0 where
  expired replayed invalid : TokenError

pub record TokenValidator : Type 0 where
  pub used_tokens : Map ℕ
  pub token_lifetime : ℕ
  pub max_tracked_tokens : ℕ
  pub tokens_evicted : ℕ

unfoldable pub new : ℕ → TokenValidator
new token_lifetime = record {
  used_tokens = [];
  token_lifetime = token_lifetime;
  max_tracked_tokens = default_max_tracked_tokens;
  tokens_evicted = 0;
}

unfoldable pub with_max_tracked_tokens : TokenValidator → ℕ → TokenValidator
with_max_tracked_tokens v max = record v { max_tracked_tokens = max }

unfoldable pub cleanup : TokenValidator → ℕ → TokenValidator
cleanup v now = record v {
  used_tokens = retain (λ _ created. ltb (now - created) v.token_lifetime) v.used_tokens;
}

-- One round of the loop: the token that was used first is forgotten.
unfoldable pub evict : TokenValidator → ℕ → TokenValidator
evict v key = record v {
  used_tokens = remove key v.used_tokens;
  tokens_evicted = v.tokens_evicted + 1;
}

-- `while used_tokens.len() > max_tracked_tokens`. Each round takes an entry out of the table, so
-- as many rounds as it has entries are enough.
unfoldable pub evict_rounds : ℕ → TokenValidator → TokenValidator
evict_rounds zero v = v
evict_rounds (suc n) v =
    if leb (length v.used_tokens) v.max_tracked_tokens
    then v
    else elim (min_by_key (λ t. t) v.used_tokens) [
      | none ↦ v
      | some key ↦ evict_rounds n (evict v key)
    ]

unfoldable pub make_room : TokenValidator → ℕ → TokenValidator
make_room v now =
    if leb (length v.used_tokens) v.max_tracked_tokens
    then v
    else evict_rounds (length v.used_tokens) (cleanup v now)

-- `used_tokens.insert(client_id, now)`
unfoldable pub mark_used : TokenValidator → ℕ → ℕ → TokenValidator
mark_used v client_id now = record v { used_tokens = insert client_id now v.used_tokens }

unfoldable pub validate : TokenValidator → ConnectToken → ℕ → TokenValidator × Result ℕ TokenError
validate v token now =
    if is_expired token now
    then (v, err expired)
    else if contains_key token.client_id v.used_tokens
    then (v, err replayed)
    else (make_room (mark_used v token.client_id now) now, ok token.client_id)
