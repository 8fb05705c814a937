-- ===== src/Security/RateLimit.antt =====
-- The limiter of connection requests per source address, `ConnectionRateLimiter` of
-- gbnet/src/security.rs. `duration_since` is the difference of two times, 0 at least.
pub mod Recent
pub mod Window
use mathlib.Core.List.{foldl}
use gbnet.Prelude.{
  ℕ, suc, ◌+◌, ◌-◌, ◌*◌, ◌^◌, ◌≤◌, ◌≡◌, refl, sym, ap, ◌∙◌, Bool, true, false, not, Option, none,
  some, List, [], ◌∷◌, ◌++◌, append-nil, append_assoc, ◌⊎◌, inl, inr, Bool-cases, ==_refl, ltb, leb,
  ◌==◌, if◌then◌else◌, length, length-append, arith,
}
use gbnet.Prelude.Maps.{Map, lookup, insert, Distinct, Fresh, lookup-insert, insert-Distinct}
use gbnet.Config.{secs}
use gbnet.Security.Cookie.{IpAddr, v4, v6, SocketAddr}

-- An address as a key: its octets as one number, the IPv6 addresses above the IPv4 ones.
abbrev pub ip_key : IpAddr → ℕ
ip_key (v4 o) = foldl (λ n b. n * 256 + b) 0 o
ip_key (v6 o) = 2 ^ 32 + foldl (λ n b. n * 256 + b) 0 o

pub record ConnectionRateLimiter : Type 0 where
  pub requests : Map (List ℕ)
  pub max_requests_per_second : ℕ
  pub window : ℕ

unfoldable pub new : ℕ → ConnectionRateLimiter
new max_requests_per_second = record {
  requests = [];
  max_requests_per_second = max_requests_per_second;
  window = secs 1;
}

-- `timestamps.retain(|t| now.duration_since(*t) < window)`
unfoldable pub recent : ℕ → ℕ → List ℕ → List ℕ
recent now window [] = []
recent now window (t ∷ ts) =
    if ltb (now - t) window then t ∷ recent now window ts else recent now window ts

-- `requests.entry(ip).or_default()`
unfoldable pub timestamps_of : ℕ → Map (List ℕ) → List ℕ
timestamps_of key m = elim (lookup key m) [ none ↦ [] | some ts ↦ ts ]

unfoldable pub allow : ConnectionRateLimiter → SocketAddr → ℕ → ConnectionRateLimiter × Bool
allow r addr now =
    let key = ip_key addr.ip in
    let timestamps = recent now r.window (timestamps_of key r.requests) in
    let allowed = not (leb r.max_requests_per_second (length timestamps)) in
    (
      record r {
        requests = insert key (if allowed then timestamps ++ (now ∷ []) else timestamps) r.requests;
      },
      allowed,
    )

-- The addresses with recent requests, and those alone.
unfoldable pub retain_recent : ℕ → ℕ → Map (List ℕ) → Map (List ℕ)
retain_recent now window [] = []
retain_recent now window ((key, ts) ∷ m) = elim (recent now window ts) [
  | [] ↦ retain_recent now window m
  | t ∷ rest ↦ (key, t ∷ rest) ∷ retain_recent now window m
]

unfoldable pub cleanup : ConnectionRateLimiter → ℕ → ConnectionRateLimiter
cleanup r now = record r { requests = retain_recent now r.window r.requests }

-- A request of an address, or a cleanup, at a time.
pub data Event : Type 0 where
  request : SocketAddr → ℕ → Event
  clean : ℕ → Event

abbrev pub time_of : Event → ℕ
time_of (request addr now) = now
time_of (clean now) = now

abbrev pub after : ConnectionRateLimiter → Event → ConnectionRateLimiter
after r (request addr now) = (allow r addr now).0
after r (clean now) = cleanup r now

-- the times at which an event lets a request of the address pass
abbrev pub passed : ℕ → ConnectionRateLimiter → Event → List ℕ
passed key r (request addr now) =
    if ip_key addr.ip == key then if (allow r addr now).1 then now ∷ [] else [] else []
passed key r (clean now) = []

abbrev pub all_passed : ℕ → ConnectionRateLimiter → List Event → List ℕ
all_passed key r [] = []
all_passed key r (e ∷ es) = passed key r e ++ all_passed key (after r e) es

-- The clock does not go back.
abbrev pub InOrder : ℕ → List Event → Type 0
InOrder last [] = Unit
InOrder last (e ∷ es) = (last ≤ time_of e) × InOrder (time_of e) es

abbrev pub end_time : ℕ → List Event → ℕ
end_time last [] = last
end_time last (e ∷ es) = end_time (time_of e) es
