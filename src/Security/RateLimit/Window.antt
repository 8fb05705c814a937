-- ===== src/Security/RateLimit/Window.antt =====
-- How many requests of an address pass `ConnectionRateLimiter` of gbnet/src/security.rs.
use gbnet.Prelude.{ℕ, ◌+◌, ◌≤◌, ◌≡◌, List, [], ◌∷◌, ◌++◌, ◌⊎◌, length}
use gbnet.Security.Cookie.{SocketAddr}
use gbnet.Security.RateLimit.{ConnectionRateLimiter, recent, timestamps_of, allow, request, passed}
use gbnet.Security.RateLimit.Recent.{Known}

-- One request of the address: it passes where fewer than the limit are recent.
abbrev AllowsWithin : ℕ → ℕ → SocketAddr → ConnectionRateLimiter → Type 0
AllowsWithin key now addr r =
    let ts = recent now r.window (timestamps_of key r.requests) in
    let ts' = timestamps_of key (allow r addr now).0.requests in
    let out = passed key r (request addr now) in
    ((out ≡ []) × (ts' ≡ ts))
    ⊎ ((out ≡ now ∷ []) × (length ts + 1 ≤ r.max_requests_per_second) × (ts' ≡ ts ++ (now ∷ [])))

-- The same of a limiter, for one address.
abbrev Knows : ℕ → ℕ → List ℕ → ConnectionRateLimiter → Type 0
Knows key last log r =
    Known r.window r.max_requests_per_second last log (timestamps_of key r.requests)
