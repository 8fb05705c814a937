-- ===== src/Server/Admission.antt =====
-- Who gets into a server, gbnet/src/server.rs, that answers a first request with a cookie.
use gbnet.Prelude.{
  ℕ, ◌≡◌, ap, Bool, true, false, ◌⊎◌, inl, inr, Option-cases, List, [], ◌∷◌, ◌++◌, arith,
}
use gbnet.Prelude.Maps.{
  Map, lookup, contains_key, insert, remove, retain, lookup-insert, Fresh-remove, Fresh-retain,
}
use gbnet.Packet.{PacketType, connection_request_with_cookie}
use gbnet.Security.Cookie.{SocketAddr, validate_cookie, cookie_from_u64_pair}
use gbnet.Server.{
  ServerEvent, client_connected, client_disconnected, message, client_migrated, NetServer, Inputs,
  addr_key, default_cookie_window_secs,
}
use gbnet.Server.Run.{Action, arrives}

-- A packet shows the cookie of its address, at the time of the server's clock.
abbrev pub shows : List ℕ → Inputs → SocketAddr → PacketType → Bool
shows secret i addr (connection_request_with_cookie high low) =
    validate_cookie (cookie_from_u64_pair high low) addr i.unix_secs secret
      default_cookie_window_secs
shows secret i addr _ = false

-- The action is a packet from the address with a valid cookie.
abbrev pub Shows : List ℕ → ℕ → Action → Type 0
Shows secret key (arrives i addr p) =
    (addr_key addr ≡ key) × (shows secret i addr p.packet_type ≡ true)
Shows secret key _ = ⊥

abbrev pub HasShown : List ℕ → ℕ → List Action → Type 0
HasShown secret key [] = ⊥
HasShown secret key (a ∷ actions) = Shows secret key a ⊎ HasShown secret key actions

-- A client with this address is said to have connected.
abbrev pub Tells : ℕ → List ServerEvent → Type 0
Tells key [] = ⊥
Tells key (client_connected k ∷ events) = (k ≡ key) ⊎ Tells key events
Tells key (client_disconnected _ _ ∷ events) = Tells key events
Tells key (message _ _ _ ∷ events) = Tells key events
Tells key (client_migrated _ _ ∷ events) = Tells key events

pub Tells-append :
    (key : ℕ) (xs ys : List ServerEvent) → Tells key (xs ++ ys) → Tells key xs ⊎ Tells key ys
Tells-append key [] ys h = inr h
Tells-append key (client_connected k ∷ xs) ys (inl e) = inl (inl e)
Tells-append key (client_connected k ∷ xs) ys (inr h) = elim (Tells-append key xs ys h) [
  | inl g ↦ inl (inr g)
  | inr g ↦ inr g
]
Tells-append key (client_disconnected _ _ ∷ xs) ys h = Tells-append key xs ys h
Tells-append key (message _ _ _ ∷ xs) ys h = Tells-append key xs ys h
Tells-append key (client_migrated _ _ ∷ xs) ys h = Tells-append key xs ys h

module _ {ℓ κ} {V : Type ℓ} {W : Type κ} where
  abbrev pub IsPending : ℕ → NetServer V W → Type 0
  IsPending key s = contains_key key s.pending ≡ true

  -- What a step of a server may do, `Shown` being the addresses with a valid cookie: it waits for
  -- no other address anew, and lets in only one that it waited for.
  pub record Admits (Shown : ℕ → Type 0) (s s' : NetServer V W) (events : List ServerEvent)
      : Type 0 where
    pub secret : s'.cookie_secret ≡ s.cookie_secret
    pub cookies : s'.config.enable_stateless_cookie ≡ s.config.enable_stateless_cookie
    pub pending : (key : ℕ) → IsPending key s' → IsPending key s ⊎ Shown key
    pub told : (key : ℕ) → Tells key events → IsPending key s

  pub nothing_told :
      (Shown : ℕ → Type 0) (s s' : NetServer V W)
      → s'.cookie_secret ≡ s.cookie_secret
      → s'.config ≡ s.config
      → s'.pending ≡ s.pending
      → Admits Shown s s' []
  nothing_told Shown s s' e g h = record {
    secret = e;
    cookies = ap (λ c. c.enable_stateless_cookie) g;
    pending = λ key p. inl (rw (h) at p);
    told = λ key t. absurd t;
  }

module _ {ℓ} {A : Type ℓ} where
  pub contains-insert :
      (k j : ℕ) (a : A) (m : Map A)
      → contains_key k (insert j a m) ≡ true
      → (contains_key k m ≡ true) ⊎ (j ≡ k)
  contains-insert k j a m h = ground (arith, lookup-insert j k a m)

  pub contains-remove :
      (k j : ℕ) (m : Map A) → contains_key k (remove j m) ≡ true → contains_key k m ≡ true
  contains-remove k j m h = elim (Option-cases (lookup k m)) [
    | inl e ↦ let g = Fresh-remove k j m e in ground arith
    | inr (a, e) ↦ ground arith
  ]

  pub contains-retain :
      (k : ℕ) (p : ℕ → A → Bool) (m : Map A)
      → contains_key k (retain p m) ≡ true
      → contains_key k m ≡ true
  contains-retain k p m h = elim (Option-cases (lookup k m)) [
    | inl e ↦ let g = Fresh-retain k p m e in ground arith
    | inr (a, e) ↦ ground arith
  ]
