-- ===== src/Integrations/Http/Access.antt =====
-- Who may command the heater over HTTP, and what `hostname_of` makes of a `Host` header.
use bedjet_local.Prelude.{
  ℕ, ◌+◌, ◌≤◌, ◌≡◌, ◌≢◌, ◌⊎◌, sym, subst, refl, inl, inr, String, Bool, true, false, Option, none,
  some, [], ◌∷◌, ◌++◌, Bool-cases, arith, length,
}
use bedjet_local.Prelude.Int.{ℤ}
use bedjet_local.Python.Float.{Float}
use bedjet_local.Python.Result.{ok}
use bedjet_local.Service.Commander.{Commander}
use bedjet_local.Api.Service.{Call}
use bedjet_local.Integrations.Http.Headers.{
  Text, codes, text_eq, behind, compare_digest, count, before_first, hostname_in,
}
use bedjet_local.Integrations.Http.{
  ServerConfig, Response, Request, or_empty, is_health, Endpoint, health, is_loopback,
  check_exposure, check_config, host_is_permitted, check_token, check_access,
}
use bedjet_local.Integrations.Http.Handlers.{Answered, handle, guarded, respond}

text_eq_sound : (s t : Text) → text_eq s t ≡ true → s ≡ t
text_eq_sound [] [] h = refl
text_eq_sound [] (y ∷ ys) h = ground arith
text_eq_sound (x ∷ xs) [] h = ground arith
text_eq_sound (x ∷ xs) (y ∷ ys) h = ground (arith, text_eq_sound xs ys)

-- What stands behind a prefix, unless it is empty.
behind_sound : (p t rest : Text) → behind p t ≡ rest → rest ≢ [] → t ≡ p ++ rest
unfolding behind
behind_sound [] t rest h n = h
behind_sound (x ∷ ps) [] rest h n = absurd (n (sym h))
behind_sound (x ∷ ps) (y ∷ ys) rest h n = ground (arith, behind_sound ps ys rest)

digest_sound : (s t : Text) → compare_digest s t ≡ some true → s ≡ t
unfolding compare_digest
digest_sound s t h = ground (arith, text_eq_sound s t)

-- A configured token is long, and the header carries it behind `Bearer `.
abbrev pub HasToken : Text → Option Text → Type 0
HasToken token authorization =
    (16 ≤ length token) × (authorization ≡ some (codes "Bearer " ++ token))

token_checked :
    (token : Text) (authorization : Option Text)
    → 16 ≤ length token
    → check_token (some token) authorization ≡ none
    → HasToken token authorization
unfolding check_token
token_checked token none long h = ground (arith, digest_sound [] token)
token_checked token (some t) long h =
    let prefix = codes "Bearer " in
    ground (arith, digest_sound (behind prefix t) token, behind_sound prefix t token)

-- The request carries the configured token, or there is none, on a loopback interface.
abbrev pub IsEntitled : (Text → Option Bool) → ServerConfig → Request → Type 0
IsEntitled ip_loopback config request =
    ((config.token ≡ none) × (is_loopback ip_loopback config.host ≡ true))
    ⊎ ((token : Text) × (config.token ≡ some token) × HasToken token request.authorization)

exposed_none :
    (ip_loopback : Text → Option Bool) (host : Text)
    → check_exposure ip_loopback host none ≡ ok tt
    → is_loopback ip_loopback host ≡ true
unfolding check_exposure
exposed_none ip_loopback host h = ground arith

exposed_some :
    (ip_loopback : Text → Option Bool) (host token : Text)
    → check_exposure ip_loopback host (some token) ≡ ok tt
    → 16 ≤ length token
unfolding check_exposure
exposed_some ip_loopback host token h = ground arith

module _ (strip lower : Text → Text) (ip_loopback : Text → Option Bool) (config : ServerConfig)
    (request : Request) where
  entitled :
      (token : Option Text)
      → config.token ≡ token
      → check_config ip_loopback config ≡ ok tt
      → check_token token request.authorization ≡ none
      → IsEntitled ip_loopback config request
  unfolding check_config
  entitled none e valid h = inl (
    e,
    exposed_none ip_loopback config.host
        (subst (λ o. check_exposure ip_loopback config.host o ≡ ok tt) e valid),
  )
  entitled (some t) e valid h =
      let long =
        exposed_some ip_loopback config.host t
          (subst (λ o. check_exposure ip_loopback config.host o ≡ ok tt) e valid) in
      inr (t, e, token_checked t request.authorization long h)

  -- The guard lets a request of a valid server through to a command only if its `Host` is
  -- permitted, it has no `Origin`, and it carries the token, of at least sixteen characters, as
  -- `Bearer <token>`; without a token, only a server on a loopback interface does.
  pub access_entitles :
      check_config ip_loopback config ≡ ok tt
      → check_access strip lower ip_loopback config request ≡ none
      → (host_is_permitted strip lower ip_loopback (or_empty request.host) config ≡ true)
        × (request.has_origin ≡ false)
        × IsEntitled ip_loopback config request
  unfolding check_access
  access_entitles valid h =
      (ground arith, ground arith, entitled config.token refl valid (ground arith))

-- Nothing was written to the device, and the session was asked for nothing.
abbrev pub IsIdle : Commander → Answered → Type 0
IsIdle c x = (x.1.writes ≡ c.writes) × (x.2 ≡ [])

module _ (float_of : ℤ → Option Float) (rate : ℕ) (strip_upper lower_name : String → String)
    (to_celsius : Float → Float) where
  guarded-IsIdle :
      (access : Option Response) (call : Call) (request : Request) (c : Commander)
      → (IsIdle c (guarded float_of rate strip_upper lower_name to_celsius access call request c)
          → ⊥)
      → access ≡ none
  unfolding guarded
  guarded-IsIdle none call request c h = refl
  guarded-IsIdle (some r) call request c h = absurd (h (refl, refl))

  health-IsIdle :
      (endpoint : Endpoint) (call : Call) (request : Request) (c : Commander)
      → is_health endpoint ≡ true
      → IsIdle c
          (handle float_of rate strip_upper lower_name to_celsius call endpoint request.body c)
  unfolding handle
  health-IsIdle health call request c h = (refl, refl)
  health-IsIdle _ call request c h = absurd (ground arith)

  module _ (strip lower : Text → Text) (ip_loopback : Text → Option Bool) where
    passed_access :
        (config : ServerConfig) (call : Call) (request : Request) (c : Commander)
        → (IsIdle c (
              respond float_of rate strip_upper lower_name to_celsius strip lower ip_loopback config
                call request c)
            → ⊥)
        → check_access strip lower ip_loopback config request ≡ none
    unfolding respond
    passed_access config call request c = elim (Bool-cases (is_health request.endpoint)) [
      | inl free ↦ rw free (λ h. absurd (h (health-IsIdle request.endpoint call request c free)))
      | inr gated ↦ rw gated (guarded-IsIdle _ call request c)
    ]

    -- Whoever makes a server with a valid configuration write to the device, or yield or resume its
    -- link, named it by a permitted `Host`, sent no `Origin`, and carried the token, of at least
    -- sixteen characters, as `Bearer <token>`; without a token the server listens on a loopback
    -- interface.
    pub writes_authorised :
        (config : ServerConfig) (call : Call) (request : Request) (c : Commander)
        → check_config ip_loopback config ≡ ok tt
        → (IsIdle c (
              respond float_of rate strip_upper lower_name to_celsius strip lower ip_loopback config
                call request c)
            → ⊥)
        → (host_is_permitted strip lower ip_loopback (or_empty request.host) config ≡ true)
          × (request.has_origin ≡ false)
          × IsEntitled ip_loopback config request
    writes_authorised config call request c valid busy =
        access_entitles strip lower ip_loopback config request valid
          (passed_access config call request c busy)

-- What may stand in a `Host` header as it is, without a port.
before_first-append :
    (c : ℕ) (name rest : Text) → count c name ≡ 0 → before_first c (name ++ c ∷ rest) ≡ name
unfolding before_first count
before_first-append c [] rest h = ground arith
before_first-append c (x ∷ xs) rest h = ground (arith, before_first-append c xs rest)

count-append : (c : ℕ) (s t : Text) → count c (s ++ t) ≡ count c s + count c t
unfolding count
count-append c [] t = omega arith
count-append c (x ∷ xs) t = ground (arith, count-append c xs t)

-- The hostname in a stripped `Host` header: a name without colons and brackets, alone or before a
-- port, is itself, and a bracketed address loses its brackets and whatever follows them.
pub hostname_in_lem :
    (x : ℕ) (name port address rest : Text)
    → x ≢ 91
    → count 58 (x ∷ name) ≡ 0
    → count 58 port ≡ 0
    → count 93 address ≡ 0
    → (hostname_in (x ∷ name) ≡ x ∷ name)
      × (hostname_in (x ∷ name ++ 58 ∷ port) ≡ x ∷ name)
      × (hostname_in (91 ∷ address ++ 93 ∷ rest) ≡ address)
unfolding hostname_in count before_first
hostname_in_lem x name port address rest h n p a = (
  ground arith,
  ground (arith, before_first-append 58 name port, count-append 58 name (58 ∷ port)),
  ground (arith, before_first-append 93 address rest, count-append 93 address (93 ∷ rest)),
)
