-- ===== src/Runner/Proxy.antt =====
-- The proxy through which a job's browser reaches the product under test (egress-proxy.ts, with
-- `isBlockedAddress` of the core package's network.ts). A session of the proxy is its state; a
-- request is opened in two parts, since the host is resolved in between, and requests interleave.
-- How an origin is written, what a name resolves to and the list of blocked addresses are
-- parameters. A host, a port, an address and a text are numbers.
pub mod Once
pub mod Kept
use trawler.Base.{
  ℕ, suc, ◌+◌, ◌-◌, ◌≡◌, Bool, true, false, Option, none, some, List, [], ◌∷◌, ◌++◌, leb, ◌==◌,
  ◌||◌, if◌then◌else◌, length, any, mem,
}

-- `MAX_BLOCKED`, `MAX_CONNECTIONS`
abbrev pub max_blocked : ℕ
max_blocked = 100

abbrev pub max_connections : ℕ
max_connections = 128

pub data Reason : Type 0 where
  origin private : Reason

pub record BlockedAttempt : Type 0 where
  pub url : ℕ
  pub reason : Reason

pub record Session : Type 0 where
  pub origins : List ℕ
  pub blocked : List BlockedAttempt
  pub reported : List ℕ
  pub connections : ℕ

pub record Address : Type 0 where
  pub address : ℕ
  pub family : ℕ

unfoldable pub refuse : ℕ → Reason → Session → Session
refuse url reason s =
    if mem url s.reported || leb max_blocked (length s.blocked) then s else record s {
      reported = s.reported ++ url ∷ [];
      blocked = s.blocked ++ record { url = url; reason = reason } ∷ [];
    }

-- What a session told of its blocked attempts is told once: `s.blocked.splice(0)`.
unfoldable pub take_blocked : Session → List BlockedAttempt × Session
take_blocked s = (s.blocked, record s { blocked = [] })

-- What is asked for: a host, its port, and how the address is shown if it is refused.
pub record Request : Type 0 where
  pub host : ℕ
  pub port : ℕ
  pub shown : ℕ

pub data Target : Type 0 where
  found : Address → Target
  private unresolved : Target

-- How `open` ends: by a status, 403, 502 or 429, or by dialling an address.
pub data Opened : Type 0 where
  forbidden bad_gateway too_many_requests : Opened
  dials : Address → Opened

-- `origin_of` is the origin of a host and port, with http or with https.
abbrev pub candidates : (Bool → ℕ → ℕ → ℕ) → Request → List ℕ
candidates origin_of r = origin_of false r.host r.port ∷ origin_of true r.host r.port ∷ []

abbrev pub allowed : (Bool → ℕ → ℕ → ℕ) → List ℕ → Request → Bool
allowed origin_of origins r = any (λ o. mem o origins) (candidates origin_of r)

-- `blocks` is the check of the list of addresses, for IPv6 or not.
abbrev pub is_blocked_address : (ℕ → Bool → Bool) → Address → Bool
is_blocked_address blocks a = blocks a.address (a.family == 6)

abbrev pub chosen : (ℕ → Bool → Bool) → List Address → Target
chosen blocks [] = unresolved
chosen blocks (a ∷ addresses) =
    if any (is_blocked_address blocks) (a ∷ addresses) then Target.private else found a

-- `is_ip` is the family of an address that stands in place of a name, and `resolved` what the name
-- resolves to, if it does.
unfoldable pub destination : (ℕ → Option ℕ) → (ℕ → Bool → Bool) → ℕ → Option (List Address) → Target
destination is_ip blocks host resolved = elim (is_ip host) [
  | some family ↦ chosen blocks (record { address = host; family = family } ∷ [])
  | none ↦ elim resolved [ none ↦ unresolved | some addresses ↦ chosen blocks addresses ]
]

-- `open` before the host is resolved: whether it goes on.
unfoldable pub admit : (Bool → ℕ → ℕ → ℕ) → Request → Session → Bool × Session
unfolding refuse
admit origin_of r s =
    if allowed origin_of s.origins r then (true, s) else (false, refuse r.shown origin s)

-- `open` from then on, with at most `most` connections.
unfoldable pub connect : ℕ → Request → Target → Session → Opened × Session
unfolding refuse
connect most r Target.private s = (forbidden, refuse r.shown Reason.private s)
connect most r unresolved s = (bad_gateway, s)
connect most r (found a) s =
    if leb most s.connections
    then (too_many_requests, s)
    else (dials a, record s { connections = suc s.connections })

-- The dialling fails, or the connection is closed.
unfoldable pub hang_up : Session → Session
hang_up s = record s { connections = s.connections - 1 }

pub record Dialled : Type 0 where
  pub request : Request
  pub address : Address

-- A session with what it told, the requests whose hosts are being resolved, and the connections
-- that are dialled or open.
pub record Serving : Type 0 where
  pub session : Session
  pub told : List BlockedAttempt
  pub resolving : List Request
  pub upstreams : List Dialled

abbrev pub admitted : Request → Bool × Session → Serving → Serving
admitted r (true, s) p = record p { session = s; resolving = r ∷ p.resolving }
admitted r (false, s) p = record p { session = s }

abbrev pub connected : Request → Opened → Session → Serving → Serving
connected r (dials a) s p = record p {
  session = s;
  upstreams = record { request = r; address = a } ∷ p.upstreams;
}
connected r forbidden s p = record p { session = s }
connected r bad_gateway s p = record p { session = s }
connected r too_many_requests s p = record p { session = s }

abbrev pub opened : List ℕ → Serving
opened origins = record {
  session = record { origins = origins; blocked = []; reported = []; connections = 0 };
  told = [];
  resolving = [];
  upstreams = [];
}

module _ (origin_of : Bool → ℕ → ℕ → ℕ) (is_ip : ℕ → Option ℕ) (blocks : ℕ → Bool → Bool)
    (most : ℕ) where
  pub data Step : Serving → Serving → Type 0 where
    asks : (p : Serving) (r : Request) → Step p (admitted r (admit origin_of r p.session) p)
    -- A host is resolved, in any order of the requests.
    resolves :
        (p : Serving) (before after : List Request) (r : Request) (resolved : Option (List Address))
        (end : Opened) (s : Session)
        → p.resolving ≡ before ++ r ∷ after
        → connect most r (destination is_ip blocks r.host resolved) p.session ≡ (end, s)
        → Step p (connected r end s (record p { resolving = before ++ after }))
    closes :
        (p : Serving) (before after : List Dialled) (d : Dialled)
        → p.upstreams ≡ before ++ d ∷ after
        → Step p (record p { session = hang_up p.session; upstreams = before ++ after })
    reads :
        (p : Serving)
        → Step p (record p {
          session = (take_blocked p.session).1;
          told = p.told ++ (take_blocked p.session).0;
        })

  pub data Reach (p : Serving) : Serving → Type 0 where
    here : Reach p p
    next : {q r : Serving} → Reach p q → Step q r → Reach p r
