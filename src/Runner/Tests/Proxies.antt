-- ===== src/Runner/Tests/Proxies.antt =====
-- A request to the product, one to another site, and the reading of what was blocked.
use trawler.Base.{ℕ, ◌+◌, refl, Bool, false, Option, none, some, [], ◌∷◌, if◌then◌else◌}
use trawler.Runner.Proxy.{
  origin, Session, Address, Request, dials, Serving, asks, resolves, reads, Reach, here, next,
  opened, refuse, take_blocked, admit, connect, destination, max_connections,
}
use trawler.Runner.Proxy.Kept.{IsKept, Reach-IsKept}

abbrev with_scheme : Bool → ℕ → ℕ → ℕ
with_scheme https host port = if https then 1000 + host else host

abbrev no_ip : ℕ → Option ℕ
no_ip host = none

abbrev blocks_private : ℕ → Bool → Bool
blocks_private address is_v6 = false

abbrev product : Request
product = record { host = 5; port = 80; shown = 5 }

abbrev other_site : Request
other_site = record { host = 7; port = 80; shown = 7 }

abbrev served : Address
served = record { address = 42; family = 4 }

abbrev asked : Serving
asked = record (opened (5 ∷ [])) { resolving = product ∷ [] }

abbrev busy : Session
busy = record { origins = 5 ∷ []; blocked = []; reported = []; connections = 1 }

abbrev at_work : Serving
at_work = record {
  session = busy;
  told = [];
  resolving = [];
  upstreams = record { request = product; address = served } ∷ [];
}

abbrev refused_once : Serving
refused_once = record at_work {
  session = record busy { blocked = record { url = 7; reason = origin } ∷ []; reported = 7 ∷ [] };
}

abbrev told_once : Serving
told_once = record at_work {
  session = record busy { reported = 7 ∷ [] };
  told = record { url = 7; reason = origin } ∷ [];
}

a_session : Reach with_scheme no_ip blocks_private max_connections (opened (5 ∷ [])) told_once
unfolding refuse take_blocked admit connect destination
a_session =
    next
      (next
        (next (next here (asks (opened (5 ∷ [])) product))
          (resolves asked [] [] product (some (served ∷ [])) (dials served) busy refl refl))
        (asks at_work other_site))
      (reads refused_once)

Reach-IsKept_example : IsKept with_scheme blocks_private max_connections (5 ∷ []) told_once
Reach-IsKept_example =
    Reach-IsKept with_scheme blocks_private max_connections (5 ∷ []) no_ip a_session
