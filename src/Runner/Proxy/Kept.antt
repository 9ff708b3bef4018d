-- ===== src/Runner/Proxy/Kept.antt =====
-- What a session of the proxy keeps to, however its requests interleave.
use mathlib.Core.Path.{subst}
use trawler.Base.{
  ℕ, suc, ◌≤◌, ◌≡◌, refl, sym, ap, ◌∙◌, arith, Bool, true, false, Option, none, some, List, [], ◌∷◌,
  ◌++◌, leb, ◌||◌, if◌then◌else◌, length, any, All,
}
use trawler.Runner.Proxy.Once.{IsOnce, refuse-IsOnce, reads-IsOnce, refuse_same}
use trawler.Runner.Proxy.{
  Reason, origin, Session, Address, refuse, take_blocked, Request, Target, found, unresolved,
  Opened, too_many_requests, dials, allowed, is_blocked_address, chosen, destination, admit,
  connect, Dialled, Serving, admitted, connected, hang_up, Step, asks, resolves, closes, reads,
  Reach, here, next, opened,
}

All-without {ℓ κ} :
    {A : Type ℓ} (P : A → Type κ) (xs ys : List A) (x : A)
    → All P (xs ++ x ∷ ys)
    → P x × All P (xs ++ ys)
All-without P [] ys x h = h
All-without P (y ∷ xs) ys x (h, hs) = let rest = All-without P xs ys x hs in (rest.0, (h, rest.1))

length-without {ℓ} :
    {A : Type ℓ} (xs ys : List A) (x : A) → length (xs ++ x ∷ ys) ≡ suc (length (xs ++ ys))
length-without [] ys x = refl
length-without (y ∷ xs) ys x = omega (arith, length-without xs ys x)

module _ (origin_of : Bool → ℕ → ℕ → ℕ) (blocks : ℕ → Bool → Bool) (most : ℕ)
    (origins : List ℕ) where
  abbrev pub MayAsk : Request → Type 0
  MayAsk r = allowed origin_of origins r ≡ true

  -- A connection goes to an origin of the session, and to an address that is not blocked.
  abbrev pub IsSafe : Dialled → Type 0
  IsSafe d = MayAsk d.request × (is_blocked_address blocks d.address ≡ false)

  pub record IsKept (p : Serving) : Type 0 where
    pub same : p.session.origins ≡ origins
    pub counted : p.session.connections ≡ length p.upstreams
    pub few : length p.upstreams ≤ most
    pub waiting : All MayAsk p.resolving
    pub safe : All IsSafe p.upstreams
    pub once : IsOnce p.told p.session

  refused-IsKept :
      (p : Serving) (url : ℕ) (reason : Reason)
      → IsKept p
      → IsKept (record p { session = refuse url reason p.session })
  refused-IsKept p url reason h = record {
    same = (refuse_same url reason p.session).0 ∙ h.same;
    counted = (refuse_same url reason p.session).1 ∙ h.counted;
    few = h.few;
    waiting = h.waiting;
    safe = h.safe;
    once = refuse-IsOnce url reason p.told p.session h.once;
  }

  admit-IsKept_if :
      (b : Bool) (p : Serving) (r : Request)
      → allowed origin_of origins r ≡ b
      → IsKept p
      → IsKept
          (admitted r (if b then (true, p.session) else (false, refuse r.shown origin p.session)) p)
  admit-IsKept_if false p r e h = refused-IsKept p r.shown origin h
  admit-IsKept_if true p r e h = record {
    same = h.same;
    counted = h.counted;
    few = h.few;
    waiting = (e, h.waiting);
    safe = h.safe;
    once = h.once;
  }

  admit-IsKept :
      (p : Serving) (r : Request) → IsKept p → IsKept (admitted r (admit origin_of r p.session) p)
  unfolding admit
  admit-IsKept p r h =
      admit-IsKept_if (allowed origin_of p.session.origins r) p r
        (ap (λ o. allowed origin_of o r) (sym h.same)) h

  hang_up-IsKept :
      (p : Serving) (before after : List Dialled) (d : Dialled)
      → p.upstreams ≡ before ++ d ∷ after
      → IsKept p
      → IsKept (record p { session = hang_up p.session; upstreams = before ++ after })
  unfolding hang_up
  hang_up-IsKept p before after d e h =
      let n : length p.upstreams ≡ suc (length (before ++ after)) =
        ap length e ∙ length-without before after d in
      record {
        same = h.same;
        counted = omega (arith, n, h.counted);
        few = omega (arith, n, h.few);
        waiting = h.waiting;
        safe = (All-without IsSafe before after d (subst (All IsSafe) e h.safe)).1;
        once = h.once;
      }

  -- What is found is not blocked.
  abbrev IsPublic : Target → Type 0
  IsPublic (found a) = is_blocked_address blocks a ≡ false
  IsPublic Target.private = Unit
  IsPublic unresolved = Unit

  chosen-IsPublic_if :
      (first rest : Bool) (a : Address)
      → is_blocked_address blocks a ≡ first
      → IsPublic (if first || rest then Target.private else found a)
  chosen-IsPublic_if true rest a e = tt
  chosen-IsPublic_if false true a e = tt
  chosen-IsPublic_if false false a e = e

  chosen-IsPublic : (addresses : List Address) → IsPublic (chosen blocks addresses)
  chosen-IsPublic [] = tt
  chosen-IsPublic (a ∷ addresses) =
      chosen-IsPublic_if (is_blocked_address blocks a) (any (is_blocked_address blocks) addresses) a
        refl

  destination-IsPublic :
      (is_ip : ℕ → Option ℕ) (host : ℕ) (resolved : Option (List Address))
      → IsPublic (destination is_ip blocks host resolved)
  unfolding destination
  destination-IsPublic is_ip host resolved =
      elim (is_ip host)
        as (λ ip. IsPublic (elim ip [
          | some family ↦ chosen blocks (record { address = host; family = family } ∷ [])
          | none ↦ elim resolved [ none ↦ unresolved | some addresses ↦ chosen blocks addresses ]
        ])) [
          | some family ↦ chosen-IsPublic (record { address = host; family = family } ∷ [])
          | none ↦ resolved-IsPublic resolved
        ]
    where
      resolved-IsPublic :
          (r : Option (List Address))
          → IsPublic (elim r [ none ↦ unresolved | some addresses ↦ chosen blocks addresses ])
      resolved-IsPublic none = tt
      resolved-IsPublic (some addresses) = chosen-IsPublic addresses

  connect-IsKept_if :
      (full : Bool) (a : Address) (r : Request) (p : Serving)
      → MayAsk r
      → is_blocked_address blocks a ≡ false
      → leb most p.session.connections ≡ full
      → IsKept p
      → let out : Opened × Session =
          (if full
            then (too_many_requests, p.session)
            else (dials a, record p.session { connections = suc p.session.connections })) in
        IsKept (connected r out.0 out.1 p)
  connect-IsKept_if true a r p may public e h = h
  connect-IsKept_if false a r p may public e h = record {
    same = h.same;
    counted = omega (arith, h.counted);
    few = ground (arith, h.counted);
    waiting = h.waiting;
    safe = ((may, public), h.safe);
    once = h.once;
  }

  connect-IsKept :
      (t : Target) (r : Request) (p : Serving)
      → MayAsk r
      → IsPublic t
      → IsKept p
      → IsKept (connected r (connect most r t p.session).0 (connect most r t p.session).1 p)
  unfolding connect
  connect-IsKept Target.private r p may public h = refused-IsKept p r.shown Reason.private h
  connect-IsKept unresolved r p may public h = h
  connect-IsKept (found a) r p may public h =
      connect-IsKept_if (leb most p.session.connections) a r p may public refl h

  resolved-IsKept :
      (p : Serving) (before after : List Request) (r : Request)
      → p.resolving ≡ before ++ r ∷ after
      → IsKept p
      → MayAsk r × IsKept (record p { resolving = before ++ after })
  resolved-IsKept p before after r e h =
      let ask = All-without MayAsk before after r (subst (All MayAsk) e h.waiting) in
      (
        ask.0,
        record {
          same = h.same;
          counted = h.counted;
          few = h.few;
          waiting = ask.1;
          safe = h.safe;
          once = h.once;
        },
      )

  reads-IsKept :
      (p : Serving)
      → IsKept p
      → IsKept (record p {
        session = (take_blocked p.session).1;
        told = p.told ++ (take_blocked p.session).0;
      })
  unfolding take_blocked
  reads-IsKept p h = record {
    same = h.same;
    counted = h.counted;
    few = h.few;
    waiting = h.waiting;
    safe = h.safe;
    once = reads-IsOnce p.told p.session h.once;
  }

  module _ (is_ip : ℕ → Option ℕ) where
    Step-IsKept : {p q : Serving} → Step origin_of is_ip blocks most p q → IsKept p → IsKept q
    Step-IsKept (asks p r) h = admit-IsKept p r h
    Step-IsKept (resolves p before after r resolved end s e f) h =
        let (may, kept) = resolved-IsKept p before after r e h in
        subst (λ out. IsKept (connected r out.0 out.1 (record p { resolving = before ++ after }))) f
          (connect-IsKept (destination is_ip blocks r.host resolved) r
            (record p { resolving = before ++ after }) may
            (destination-IsPublic is_ip r.host resolved) kept)
    Step-IsKept (closes p before after d e) h = hang_up-IsKept p before after d e h
    Step-IsKept (reads p) h = reads-IsKept p h

    -- However its requests interleave with the resolving of their hosts, with closed connections
    -- and with readings of what it blocked, a session of the proxy has at most as many connections
    -- as are allowed, and counts them exactly; each goes to an origin of the session, and to an
    -- address that is not on the list of blocked ones; each address that is refused is told at most
    -- once, and at most 100 of them wait to be told.
    pub Reach-IsKept :
        {p : Serving} → Reach origin_of is_ip blocks most (opened origins) p → IsKept p
    Reach-IsKept here = record {
      same = refl;
      counted = refl;
      few = omega arith;
      waiting = tt;
      safe = tt;
      once = (λ url. (omega arith, omega arith), omega arith);
    }
    Reach-IsKept (next reach step) = Step-IsKept step (Reach-IsKept reach)
