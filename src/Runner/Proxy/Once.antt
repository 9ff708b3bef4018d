-- ===== src/Runner/Proxy/Once.antt =====
-- What a session of the proxy tells of the addresses that it refused.
use mathlib.Core.Path.{subst}
use trawler.Base.{
  ℕ, ◌+◌, ◌≤◌, ◌≡◌, refl, arith, Bool, true, false, List, [], ◌∷◌, ◌++◌, leb, ◌==◌, ◌||◌,
  if◌then◌else◌, length, mem, map, count, count-append, count-mem, length-append, inl, inr,
  Bool-cases,
}
use trawler.Runner.Proxy.{max_blocked, Reason, BlockedAttempt, Session, refuse, take_blocked}

abbrev pub url_of : BlockedAttempt → ℕ
url_of b = b.url

-- How often an address is told, or waits to be told.
abbrev pub times : ℕ → List BlockedAttempt → ℕ
times url attempts = count url (map url_of attempts)

pub times-append :
    (url : ℕ) (xs ys : List BlockedAttempt) → times url (xs ++ ys) ≡ times url xs + times url ys
times-append url [] ys = omega arith
times-append url (x ∷ xs) ys = ground (arith, times-append url xs ys)

-- Each address is told or waits at most once, and only if it was reported.
abbrev pub IsOnce : List BlockedAttempt → Session → Type 0
IsOnce told s =
    ((url : ℕ)
      → (times url told + times url s.blocked ≡ count url s.reported) × (count url s.reported ≤ 1))
    × (length s.blocked ≤ max_blocked)

one_more :
    (url v : ℕ) (reported : List ℕ)
    → mem url reported ≡ false
    → count v reported ≤ 1
    → count v (reported ++ url ∷ []) ≤ 1
one_more url v reported new le = elim (Bool-cases (url == v)) [
  | inl same ↦
      let e : url ≡ v = ground arith in
      let zero_times : count v reported ≡ 0 =
        subst (λ u. count u reported ≡ 0) e (count-mem url reported new) in
      ground (arith, count-append v reported (url ∷ []))
  | inr other ↦ ground (arith, count-append v reported (url ∷ []))
]

refuse-IsOnce_if :
    (known full : Bool) (url : ℕ) (reason : Reason) (told : List BlockedAttempt) (s : Session)
    → mem url s.reported ≡ known
    → leb max_blocked (length s.blocked) ≡ full
    → IsOnce told s
    → IsOnce told (
        if known || full then s else record s {
          reported = s.reported ++ url ∷ [];
          blocked = s.blocked ++ record { url = url; reason = reason } ∷ [];
        })
refuse-IsOnce_if true full url reason told s e f h = h
refuse-IsOnce_if false true url reason told s e f h = h
refuse-IsOnce_if false false url reason told s e f (h, few) =
    let attempt : BlockedAttempt = record { url = url; reason = reason } in
    (
      λ v. (
        ground (
          arith,
          (h v).0,
          times-append v s.blocked (attempt ∷ []),
          count-append v s.reported (url ∷ []),
        ),
        one_more url v s.reported e (h v).1,
      ),
      ground (arith, length-append s.blocked (attempt ∷ [])),
    )

pub refuse-IsOnce :
    (url : ℕ) (reason : Reason) (told : List BlockedAttempt) (s : Session)
    → IsOnce told s
    → IsOnce told (refuse url reason s)
unfolding refuse
refuse-IsOnce url reason told s h =
    refuse-IsOnce_if (mem url s.reported) (leb max_blocked (length s.blocked)) url reason told s
      refl refl h

pub reads-IsOnce :
    (told : List BlockedAttempt) (s : Session)
    → IsOnce told s
    → IsOnce (told ++ (take_blocked s).0) (take_blocked s).1
unfolding take_blocked
reads-IsOnce told s (h, few) =
    (λ v. (ground (arith, (h v).0, times-append v told s.blocked), (h v).1), omega arith)

-- A refusal changes neither the origins nor the connections.
pub refuse_same :
    (url : ℕ) (reason : Reason) (s : Session)
    → ((refuse url reason s).origins ≡ s.origins)
      × ((refuse url reason s).connections ≡ s.connections)
unfolding refuse
refuse_same url reason s =
    elim (mem url s.reported || leb max_blocked (length s.blocked))
      as (λ b.
        let t : Session =
          (if b then s else record s {
            reported = s.reported ++ url ∷ [];
            blocked = s.blocked ++ record { url = url; reason = reason } ∷ [];
          }) in
        (t.origins ≡ s.origins) × (t.connections ≡ s.connections)) [
          | true ↦ (refl, refl)
          | false ↦ (refl, refl)
        ]
