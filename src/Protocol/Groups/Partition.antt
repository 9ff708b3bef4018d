-- ===== src/Protocol/Groups/Partition.antt =====
-- `settleGroups` partitions the keys, whatever the model answered.
use trawler.Base.{
  ℕ, ◌+◌, ◌≤◌, ◌≡◌, ◌≢◌, refl, Bool, true, false, not, ◌&&◌, List, [], ◌∷◌, ◌++◌, arith, inl, inr,
  mem, count, count-pos_of_mem, All, All-append, if◌then◌else◌, Bool-cases,
}
use trawler.Protocol.Groups.{take_members, push_members, place_groups, place_rest, settle_groups}

-- How often a key occurs in some groups.
abbrev pub occurrences : ℕ → List (List ℕ) → ℕ
occurrences k [] = 0
occurrences k (group ∷ groups) = count k group + occurrences k groups

-- How often a key counts as placed: once if it is in the set.
abbrev once : Bool → ℕ
once true = 1
once false = 0

abbrev pub NonEmpty : List ℕ → Type 0
NonEmpty group = group ≢ []

occurrences-append :
    (k : ℕ) (xs ys : List (List ℕ)) → occurrences k (xs ++ ys) ≡ occurrences k xs + occurrences k ys
occurrences-append k [] ys = omega arith
occurrences-append k (x ∷ xs) ys = omega (arith, occurrences-append k xs ys)

occurrences-push_members :
    (k : ℕ) (settled : List (List ℕ)) (members : List ℕ)
    → occurrences k (push_members settled members) ≡ occurrences k settled + count k members
unfolding push_members
occurrences-push_members k settled [] = omega arith
occurrences-push_members k settled (m ∷ ms) =
    omega (arith, occurrences-append k settled ((m ∷ ms) ∷ []))

push_members-NonEmpty :
    (settled : List (List ℕ)) (members : List ℕ)
    → All NonEmpty settled
    → All NonEmpty (push_members settled members)
unfolding push_members
push_members-NonEmpty settled [] h = h
push_members-NonEmpty settled (m ∷ ms) h = All-append NonEmpty settled _ h ((λ e. cc), tt)

module _ (keys : List ℕ) (k : ℕ) where
  take_members-count :
      (placed group : List ℕ)
      → count k (take_members keys placed group).0 + once (mem k placed)
        ≡ once (mem k (take_members keys placed group).1)
  unfolding take_members
  take_members-count placed [] = omega arith
  take_members-count placed (key ∷ group) =
      ground (arith, take_members-count (key ∷ placed) group, take_members-count placed group)

  -- Only known keys are placed.
  take_members-known :
      (placed group : List ℕ)
      → mem k keys ≡ false
      → mem k placed ≡ false
      → mem k (take_members keys placed group).1 ≡ false
  unfolding take_members
  take_members-known placed [] h p = p
  take_members-known placed (key ∷ group) h p =
      elim (Bool-cases (mem key keys && not (mem key placed))) [
        | inl new ↦
            rw (new, take_members) (take_members-known (key ∷ placed) group h (ground arith))
        | inr old ↦ rw (old, take_members) (take_members-known placed group h p)
      ]

  place_groups-occurrences :
      (settled : List (List ℕ)) (placed : List ℕ) (groups : List (List ℕ))
      → occurrences k settled ≡ once (mem k placed)
      → let (settled', placed') = place_groups keys settled placed groups in
        occurrences k settled' ≡ once (mem k placed')
  unfolding place_groups
  place_groups-occurrences settled placed [] h = h
  place_groups-occurrences settled placed (group ∷ groups) h =
      let (members, placed') = take_members keys placed group in
      place_groups-occurrences (push_members settled members) placed' groups
        (omega (arith, occurrences-push_members k settled members, take_members-count placed group))

  place_groups-known :
      (settled : List (List ℕ)) (placed : List ℕ) (groups : List (List ℕ))
      → mem k keys ≡ false
      → mem k placed ≡ false
      → mem k (place_groups keys settled placed groups).1 ≡ false
  unfolding place_groups
  place_groups-known settled placed [] h p = p
  place_groups-known settled placed (group ∷ groups) h p =
      place_groups-known (push_members settled (take_members keys placed group).0)
        (take_members keys placed group).1 groups h (take_members-known placed group h p)

place_groups-NonEmpty :
    (keys : List ℕ) (settled : List (List ℕ)) (placed : List ℕ) (groups : List (List ℕ))
    → All NonEmpty settled
    → All NonEmpty (place_groups keys settled placed groups).0
unfolding place_groups
place_groups-NonEmpty keys settled placed [] h = h
place_groups-NonEmpty keys settled placed (group ∷ groups) h =
    let (members, placed') = take_members keys placed group in
    place_groups-NonEmpty keys (push_members settled members) placed' groups
      (push_members-NonEmpty settled members h)

place_rest-NonEmpty :
    (settled : List (List ℕ)) (placed keys : List ℕ)
    → All NonEmpty settled
    → All NonEmpty (place_rest settled placed keys)
unfolding place_rest
place_rest-NonEmpty settled placed [] h = h
place_rest-NonEmpty settled placed (key ∷ keys) h = elim (Bool-cases (mem key placed)) [
  | inl old ↦ rw old (place_rest-NonEmpty settled placed keys h)
  | inr new ↦ rw new (
      place_rest-NonEmpty (settled ++ (key ∷ []) ∷ []) placed keys
        (All-append NonEmpty settled _ h ((λ e. cc), tt)))
]

place_rest-occurrences :
    (k : ℕ) (settled : List (List ℕ)) (placed keys : List ℕ)
    → occurrences k (place_rest settled placed keys)
      ≡ occurrences k settled + (if mem k placed then 0 else count k keys)
unfolding place_rest
place_rest-occurrences k settled placed [] = ground arith
place_rest-occurrences k settled placed (key ∷ keys) = ground (
  arith,
  place_rest-occurrences k (if mem key placed then settled else settled ++ (key ∷ []) ∷ []) placed
      keys,
  occurrences-append k settled ((key ∷ []) ∷ []),
)

-- Whatever groups the model answers with, a key that is reported once stands in exactly one place
-- of the settled groups, and a key that is not reported stands in none; no settled group is empty.
pub settle_groups-partition :
    (k : ℕ) (keys : List ℕ) (groups : List (List ℕ))
    → count k keys ≤ 1
    → (occurrences k (settle_groups keys groups) ≡ count k keys)
      × All NonEmpty (settle_groups keys groups)
unfolding settle_groups
settle_groups-partition k keys groups distinct =
    let (settled, placed) = place_groups keys [] [] groups in
    (
      ground (
        arith,
        place_rest-occurrences k settled placed keys,
        place_groups-occurrences keys k [] [] groups refl,
        place_groups-known keys k [] [] groups,
        count-pos_of_mem k keys,
      ),
      place_rest-NonEmpty settled placed keys (place_groups-NonEmpty keys [] [] groups tt),
    )
