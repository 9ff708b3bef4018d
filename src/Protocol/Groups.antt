-- ===== src/Protocol/Groups.antt =====
-- How the model's groups of equal defects are settled (packages/protocol/src/runner.ts). A key is
-- a number.
pub mod Partition
use trawler.Base.{
  ℕ, suc, ◌+◌, ◌≤◌, ◌≡◌, ◌≢◌, refl, Bool, true, false, not, ◌&&◌, List, [], ◌∷◌, ◌++◌, flatten,
  arith, mem, count, count-append, count-mem, All, All-append, if◌then◌else◌, Bool-cases,
}

-- `group.filter((key) => known.has(key) && !placed.has(key) && placed.add(key))`
take_members : List ℕ → List ℕ → List ℕ → List ℕ × List ℕ
take_members keys placed [] = ([], placed)
take_members keys placed (key ∷ group) = elim (mem key keys && not (mem key placed)) [
  | true ↦
      let (members, placed') = take_members keys (key ∷ placed) group in (key ∷ members, placed')
  | false ↦ take_members keys placed group
]

-- `if (members.length > 0) settled.push(members)`
push_members : List (List ℕ) → List ℕ → List (List ℕ)
push_members settled [] = settled
push_members settled (m ∷ ms) = settled ++ (m ∷ ms) ∷ []

-- The first loop of `settleGroups`.
place_groups : List ℕ → List (List ℕ) → List ℕ → List (List ℕ) → List (List ℕ) × List ℕ
unfolding push_members take_members
place_groups keys settled placed [] = (settled, placed)
place_groups keys settled placed (group ∷ groups) =
    let (members, placed') = take_members keys placed group in
    place_groups keys (push_members settled members) placed' groups

-- The second loop: a key in no group is a group of its own.
place_rest : List (List ℕ) → List ℕ → List ℕ → List (List ℕ)
place_rest settled placed [] = settled
place_rest settled placed (key ∷ keys) =
    place_rest (if mem key placed then settled else settled ++ (key ∷ []) ∷ []) placed keys

unfoldable pub settle_groups : List ℕ → List (List ℕ) → List (List ℕ)
unfolding place_groups place_rest
settle_groups keys groups =
    let (settled, placed) = place_groups keys [] [] groups in place_rest settled placed keys
