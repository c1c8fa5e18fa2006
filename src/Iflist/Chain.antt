-- ===== src/Iflist/Chain.antt =====
-- A linked list of interfaces as a list of numbers.
use mathlib.Core.Path.{subst}
use damat_tutorial.Prelude.{
  ltb, lt→ltb, ◌==◌, All, ℕ, zero, suc, ◌+◌, ◌<◌, ◌≤◌, ◌≡◌, ◌∙◌, refl, ap, sym, Bool, true, arith,
  Option, none, some, List, [], ◌∷◌, if◌then◌else◌, Bool-cases, inl, inr, length,
}
use damat_tutorial.Buffer.Owners.{times_in}
use damat_tutorial.Iflist.{Ifaces, iface_at, first_from}

-- From the pointer `start` on, the interfaces of the list are these, in their order.
abbrev pub Chain : Ifaces → Option ℕ → List ℕ → Type 0
Chain l start [] = start ≡ none
Chain l start (i ∷ rest) = (start ≡ some i) × (i < length l.at) × Chain l (iface_at l i).next rest

-- The first member of a list with a test
abbrev pub first_in : (ℕ → Bool) → List ℕ → Option ℕ
first_in test [] = none
first_in test (i ∷ rest) = if test i then some i else first_in test rest

pub first_from-Chain :
    (test : ℕ → Bool) (l : Ifaces) (fuel : ℕ) (start : Option ℕ) (members : List ℕ)
    → Chain l start members
    → length members < fuel
    → first_from test l fuel start ≡ first_in test members
unfolding first_from
first_from-Chain test l zero start members chain enough = absurd (omega arith)
first_from-Chain test l (suc fuel) start [] chain enough =
    ap (λ o. first_from test l (suc fuel) o) chain
first_from-Chain test l (suc fuel) start (i ∷ rest) chain enough =
    ap (λ o. first_from test l (suc fuel) o) chain.0
    ∙ ap (λ o. if test i then some i else o)
        (first_from-Chain test l fuel (iface_at l i).next rest chain.2 (omega arith))

-- A list is determined by its first pointer.
Chain-length :
    (l : Ifaces) (start : Option ℕ) (xs ys : List ℕ)
    → Chain l start xs
    → Chain l start ys
    → length xs ≡ length ys
Chain-length l start [] [] a b = refl
Chain-length l start [] (y ∷ ys) a b = let no : none ≡ some y = sym a ∙ b.0 in cc
Chain-length l start (x ∷ xs) [] a b = let no : none ≡ some x = sym b ∙ a.0 in cc
Chain-length l start (x ∷ xs) (y ∷ ys) a b =
    let same_start : some x ≡ some y = sym a.0 ∙ b.0 in
    let same : x ≡ y = cc in
    ap suc (
      Chain-length l (iface_at l x).next xs ys a.2
        (subst (λ i. Chain l (iface_at l i).next ys) (sym same) b.2))

-- Behind a member there is a list of its own.
Chain-behind :
    (l : Ifaces) (start : Option ℕ) (xs : List ℕ) (i : ℕ)
    → Chain l start xs
    → 0 < times_in i xs
    → (ys : List ℕ) × Chain l (some i) ys × (length ys ≤ length xs)
Chain-behind l start [] i chain h = absurd (omega arith)
Chain-behind l start (x ∷ xs) i chain h = elim (Bool-cases (x == i)) [
  | inl here ↦
      let same : x ≡ i = ground arith in
      (x ∷ xs, (ap some (sym same), chain.1, chain.2), omega arith)
  | inr other ↦
      let (ys, c, shorter) = Chain-behind l (iface_at l x).next xs i chain.2 (ground arith) in
      (ys, c, omega (arith, shorter))
]

-- No interface stands in the list twice.
pub Chain-times_in :
    (l : Ifaces) (start : Option ℕ) (xs : List ℕ) (i : ℕ) → Chain l start xs → times_in i xs ≤ 1
Chain-times_in l start [] i chain = omega arith
Chain-times_in l start (x ∷ xs) i chain = elim (Bool-cases (x == i)) [
  | inl here ↦ elim (Bool-cases (ltb 0 (times_in i xs))) [
    | inl again ↦
        let same : x ≡ i = ground arith in
        let (ys, c, shorter) = Chain-behind l (iface_at l x).next xs i chain.2 (ground arith) in
        absurd (
          omega (
            arith,
            shorter,
            Chain-length l (some x) (x ∷ xs) ys (refl, chain.1, chain.2)
                (subst (λ j. Chain l (some j) ys) (sym same) c),
          ))
    | inr once ↦ ground arith
  ]
  | inr other ↦ let rest = Chain-times_in l (iface_at l x).next xs i chain.2 in ground arith
]

below : ℕ → List ℕ → ℕ
below zero xs = 0
below (suc n) xs = below n xs + times_in n xs

below-cons : (n x : ℕ) (xs : List ℕ) → below n (x ∷ xs) ≡ (if ltb x n then 1 else 0) + below n xs
unfolding below
below-cons zero x xs = ground arith
below-cons (suc n) x xs = let rest = below-cons n x xs in ground arith

below-all : (n : ℕ) (xs : List ℕ) → All (λ x. x < n) xs → below n xs ≡ length xs
unfolding below
below-all n [] all = below_nil n
  where
    below_nil : (n : ℕ) → below n [] ≡ 0
    below_nil zero = refl
    below_nil (suc n) = omega (arith, below_nil n)
below-all n (x ∷ xs) all =
    let one : ltb x n ≡ true = lt→ltb x n all.0 in
    below-cons n x xs ∙ rw one (omega (arith, below-all n xs all.1))

below_le : (n : ℕ) (xs : List ℕ) → ((i : ℕ) → times_in i xs ≤ 1) → below n xs ≤ n
unfolding below
below_le zero xs once = omega arith
below_le (suc n) xs once = omega (arith, below_le n xs once, once n)

Chain-inside :
    (l : Ifaces) (start : Option ℕ) (xs : List ℕ) → Chain l start xs → All (λ x. x < length l.at) xs
Chain-inside l start [] chain = tt
Chain-inside l start (x ∷ xs) chain = (chain.1, Chain-inside l (iface_at l x).next xs chain.2)

-- A list has at most as many members as there are interfaces, so fuel for one step more is enough.
pub length-Chain :
    (l : Ifaces) (start : Option ℕ) (xs : List ℕ) → Chain l start xs → length xs ≤ length l.at
length-Chain l start xs chain = omega (
  arith,
  below-all (length l.at) xs (Chain-inside l start xs chain),
  below_le (length l.at) xs (λ i. Chain-times_in l start xs i chain),
)
