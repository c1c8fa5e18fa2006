-- ===== src/Iflist/Add.antt =====
-- csp_iflist_add: a new interface goes to the end; one that is there already is refused, but loses all
-- interfaces behind it.
use mathlib.Core.Path.{subst, ap₂}
use damat_tutorial.Prelude.{
  ℕ, zero, suc, ◌<◌, ◌≤◌, ◌≡◌, ◌≢◌, ◌∙◌, refl, ap, sym, Bool, true, false, arith, Option, none,
  some, List, [], ◌∷◌, ◌++◌, ◌==◌, ◌||◌, Bool-cases, inl, inr, All, length, length-set,
  length-append, get_or-set_other, get_or-set_self,
}
use damat_tutorial.Prelude.Int.{pos, negsuc}
use damat_tutorial.Buffer.Owners.{times_in, times_in-head, times_in-append}
use damat_tutorial.Iflist.{
  Iface, Ifaces, blank_iface, iface_at, same_name, is_there, last_from, set_next, link_behind,
  add_to, add,
}
use damat_tutorial.Iflist.Chain.{Chain, length-Chain, Chain-times_in}
use damat_tutorial.Iflist.Search.{IsList}

-- The interface has another number and another name.
abbrev pub Differs : ℕ → Ifaces → ℕ → Type 0
Differs ifc l i = is_there ifc l i ≡ false

-- A change of the pointer of an interface that is not in the list
Chain-set_next :
    (l : Ifaces) (ifc : ℕ) (next : Option ℕ) (start : Option ℕ) (xs : List ℕ)
    → All (λ i. i ≢ ifc) xs
    → Chain l start xs
    → Chain (set_next ifc next l) start xs
Chain-set_next l ifc next start [] all chain = chain
Chain-set_next l ifc next start (x ∷ xs) all chain = (
  chain.0,
  omega (arith, chain.1, length-set l.at ifc (record (iface_at l ifc) { next = next })),
  subst (λ f. Chain (set_next ifc next l) f.next xs)
      (sym
        (get_or-set_other l.at ifc x (record (iface_at l ifc) { next = next }) blank_iface all.0))
      (Chain-set_next l ifc next (iface_at l x).next xs all.1 chain.2),
)

-- The names stay.
name-set_next :
    (l : Ifaces) (ifc : ℕ) (next : Option ℕ) (i : ℕ)
    → ifc < length l.at
    → (iface_at (set_next ifc next l) i).name ≡ (iface_at l i).name
name-set_next l ifc next i inside = elim (Bool-cases (i == ifc)) [
  | inl here ↦
      let same : i ≡ ifc = ground arith in
      rw same (
        ap (λ f. f.name)
          (get_or-set_self l.at ifc (record (iface_at l ifc) { next = next }) blank_iface inside))
  | inr other ↦
      ap (λ f. f.name)
        (get_or-set_other l.at ifc i (record (iface_at l ifc) { next = next }) blank_iface
          (ground arith))
]

-- The last member, behind `last`
abbrev pub last_in : ℕ → List ℕ → ℕ
last_in last [] = last
last_in last (x ∷ xs) = last_in x xs

last_from-Chain :
    (ifc : ℕ) (l : Ifaces) (fuel last : ℕ) (start : Option ℕ) (xs : List ℕ)
    → Chain l start xs
    → All (Differs ifc l) xs
    → length xs < fuel
    → last_from ifc l fuel last start ≡ some (last_in last xs)
unfolding last_from
last_from-Chain ifc l zero last start xs chain all enough = absurd (omega arith)
last_from-Chain ifc l (suc fuel) last start [] chain all enough =
    ap (last_from ifc l (suc fuel) last) chain
last_from-Chain ifc l (suc fuel) last start (x ∷ xs) chain all enough =
    ap (last_from ifc l (suc fuel) last) chain.0
    ∙ rw (all.0) (last_from-Chain ifc l fuel x (iface_at l x).next xs chain.2 all.1 (omega arith))

-- The loop finds an interface that is there.
last_from_there :
    (ifc : ℕ) (l : Ifaces) (fuel last : ℕ) (start : Option ℕ) (pre : List ℕ) (x : ℕ) (post : List ℕ)
    → Chain l start (pre ++ x ∷ post)
    → is_there ifc l x ≡ true
    → length pre < fuel
    → last_from ifc l fuel last start ≡ none
unfolding last_from
last_from_there ifc l zero last start pre x post chain there enough = absurd (omega arith)
last_from_there ifc l (suc fuel) last start [] x post chain there enough =
    ap (last_from ifc l (suc fuel) last) chain.0 ∙ rw there refl
last_from_there ifc l (suc fuel) last start (y ∷ pre) x post chain there enough =
    ap (last_from ifc l (suc fuel) last) chain.0 ∙ elim (Bool-cases (is_there ifc l y)) [
      | inl here ↦ rw here refl
      | inr other ↦
          rw other (
            last_from_there ifc l fuel y (iface_at l y).next pre x post chain.2 there (omega arith))
    ]

All-absent : (i : ℕ) (xs : List ℕ) → times_in i xs ≡ 0 → All (λ x. x ≢ i) xs
All-absent i [] h = tt
All-absent i (x ∷ xs) h = (ground arith, All-absent i xs (ground arith))

-- The list ends at an interface whose pointer is reset.
Chain-cut :
    (l : Ifaces) (ifc : ℕ) (start : Option ℕ) (pre post : List ℕ)
    → Chain l start (pre ++ ifc ∷ post)
    → All (λ x. x ≢ ifc) pre
    → Chain (set_next ifc none l) start (pre ++ ifc ∷ [])
Chain-cut l ifc start [] post chain all = (
  chain.0,
  omega (arith, chain.1, length-set l.at ifc (record (iface_at l ifc) { next = none })),
  ap (λ f. f.next)
      (get_or-set_self l.at ifc (record (iface_at l ifc) { next = none }) blank_iface chain.1),
)
Chain-cut l ifc start (x ∷ pre) post chain all = (
  chain.0,
  omega (arith, chain.1, length-set l.at ifc (record (iface_at l ifc) { next = none })),
  subst (λ f. Chain (set_next ifc none l) f.next (pre ++ ifc ∷ []))
      (sym
        (get_or-set_other l.at ifc x (record (iface_at l ifc) { next = none }) blank_iface all.0))
      (Chain-cut l ifc (iface_at l x).next pre post chain.2 all.1),
)

last_in-times_in : (x : ℕ) (xs : List ℕ) → 1 ≤ times_in (last_in x xs) (x ∷ xs)
last_in-times_in x [] = ground arith
last_in-times_in x (y ∷ ys) = omega (arith, last_in-times_in y ys)

-- The pointer of the last member is set to a new interface.
Chain-extend :
    (l : Ifaces) (ifc : ℕ) (start : Option ℕ) (x : ℕ) (xs : List ℕ)
    → Chain l start (x ∷ xs)
    → times_in ifc (x ∷ xs) ≡ 0
    → ifc < length l.at
    → (iface_at l ifc).next ≡ none
    → Chain (set_next (last_in x xs) (some ifc) l) start (x ∷ xs ++ ifc ∷ [])
Chain-extend l ifc start x [] chain fresh inside ends =
    let changed : Iface = record (iface_at l x) { next = some ifc } in
    (
      chain.0,
      omega (arith, chain.1, length-set l.at x changed),
      (
        ap (λ f. f.next) (get_or-set_self l.at x changed blank_iface chain.1),
        omega (arith, inside, length-set l.at x changed),
        ap (λ f. f.next) (get_or-set_other l.at x ifc changed blank_iface (ground arith)) ∙ ends,
      ),
    )
Chain-extend l ifc start x (y ∷ ys) chain fresh inside ends =
    let end : ℕ = last_in y ys in
    let changed : Iface = record (iface_at l end) { next = some ifc } in
    let other : x ≢ end = λ e. absurd (
      omega (
        arith,
        Chain-times_in l start (x ∷ y ∷ ys) end chain,
        last_in-times_in y ys,
        ap (λ k. times_in k (x ∷ y ∷ ys)) e,
        times_in-head x (y ∷ ys),
        ap (λ k. times_in k (y ∷ ys)) e,
      )) in
    (
      chain.0,
      omega (arith, chain.1, length-set l.at end changed),
      subst (λ f. Chain (set_next end (some ifc) l) f.next (y ∷ ys ++ ifc ∷ []))
          (sym (get_or-set_other l.at end x changed blank_iface other))
          (Chain-extend l ifc (iface_at l x).next y ys chain.2 (ground arith) inside ends),
    )

Differs-set_next :
    (l : Ifaces) (ifc : ℕ) (xs : List ℕ)
    → ifc < length l.at
    → All (Differs ifc l) xs
    → All (Differs ifc (set_next ifc none l)) xs
Differs-set_next l ifc [] inside all = tt
Differs-set_next l ifc (x ∷ xs) inside all = (
  ap₂ (λ a b. (x == ifc) || same_name a b) (name-set_next l ifc none ifc inside)
        (name-set_next l ifc none x inside)
      ∙ all.0,
  Differs-set_next l ifc xs inside all.1,
)

Differs-absent : (l : Ifaces) (ifc : ℕ) (xs : List ℕ) → All (Differs ifc l) xs → times_in ifc xs ≡ 0
Differs-absent l ifc [] all = refl
Differs-absent l ifc (x ∷ xs) all =
    let rest = Differs-absent l ifc xs all.1 in
    let other = or_false (x == ifc) (same_name (iface_at l ifc).name (iface_at l x).name) all.0 in
    ground arith
  where
    or_false : (a b : Bool) → (a || b) ≡ false → a ≡ false
    or_false true b h = h
    or_false false b h = refl

add_to-IsList :
    (l : Ifaces) (ifc : ℕ) (start : Option ℕ) (xs : List ℕ)
    → Chain l start xs
    → All (Differs ifc l) xs
    → ifc < length l.at
    → (iface_at l ifc).next ≡ none
    → l.head ≡ start
    → ((add_to ifc start l).0 ≡ pos 0) × IsList (add_to ifc start l).1 (xs ++ ifc ∷ [])
add_to-IsList l ifc none [] chain all inside ends e = (refl, (refl, inside, ends))
add_to-IsList l ifc none (x ∷ xs) chain all inside ends e = let no : none ≡ some x = chain.0 in cc
add_to-IsList l ifc (some first) [] chain all inside ends e =
    let no : some first ≡ none = chain in cc
add_to-IsList l ifc (some first) (x ∷ xs) chain all inside ends e =
    let last =
      last_from-Chain ifc l (suc (length l.at)) first (some first) (x ∷ xs) chain all
        (omega (arith, length-Chain l (some first) (x ∷ xs) chain)) in
    subst
      (λ o. ((link_behind ifc o l).0 ≡ pos 0) × IsList (link_behind ifc o l).1 (x ∷ xs ++ ifc ∷ []))
      (sym last)
      (
        refl,
        subst (λ o. Chain (set_next (last_in x xs) (some ifc) l) o (x ∷ xs ++ ifc ∷ [])) (sym e)
            (Chain-extend l ifc (some first) x xs chain (Differs-absent l ifc (x ∷ xs) all) inside
              ends),
      )

add_to_there :
    (l : Ifaces) (ifc : ℕ) (start : Option ℕ) (pre : List ℕ) (x : ℕ) (post : List ℕ)
    → Chain l start (pre ++ x ∷ post)
    → is_there ifc l x ≡ true
    → add_to ifc start l ≡ (negsuc 6, l)
add_to_there l ifc none [] x post chain there = let no : none ≡ some x = chain.0 in cc
add_to_there l ifc none (y ∷ pre) x post chain there = let no : none ≡ some y = chain.0 in cc
add_to_there l ifc (some first) pre x post chain there =
    let few = length-Chain l (some first) (pre ++ x ∷ post) chain in
    ap (λ o. link_behind ifc o l)
      (last_from_there ifc l (suc (length l.at)) first (some first) pre x post chain there
        (omega (arith, few, length-append pre (x ∷ post))))

-- csp_iflist_add of an interface whose number and name differ from all those of the list answers
-- CSP_ERR_NONE and puts it behind them.
pub add_new :
    (l : Ifaces) (members : List ℕ) (ifc : ℕ)
    → IsList l members
    → ifc < length l.at
    → All (Differs ifc l) members
    → ((add ifc l).0 ≡ pos 0) × IsList (add ifc l).1 (members ++ ifc ∷ [])
unfolding add
add_new l members ifc chain inside all =
    add_to-IsList l1 ifc l1.head members
      (Chain-set_next l ifc none l.head members
        (All-absent ifc members (Differs-absent l ifc members all)) chain)
      (Differs-set_next l ifc members inside all)
      (omega (arith, inside, length-set l.at ifc changed))
      (ap (λ f. f.next) (get_or-set_self l.at ifc changed blank_iface inside)) refl
  where
    changed : Iface
    changed = record (iface_at l ifc) { next = none }

    l1 : Ifaces
    l1 = set_next ifc none l

-- csp_iflist_add of an interface that is in the list already answers CSP_ERR_ALREADY, and the list
-- then ends at that interface: all those that stood behind it are lost.
pub add_again :
    (l : Ifaces) (before behind : List ℕ) (ifc : ℕ)
    → IsList l (before ++ ifc ∷ behind)
    → ((add ifc l).0 ≡ negsuc 6) × IsList (add ifc l).1 (before ++ ifc ∷ [])
unfolding add
add_again l before behind ifc chain =
    let cut = Chain-cut l ifc l.head before behind chain (All-absent ifc before absent) in
    rw (add_to_there (set_next ifc none l) ifc l.head before ifc [] cut there) (refl, cut)
  where
    absent : times_in ifc before ≡ 0
    absent = omega (
      arith,
      Chain-times_in l l.head (before ++ ifc ∷ behind) ifc chain,
      times_in-append ifc before (ifc ∷ behind),
      times_in-head ifc behind,
    )

    there : is_there ifc (set_next ifc none l) ifc ≡ true
    there = let same : (ifc == ifc) ≡ true = ground arith in rw same refl
