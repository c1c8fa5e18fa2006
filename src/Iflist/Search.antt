-- ===== src/Iflist/Search.antt =====
-- The searches of the list of interfaces.
use damat_tutorial.Prelude.{
  ℕ, zero, suc, ◌<◌, ◌≡◌, ◌∙◌, refl, ap, sym, Bool, arith, Option, none, some, List, [], ◌∷◌,
  Bool-cases, inl, inr, length, filter, ◌==◌,
}
use damat_tutorial.Iflist.{
  Ifaces, iface_at, serves, behind, get_by_subnet, get_by_addr, get_by_name, same_name,
}
use damat_tutorial.Iflist.Chain.{Chain, first_in, first_from-Chain, length-Chain}

abbrev pub IsList : Ifaces → List ℕ → Type 0
IsList l members = Chain l l.head members

-- The interfaces that csp_iflist_get_by_subnet gives one after the other, each call going on behind the
-- interface of the last; n bounds the calls.
abbrev collect : (ℕ → List ℕ) → Option ℕ → List ℕ
collect rest none = []
collect rest (some i) = i ∷ rest i

unfoldable pub by_subnet : ℕ → Ifaces → ℕ → ℕ → Option ℕ → List ℕ
by_subnet version l addr zero ifc = []
by_subnet version l addr (suc n) ifc =
    collect (λ i. by_subnet version l addr n (some i)) (get_by_subnet version l addr ifc)

-- Where the search of a list ends
pub data Searched (test : ℕ → Bool) (l : Ifaces) (xs : List ℕ) : Type 0 where
  missing : first_in test xs ≡ none → filter test xs ≡ [] → Searched test l xs
  hit :
      (i : ℕ) (rest : List ℕ)
      → first_in test xs ≡ some i
      → filter test xs ≡ i ∷ filter test rest
      → Chain l (iface_at l i).next rest
      → length rest < length xs
      → Searched test l xs

pub first_in-Searched :
    (test : ℕ → Bool) (l : Ifaces) (start : Option ℕ) (xs : List ℕ)
    → Chain l start xs
    → Searched test l xs
first_in-Searched test l start [] chain = missing refl refl
first_in-Searched test l start (x ∷ xs) chain = elim (Bool-cases (test x)) [
  | inl here ↦ hit x xs (rw here refl) (rw here refl) chain.2 (omega arith)
  | inr other ↦ elim (first_in-Searched test l (iface_at l x).next xs chain.2) [
    | missing none_found empty ↦ missing (rw other none_found) (rw other empty)
    | hit i rest found kept behind_i shorter ↦
        hit i rest (rw other found) (rw other kept) behind_i (omega (arith, shorter))
  ]
]

pub get_by_subnet_lem :
    (version : ℕ) (l : Ifaces) (addr : ℕ) (ifc : Option ℕ) (xs : List ℕ)
    → Chain l (behind l ifc) xs
    → get_by_subnet version l addr ifc ≡ first_in (serves version l addr) xs
unfolding get_by_subnet
get_by_subnet_lem version l addr ifc xs chain =
    first_from-Chain (serves version l addr) l (suc (length l.at)) (behind l ifc) xs chain
      (omega (arith, length-Chain l (behind l ifc) xs chain))

by_subnet_from :
    (version : ℕ) (l : Ifaces) (addr n : ℕ) (ifc : Option ℕ) (xs : List ℕ)
    → Chain l (behind l ifc) xs
    → length xs < n
    → by_subnet version l addr n ifc ≡ filter (serves version l addr) xs
unfolding by_subnet
by_subnet_from version l addr zero ifc xs chain enough = absurd (omega arith)
by_subnet_from version l addr (suc n) ifc xs chain enough =
    ap (collect (λ i. by_subnet version l addr n (some i)))
      (get_by_subnet_lem version l addr ifc xs chain)
    ∙ elim (first_in-Searched (serves version l addr) l (behind l ifc) xs chain) [
      | missing none_found empty ↦
          ap (collect (λ i. by_subnet version l addr n (some i))) none_found ∙ sym empty
      | hit i rest found kept behind_i shorter ↦
          ap (collect (λ j. by_subnet version l addr n (some j))) found
          ∙ ap (λ t. i ∷ t)
              (by_subnet_from version l addr n (some i) rest behind_i (omega (arith, shorter)))
          ∙ sym kept
    ]

-- The searches of a list of interfaces. csp_iflist_get_by_addr and csp_iflist_get_by_name give the
-- first one with the address or the name. The calls of csp_iflist_get_by_subnet, started with NULL
-- and each going on behind the interface of the last, give all those with a netmask whose subnet
-- holds the address, in their order, and end after at most one call for each interface and one more.
pub searches_lem :
    (version : ℕ) (l : Ifaces) (members : List ℕ) (addr : ℕ) (name : List ℕ)
    → IsList l members
    → (get_by_addr l addr ≡ first_in (λ i. (iface_at l i).addr == addr) members)
      × (get_by_name l name ≡ first_in (λ i. same_name (iface_at l i).name name) members)
      × (by_subnet version l addr (suc (length l.at)) none ≡ filter (serves version l addr) members)
unfolding get_by_addr get_by_name
searches_lem version l members addr name chain =
    let few = length-Chain l l.head members chain in
    (
      first_from-Chain (λ i. (iface_at l i).addr == addr) l (suc (length l.at)) l.head members chain
          (omega (arith, few)),
      first_from-Chain (λ i. same_name (iface_at l i).name name) l (suc (length l.at)) l.head
          members chain (omega (arith, few)),
      by_subnet_from version l addr (suc (length l.at)) none members chain (omega (arith, few)),
    )
