-- ===== src/Queue/Ring.antt =====
-- The items of a queue, oldest first, and what a write to the ring does to them.
use native.Mathlib.Nat.{div-add-mod, mod-lt}
use damat_tutorial.Prelude.{
  ℕ, zero, suc, ◌+◌, ◌/◌, ◌%◌, ◌<◌, ◌≡◌, ◌≢◌, ◌∙◌, sym, ap, List, [], ◌∷◌, ◌++◌, arith, length,
  get_or, set, get_or-set_self, get_or-set_other,
}
use mathlib.Core.Path.{ap₂}
use native.Mathlib.Decide.{dec_le}

-- Indices less than a round of the ring apart are different slots.
slot-ne : (size i k n : ℕ) → k < n → n < size → (i + k) % size ≢ (i + n) % size
slot-ne size i k n h l e = elim (dec_le ((i + n) / size) ((i + k) / size)) [
  | yes le ↦ grind (arith, div-add-mod (i + k) size, div-add-mod (i + n) size)
  | no gt ↦ grind (arith, div-add-mod (i + k) size, div-add-mod (i + n) size)
]

module _ {A : Type 0} where
  module _ (blank : A) (size : ℕ) where
    -- the n items of the ring that begin at slot `start + k`
    abbrev pub items_from : List A → ℕ → ℕ → ℕ → List A
    items_from buffer start k zero = []
    items_from buffer start k (suc n) =
        get_or buffer ((start + k) % size) blank ∷ items_from buffer start (suc k) n

    -- A write to the slot behind the last item adds one item, and changes none.
    pub items_from-set :
        (buffer : List A) (start k n : ℕ) (v : A)
        → length buffer ≡ size
        → k + n < size
        → items_from (set buffer ((start + (k + n)) % size) v) start k (suc n)
          ≡ items_from buffer start k n ++ v ∷ []
    items_from-set buffer start k zero v full h =
        let same : (start + (k + 0)) % size ≡ (start + k) % size =
          ap (λ n. n % size) {x = start + (k + 0)} {y = start + k} (omega arith) in
        let room : (start + (k + 0)) % size < length buffer =
          omega (arith, mod-lt (start + (k + 0)) {m = size} (omega arith)) in
        ap (λ x. x ∷ [])
          (ap (λ j. get_or (set buffer ((start + (k + 0)) % size) v) j blank) (sym same)
            ∙ get_or-set_self buffer ((start + (k + 0)) % size) v blank room)
    items_from-set buffer start k (suc n) v full h =
        let shift : (start + (suc k + n)) % size ≡ (start + (k + suc n)) % size =
          ap (λ m. m % size) {x = start + (suc k + n)} {y = start + (k + suc n)} (omega arith) in
        ap₂ (λ x xs. x ∷ xs)
          (get_or-set_other buffer ((start + (k + suc n)) % size) ((start + k) % size) v blank
            (slot-ne' k n h))
          (ap (λ j. items_from (set buffer j v) start (suc k) (suc n)) (sym shift)
            ∙ items_from-set buffer start (suc k) n v full (omega arith))
      where
        slot-ne' : (k n : ℕ) → k + suc n < size → (start + k) % size ≢ (start + (k + suc n)) % size
        slot-ne' k n h = slot-ne size start k (k + suc n) (omega arith) (omega arith)
