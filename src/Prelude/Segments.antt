-- ===== src/Prelude/Segments.antt =====
-- Parts of lists: `take` and `drop` of one another and of an append.
use Prim.Native.Nat.{ℕ, zero, suc, ◌+◌, ◌≤◌}
use mathlib.Core.Path.{◌≡◌, refl, ap}
use mathlib.Core.List.{List, [], ◌∷◌, ◌++◌}
use native.Mathlib.Omega.{arith}
use damat_tutorial.Prelude.Lists.{length, take, drop}

module _ {ℓ} {A : Type ℓ} where
  pub take-take : (m n : ℕ) (xs : List A) → m ≤ n → take m (take n xs) ≡ take m xs
  take-take zero n xs h = refl
  take-take (suc m) zero xs h = absurd (omega arith)
  take-take (suc m) (suc n) [] h = refl
  take-take (suc m) (suc n) (x ∷ xs) h = ap (λ t. x ∷ t) (take-take m n xs (omega arith))

  pub take-append_length : (n : ℕ) (xs ys : List A) → n ≡ length xs → take n (xs ++ ys) ≡ xs
  take-append_length zero [] ys e = refl
  take-append_length (suc n) [] ys e = absurd (omega arith)
  take-append_length zero (x ∷ xs) ys e = absurd (omega arith)
  take-append_length (suc n) (x ∷ xs) ys e =
      ap (λ t. x ∷ t) (take-append_length n xs ys (omega arith))

  pub drop-append_length : (n : ℕ) (xs ys : List A) → n ≡ length xs → drop n (xs ++ ys) ≡ ys
  drop-append_length zero [] ys e = refl
  drop-append_length (suc n) [] ys e = absurd (omega arith)
  drop-append_length zero (x ∷ xs) ys e = absurd (omega arith)
  drop-append_length (suc n) (x ∷ xs) ys e = drop-append_length n xs ys (omega arith)

  -- The k members behind the first j
  pub take-drop : (i j k : ℕ) (xs : List A) → i ≡ j + k → take k (drop j xs) ≡ drop j (take i xs)
  take-drop i zero k xs e = ap (λ n. take n xs) {x = k} {y = i} (omega arith)
  take-drop zero (suc j) k xs e = absurd (omega arith)
  take-drop (suc i) (suc j) zero [] e = refl
  take-drop (suc i) (suc j) (suc k) [] e = refl
  take-drop (suc i) (suc j) k (x ∷ xs) e = take-drop i j k xs (omega arith)

  pub take-all : (n : ℕ) (xs : List A) → length xs ≤ n → take n xs ≡ xs
  take-all zero [] h = refl
  take-all (suc n) [] h = refl
  take-all zero (x ∷ xs) h = absurd (omega arith)
  take-all (suc n) (x ∷ xs) h = ap (λ t. x ∷ t) (take-all n xs (omega arith))
