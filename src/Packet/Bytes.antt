-- ===== src/Packet/Bytes.antt =====
-- memcpy into and out of a buffer, and htobe32, be32toh, htobe64 and be64toh (endian.h) as the
-- bytes that they put in memory.
use damat_tutorial.Prelude.{
  ℕ, zero, suc, ◌+◌, ◌*◌, ◌/◌, ◌%◌, ◌^◌, ◌≤◌, ◌≡◌, refl, ap, ◌∙◌, ◌++◌, List, [], ◌∷◌, arith,
  length, take, drop,
}

-- memcpy(buf + i, bytes, length bytes). A byte past the end of the buffer is not written.
unfoldable pub write_bytes : List ℕ → ℕ → List ℕ → List ℕ
write_bytes [] i bytes = []
write_bytes (x ∷ buf) zero [] = x ∷ buf
write_bytes (x ∷ buf) zero (b ∷ bytes) = b ∷ write_bytes buf zero bytes
write_bytes (x ∷ buf) (suc i) bytes = x ∷ write_bytes buf i bytes

-- the n bytes from index i on
unfoldable pub read_bytes : List ℕ → ℕ → ℕ → List ℕ
read_bytes buf i n = take n (drop i buf)

-- The n bytes of `x` in network order, the most significant first.
abbrev pub be_bytes : ℕ → ℕ → List ℕ
be_bytes zero x = []
be_bytes (suc n) x = x / 256 ^ n % 256 ∷ be_bytes n x

-- The number that bytes in network order stand for, read on from `acc`.
abbrev pub be_value_from : ℕ → List ℕ → ℕ
be_value_from acc [] = acc
be_value_from acc (b ∷ bytes) = be_value_from (acc * 256 + b) bytes

abbrev pub be_value : List ℕ → ℕ
be_value bytes = be_value_from 0 bytes

pub length-write_bytes :
    (buf : List ℕ) (i : ℕ) (bytes : List ℕ) → length (write_bytes buf i bytes) ≡ length buf
unfolding write_bytes
length-write_bytes [] i bytes = refl
length-write_bytes (x ∷ buf) zero [] = refl
length-write_bytes (x ∷ buf) zero (b ∷ bytes) = ap suc (length-write_bytes buf zero bytes)
length-write_bytes (x ∷ buf) (suc i) bytes = ap suc (length-write_bytes buf i bytes)

-- What was written is read back, if it fits.
pub read_bytes-write_bytes :
    (buf : List ℕ) (i : ℕ) (bytes : List ℕ)
    → i + length bytes ≤ length buf
    → read_bytes (write_bytes buf i bytes) i (length bytes) ≡ bytes
unfolding write_bytes read_bytes
read_bytes-write_bytes buf zero [] h = refl
read_bytes-write_bytes buf (suc i) [] h = refl
read_bytes-write_bytes [] i (b ∷ bytes) h = absurd (omega arith)
read_bytes-write_bytes (x ∷ buf) zero (b ∷ bytes) h =
    ap (λ t. b ∷ t) (read_bytes-write_bytes buf zero bytes (omega arith))
read_bytes-write_bytes (x ∷ buf) (suc i) (b ∷ bytes) h =
    read_bytes-write_bytes buf i (b ∷ bytes) (omega arith)

-- Bytes behind the write stay.
pub drop-write_bytes :
    (buf : List ℕ) (i j : ℕ) (bytes : List ℕ)
    → i + length bytes ≤ j
    → drop j (write_bytes buf i bytes) ≡ drop j buf
unfolding write_bytes
drop-write_bytes [] i j bytes h = refl
drop-write_bytes (x ∷ buf) zero j [] h = refl
drop-write_bytes (x ∷ buf) zero zero (b ∷ bytes) h = absurd (omega arith)
drop-write_bytes (x ∷ buf) zero (suc j) (b ∷ bytes) h =
    drop-write_bytes buf zero j bytes (omega arith)
drop-write_bytes (x ∷ buf) (suc i) zero bytes h = absurd (omega arith)
drop-write_bytes (x ∷ buf) (suc i) (suc j) bytes h = drop-write_bytes buf i j bytes (omega arith)

-- Bytes before the write stay.
pub take-write_bytes :
    (buf : List ℕ) (i j : ℕ) (bytes : List ℕ)
    → j ≤ i
    → take j (write_bytes buf i bytes) ≡ take j buf
unfolding write_bytes
take-write_bytes buf i zero bytes h = refl
take-write_bytes [] i (suc j) bytes h = refl
take-write_bytes (x ∷ buf) zero (suc j) bytes h = absurd (omega arith)
take-write_bytes (x ∷ buf) (suc i) (suc j) bytes h =
    ap (λ t. x ∷ t) (take-write_bytes buf i j bytes (omega arith))

-- A write seen from a later byte.
pub drop-write_bytes_before :
    (buf : List ℕ) (i j k : ℕ) (bytes : List ℕ)
    → i ≡ j + k
    → drop j (write_bytes buf i bytes) ≡ write_bytes (drop j buf) k bytes
unfolding write_bytes
drop-write_bytes_before buf i zero k bytes e =
    ap (λ n. write_bytes buf n bytes) {x = i} {y = k} (omega arith)
drop-write_bytes_before [] i (suc j) k bytes e = refl
drop-write_bytes_before (x ∷ buf) zero (suc j) k bytes e = absurd (omega arith)
drop-write_bytes_before (x ∷ buf) (suc i) (suc j) k bytes e =
    drop-write_bytes_before buf i j k bytes (omega arith)

pub drop-drop : (xs : List ℕ) (i j k : ℕ) → i ≡ j + k → drop i xs ≡ drop k (drop j xs)
drop-drop xs i zero k e = ap (λ n. drop n xs) {x = i} {y = k} (omega arith)
drop-drop [] i (suc j) zero e = drop_nil i
  where
    drop_nil : (i : ℕ) → drop {A = ℕ} i [] ≡ []
    drop_nil zero = refl
    drop_nil (suc i) = refl
drop-drop [] zero (suc j) (suc k) e = refl
drop-drop [] (suc i) (suc j) (suc k) e = refl
drop-drop (x ∷ xs) zero (suc j) k e = absurd (omega arith)
drop-drop (x ∷ xs) (suc i) (suc j) k e = drop-drop xs i j k (omega arith)

-- The buffer up to the end of the write
pub take-write_bytes_end :
    (buf : List ℕ) (n i : ℕ) (bytes : List ℕ)
    → n ≡ i + length bytes
    → n ≤ length buf
    → take n (write_bytes buf i bytes) ≡ take i buf ++ bytes
unfolding write_bytes
take-write_bytes_end [] zero zero [] e h = refl
take-write_bytes_end [] zero (suc i) bytes e h = absurd (omega arith)
take-write_bytes_end [] zero zero (b ∷ bytes) e h = absurd (omega arith)
take-write_bytes_end [] (suc n) i bytes e h = absurd (omega arith)
take-write_bytes_end (x ∷ buf) zero zero [] e h = refl
take-write_bytes_end (x ∷ buf) (suc n) zero [] e h = absurd (omega arith)
take-write_bytes_end (x ∷ buf) zero zero (b ∷ bytes) e h = absurd (omega arith)
take-write_bytes_end (x ∷ buf) (suc n) zero (b ∷ bytes) e h =
    ap (λ t. b ∷ t) (take-write_bytes_end buf n zero bytes (omega arith) (omega arith))
take-write_bytes_end (x ∷ buf) zero (suc i) bytes e h = absurd (omega arith)
take-write_bytes_end (x ∷ buf) (suc n) (suc i) bytes e h =
    ap (λ t. x ∷ t) (take-write_bytes_end buf n i bytes (omega arith) (omega arith))

pub write_bytes-nil : (buf : List ℕ) (i : ℕ) → write_bytes buf i [] ≡ buf
unfolding write_bytes
write_bytes-nil [] i = refl
write_bytes-nil (x ∷ buf) zero = refl
write_bytes-nil (x ∷ buf) (suc i) = ap (λ t. x ∷ t) (write_bytes-nil buf i)

-- Two writes that follow one another
pub write_bytes-cons :
    (buf : List ℕ) (i : ℕ) (b : ℕ) (bytes : List ℕ)
    → write_bytes (write_bytes buf i (b ∷ [])) (i + 1) bytes ≡ write_bytes buf i (b ∷ bytes)
unfolding write_bytes
write_bytes-cons [] i b bytes = refl
write_bytes-cons (x ∷ buf) zero b bytes =
    ap (λ k. write_bytes (b ∷ write_bytes buf 0 []) k bytes) {x = 0 + 1} {y = suc 0} (omega arith)
    ∙ ap (λ t. b ∷ write_bytes t 0 bytes) (write_bytes-nil buf 0)
write_bytes-cons (x ∷ buf) (suc i) b bytes =
    ap (λ k. write_bytes (x ∷ write_bytes buf i (b ∷ [])) k bytes) {x = suc i + 1} {y = suc (i + 1)}
      (omega arith)
    ∙ ap (λ t. x ∷ t) (write_bytes-cons buf i b bytes)
