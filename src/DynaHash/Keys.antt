-- ===== src/DynaHash/Keys.antt =====
-- The elements of a collision chain as a list: the first one with a key, and the lists that the
-- removal, the insertion and the split of a chain leave.
use postgres_v.Base.{
  All-implies, ℕ, ◌≡◌, ◌≢◌, refl, ap, inl, inr, Bool, true, not, List, [], ◌∷◌, ◌++◌, arith, ◌==◌,
  if◌then◌else◌, All, All-parts, All-append, All-zip, Bool-cases, ==→eq, ne→==,
}
use postgres_v.Rings.{Distinct}

-- the first of the elements with the key `k`, or 0
unfoldable pub find_key : (key : ℕ → ℕ) → (k : ℕ) → List ℕ → ℕ
find_key key k [] = 0
find_key key k (x ∷ xs) = if key x == k then x else find_key key k xs

-- no two of the elements have the same key
abbrev pub OneEach : (key : ℕ → ℕ) → List ℕ → Type 0
OneEach key [] = Unit
OneEach key (x ∷ xs) = All (λ y. key x ≢ key y) xs × OneEach key xs

-- no element has the key `k`
abbrev pub Keyless : (key : ℕ → ℕ) (k : ℕ) → List ℕ → Type 0
Keyless key k xs = All (λ x. key x ≢ k) xs

pub find_key-Keyless :
    (key : ℕ → ℕ) (k : ℕ) (xs : List ℕ) → Keyless key k xs → find_key key k xs ≡ 0
unfolding find_key
find_key-Keyless key k [] none = refl
find_key-Keyless key k (x ∷ xs) (ne, none) =
    rw (ne→== (key x) k ne) (find_key-Keyless key k xs none)

pub find_key-same :
    (key other : ℕ → ℕ) (k : ℕ) (xs : List ℕ)
    → All (λ x. other x ≡ key x) xs
    → find_key other k xs ≡ find_key key k xs
unfolding find_key
find_key-same key other k [] same = refl
find_key-same key other k (x ∷ xs) (e, same) = rw (e, find_key-same key other k xs same) refl

pub find_key-removed :
    (key : ℕ → ℕ) (k e : ℕ) (xs ys : List ℕ)
    → key e ≢ k
    → find_key key k (xs ++ ys) ≡ find_key key k (xs ++ e ∷ ys)
unfolding find_key
find_key-removed key k e [] ys ne = rw (ne→== (key e) k ne) refl
find_key-removed key k e (x ∷ xs) ys ne = rw (find_key-removed key k e xs ys ne) refl

pub find_key-appended :
    (key : ℕ → ℕ) (k e : ℕ) (xs : List ℕ)
    → key e ≡ k
    → Keyless key k xs
    → find_key key k (xs ++ e ∷ []) ≡ e
unfolding find_key
find_key-appended key k e [] same none =
    let test : (key e == k) ≡ true = ground arith in rw test refl
find_key-appended key k e (x ∷ xs) same (ne, none) =
    rw (ne→== (key x) k ne) (find_key-appended key k e xs same none)

pub find_key-appended_other :
    (key : ℕ → ℕ) (k e : ℕ) (xs : List ℕ)
    → key e ≢ k
    → find_key key k (xs ++ e ∷ []) ≡ find_key key k xs
unfolding find_key
find_key-appended_other key k e [] ne = rw (ne→== (key e) k ne) refl
find_key-appended_other key k e (x ∷ xs) ne = rw (find_key-appended_other key k e xs ne) refl

pub OneEach-same :
    (key other : ℕ → ℕ) (xs : List ℕ)
    → All (λ x. other x ≡ key x) xs
    → OneEach key xs
    → OneEach other xs
OneEach-same key other [] same one = tt
OneEach-same key other (x ∷ xs) (e, same) (ne, one) = (
  All-zip (λ y. other y ≡ key y) (λ y. key x ≢ key y) (λ y. other x ≢ other y)
      (λ y f d. omega arith) xs same ne,
  OneEach-same key other xs same one,
)

-- without one of them, no other has its key
pub OneEach-removed :
    (key : ℕ → ℕ) (e : ℕ) (xs ys : List ℕ)
    → OneEach key (xs ++ e ∷ ys)
    → Keyless key (key e) (xs ++ ys) × OneEach key (xs ++ ys)
OneEach-removed key e [] ys (ne, one) =
    (All-implies (λ y. key e ≢ key y) (λ y. key y ≢ key e) ys ne (λ y d. omega arith), one)
OneEach-removed key e (x ∷ xs) ys (ne, one) =
    let (before, here, after) = All-parts (λ y. key x ≢ key y) xs e ys ne in
    let (less, rest) = OneEach-removed key e xs ys one in
    ((here, less), (All-append (λ y. key x ≢ key y) xs ys before after, rest))

pub OneEach-appended :
    (key : ℕ → ℕ) (k e : ℕ) (xs : List ℕ)
    → key e ≡ k
    → Keyless key k xs
    → OneEach key xs
    → OneEach key (xs ++ e ∷ [])
OneEach-appended key k e [] same none one = (tt, tt)
OneEach-appended key k e (x ∷ xs) same (ne, none) (d, one) = (
  All-append (λ y. key x ≢ key y) xs (e ∷ []) d ((omega arith), tt),
  OneEach-appended key k e xs same none one,
)

-- the elements that stay in a bucket, and those that do not
unfoldable pub staying : (stays : ℕ → Bool) → List ℕ → List ℕ
staying stays [] = []
staying stays (x ∷ xs) = if stays x then x ∷ staying stays xs else staying stays xs

unfoldable pub going : (stays : ℕ → Bool) → List ℕ → List ℕ
going stays [] = []
going stays (x ∷ xs) = if stays x then going stays xs else x ∷ going stays xs

pub going-staying :
    (stays : ℕ → Bool) (xs : List ℕ) → going stays xs ≡ staying (λ x. not (stays x)) xs
unfolding staying going
going-staying stays [] = refl
going-staying stays (x ∷ xs) = elim (Bool-cases (stays x)) [
  | inl s ↦ rw s (going-staying stays xs)
  | inr s ↦ rw s (ap (λ zs. x ∷ zs) (going-staying stays xs))
]

-- they pass the test, and have what all of them had
pub All-staying :
    (P : ℕ → Type 0) (stays : ℕ → Bool) (xs : List ℕ)
    → All P xs
    → All (λ x. P x × (stays x ≡ true)) (staying stays xs)
unfolding staying
All-staying P stays [] all = tt
All-staying P stays (x ∷ xs) (p, all) = elim (Bool-cases (stays x)) [
  | inl s ↦ rw s ((p, s), All-staying P stays xs all)
  | inr s ↦ rw s (All-staying P stays xs all)
]

All-kept : (P : ℕ → Type 0) (stays : ℕ → Bool) (xs : List ℕ) → All P xs → All P (staying stays xs)
All-kept P stays xs all =
    All-implies (λ x. P x × (stays x ≡ true)) P (staying stays xs) (All-staying P stays xs all)
      (λ x (p, _). p)

pub Distinct-staying : (stays : ℕ → Bool) (xs : List ℕ) → Distinct xs → Distinct (staying stays xs)
unfolding staying
Distinct-staying stays [] d = tt
Distinct-staying stays (x ∷ xs) (l, d) = elim (Bool-cases (stays x)) [
  | inl s ↦ rw s (All-kept (λ y. x ≢ y) stays xs l, Distinct-staying stays xs d)
  | inr s ↦ rw s (Distinct-staying stays xs d)
]

pub OneEach-staying :
    (key : ℕ → ℕ) (stays : ℕ → Bool) (xs : List ℕ) → OneEach key xs → OneEach key (staying stays xs)
unfolding staying
OneEach-staying key stays [] d = tt
OneEach-staying key stays (x ∷ xs) (l, d) = elim (Bool-cases (stays x)) [
  | inl s ↦ rw s (All-kept (λ y. key x ≢ key y) stays xs l, OneEach-staying key stays xs d)
  | inr s ↦ rw s (OneEach-staying key stays xs d)
]

-- when all with the key stay, the first of them is the same
pub find_key-staying :
    (key : ℕ → ℕ) (k : ℕ) (stays : ℕ → Bool) (xs : List ℕ)
    → ((x : ℕ) → key x ≡ k → stays x ≡ true)
    → find_key key k (staying stays xs) ≡ find_key key k xs
unfolding find_key staying
find_key-staying key k stays [] all = refl
find_key-staying key k stays (x ∷ xs) all = elim (Bool-cases (key x == k)) [
  | inl same ↦ rw (all x (==→eq (key x) k same), same) refl
  | inr differ ↦ elim (Bool-cases (stays x)) [
    | inl s ↦ rw (s, differ) (find_key-staying key k stays xs all)
    | inr s ↦ rw (s, differ) (find_key-staying key k stays xs all)
  ]
]
