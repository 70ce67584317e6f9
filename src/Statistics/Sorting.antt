-- ===== src/Statistics/Sorting.antt =====
-- src/statistics: what sorting keeps, and the values before and behind a place of a sorted list.
use benchkit.Prelude.{
  ℕ, zero, suc, ◌+◌, ◌≤◌, ◌<◌, ◌≡◌, leb, ltb, if◌then◌else◌, Bool, some, List, [], ◌∷◌, All, length,
  get_elem?, arith, refl, if_cases, subst,
}
use benchkit.Statistics.{insert, sorted}

-- the number of values that pass a test
abbrev pub count : (ℕ → Bool) → List ℕ → ℕ
count test [] = 0
count test (x ∷ xs) = (if test x then 1 else 0) + count test xs

count-insert :
    (test : ℕ → Bool) (n : ℕ) (xs : List ℕ)
    → count test (insert n xs) ≡ (if test n then 1 else 0) + count test xs
count-insert test n [] = refl
count-insert test n (x ∷ xs) =
    if_cases (λ ys. count test ys ≡ (if test n then 1 else 0) + count test (x ∷ xs)) (leb n x)
      (λ e. refl) (λ e. omega (arith, count-insert test n xs))

pub count-sorted : (test : ℕ → Bool) (xs : List ℕ) → count test (sorted xs) ≡ count test xs
count-sorted test [] = refl
count-sorted test (x ∷ xs) = omega (arith, count-insert test x (sorted xs), count-sorted test xs)

pub length-insert : (n : ℕ) (xs : List ℕ) → length (insert n xs) ≡ suc (length xs)
length-insert n [] = refl
length-insert n (x ∷ xs) =
    if_cases (λ ys. length ys ≡ suc (suc (length xs))) (leb n x) (λ e. refl)
      (λ e. omega (arith, length-insert n xs))

pub length-sorted : (xs : List ℕ) → length (sorted xs) ≡ length xs
length-sorted [] = refl
length-sorted (x ∷ xs) = omega (arith, length-insert x (sorted xs), length-sorted xs)

-- Each value is at most each behind it.
abbrev pub IsSorted : List ℕ → Type 0
IsSorted [] = Unit
IsSorted (x ∷ xs) = All (λ y. x ≤ y) xs × IsSorted xs

All-insert : (P : ℕ → Type 0) (n : ℕ) (xs : List ℕ) → P n → All P xs → All P (insert n xs)
All-insert P n [] h hs = (h, tt)
All-insert P n (x ∷ xs) h hs =
    if_cases (All P) (leb n x) (λ e. (h, hs)) (λ e. (hs.0, All-insert P n xs h hs.1))

All-below : (n x : ℕ) (xs : List ℕ) → n ≤ x → All (λ y. x ≤ y) xs → All (λ y. n ≤ y) xs
All-below n x [] h hs = tt
All-below n x (y ∷ ys) h hs = (omega (arith, h, hs.0), All-below n x ys h hs.1)

insert-IsSorted : (n : ℕ) (xs : List ℕ) → IsSorted xs → IsSorted (insert n xs)
insert-IsSorted n [] h = (tt, tt)
insert-IsSorted n (x ∷ xs) h =
    if_cases IsSorted (leb n x)
      (λ e. let le : n ≤ x = ground (arith, e) in ((le, All-below n x xs le h.0), h))
      (λ e. (All-insert (λ y. x ≤ y) n xs (ground (arith, e)) h.0, insert-IsSorted n xs h.1))

pub sorted-IsSorted : (xs : List ℕ) → IsSorted (sorted xs)
sorted-IsSorted [] = tt
sorted-IsSorted (x ∷ xs) = insert-IsSorted x (sorted xs) (sorted-IsSorted xs)

count_none_below : (r : ℕ) (xs : List ℕ) → All (λ y. r ≤ y) xs → count (λ y. ltb y r) xs ≡ 0
count_none_below r [] h = refl
count_none_below r (x ∷ xs) h = ground (arith, h.0, count_none_below r xs h.1)

pub All-get_elem? :
    (P : ℕ → Type 0) (xs : List ℕ) (i r : ℕ) → All P xs → get_elem? xs i ≡ some r → P r
All-get_elem? P [] i r h e = absurd cc
All-get_elem? P (x ∷ xs) zero r h e = let same : x ≡ r = cc in subst P same h.0
All-get_elem? P (x ∷ xs) (suc i) r h e = All-get_elem? P xs i r h.1 e

-- At a place of a sorted list: those up to it are at most the value there, and those below that
-- value all stand before it.
pub count-get_elem? :
    (xs : List ℕ) (i r : ℕ)
    → IsSorted xs
    → get_elem? xs i ≡ some r
    → (i < count (λ y. leb y r) xs) × (count (λ y. ltb y r) xs ≤ i)
count-get_elem? [] i r h e = absurd cc
count-get_elem? (x ∷ xs) zero r h e =
    let same : x ≡ r = cc in
    let none_below = count_none_below r xs (subst (λ n. All (λ y. n ≤ y) xs) same h.0) in
    ground (arith, same, none_below)
count-get_elem? (x ∷ xs) (suc i) r h e =
    let le = All-get_elem? (λ y. x ≤ y) xs i r h.0 e in
    let rest = count-get_elem? xs i r h.1 e in ground (arith, le, rest.0, rest.1)
