-- ===== src/Prelude/Lists.antt =====
-- Lists measured by native numbers, and how two splits of one list compare.
use Prim.Native.Nat.{ℕ, zero, suc, ◌+◌, ◌-◌, ◌≤◌}
use mathlib.Core.Path.{◌≡◌, refl, ap}
use mathlib.Core.Logic.{◌⊎◌, inl, inr}
use mathlib.Core.Option.{Option, none, some}
use mathlib.Core.List.{List, [], ◌∷◌, ◌++◌}
use native.Mathlib.Omega.{arith}

abbrev pub All {ℓ κ} : {A : Type ℓ} → (A → Type κ) → List A → Type κ
All P [] = Unit
All P (x ∷ xs) = P x × All P xs

-- `P` holds of an element.
abbrev pub Any {ℓ} : {A : Type ℓ} → (A → Type 0) → List A → Type 0
Any P [] = ⊥
Any P (x ∷ xs) = P x ⊎ Any P xs

pub All-map {ℓ} :
    {A : Type ℓ} (P Q : A → Type 0) (xs : List A) → ((x : A) → P x → Q x) → All P xs → All Q xs
All-map P Q [] f h = tt
All-map P Q (x ∷ xs) f h = (f x h.0, All-map P Q xs f h.1)

module _ {ℓ} {A : Type ℓ} where
  abbrev pub length : List A → ℕ
  length [] = 0
  length (x ∷ xs) = suc (length xs)

  pub length-append : (xs ys : List A) → length (xs ++ ys) ≡ length xs + length ys
  length-append [] ys = omega arith
  length-append (x ∷ xs) ys = omega (arith, length-append xs ys)

  pub cons-head : {x y : A} {xs ys : List A} → x ∷ xs ≡ y ∷ ys → x ≡ y
  cons-head e = cc

  pub cons-tail : {x y : A} {xs ys : List A} → x ∷ xs ≡ y ∷ ys → xs ≡ ys
  cons-tail e = cc

  pub cons-ne-nil : {x : A} {xs : List A} → x ∷ xs ≡ [] → ⊥
  cons-ne-nil e = cc

  -- Of two splits of one list, either the second front is a proper part of the first, or it holds
  -- the whole of it.
  pub split_cases :
      (xs bs front back : List A) (x : A)
      → xs ++ bs ≡ front ++ (x ∷ back)
      → ((more : List A) × (xs ≡ front ++ (x ∷ more)) × (back ≡ more ++ bs))
        ⊎ ((rest : List A) × (front ≡ xs ++ rest) × (bs ≡ rest ++ (x ∷ back)))
  split_cases [] bs front back x e = inr (front, refl, e)
  split_cases (a ∷ xs) bs [] back x e = inl (xs, cc, cc)
  split_cases (a ∷ xs) bs (f ∷ front) back x e = elim (split_cases xs bs front back x (cc)) [
    | inl (more, p, q) ↦ inl (more, cc, q)
    | inr (rest, p, q) ↦ inr (rest, cc, q)
  ]

  -- Of two splits of one list, either the first front is a proper part of the second, or it holds
  -- the whole of it.
  pub front_cases :
      (xs ys zs ws : List A)
      → xs ++ ys ≡ zs ++ ws
      → ((x : A) × (back : List A) × (zs ≡ xs ++ (x ∷ back)))
        ⊎ ((rest : List A) × (xs ≡ zs ++ rest) × (rest ++ ys ≡ ws))
  front_cases xs ys [] ws e = inr (xs, refl, e)
  front_cases [] ys (z ∷ zs) ws e = inl (z, zs, refl)
  front_cases (x ∷ xs) ys (z ∷ zs) ws e = elim (front_cases xs ys zs ws (cc)) [
    | inl (y, back, p) ↦ inl (y, back, cc)
    | inr (rest, p, q) ↦ inr (rest, cc, q)
  ]

  abbrev pub drop : ℕ → List A → List A
  drop zero xs = xs
  drop (suc n) [] = []
  drop (suc n) (x ∷ xs) = drop n xs

  abbrev pub take : ℕ → List A → List A
  take zero xs = []
  take (suc n) [] = []
  take (suc n) (x ∷ xs) = x ∷ take n xs

  pub take-append-drop : (n : ℕ) (xs : List A) → take n xs ++ drop n xs ≡ xs
  take-append-drop zero xs = refl
  take-append-drop (suc n) [] = refl
  take-append-drop (suc n) (x ∷ xs) = ap (λ ys. x ∷ ys) (take-append-drop n xs)

  pub length-drop : (n : ℕ) (xs : List A) → length (drop n xs) ≡ length xs - n
  length-drop zero xs = omega arith
  length-drop (suc n) [] = omega arith
  length-drop (suc n) (x ∷ xs) = omega (arith, length-drop n xs)

  take-nil : (n : ℕ) → take n [] ≡ []
  take-nil zero = refl
  take-nil (suc n) = refl

  pub take_sum : (n c m : ℕ) (xs : List A) → m ≡ n + c → take n xs ++ take c (drop n xs) ≡ take m xs
  take_sum zero c m xs e = ap (λ k. take k xs) (omega arith)
  take_sum (suc n) c zero xs e = absurd (omega arith)
  take_sum (suc n) c (suc m) [] e = take-nil c
  take_sum (suc n) c (suc m) (x ∷ xs) e = ap (λ ys. x ∷ ys) (take_sum n c m xs (omega arith))

  pub drop-length-append : (xs ys : List A) → drop (length xs) (xs ++ ys) ≡ ys
  drop-length-append [] ys = refl
  drop-length-append (x ∷ xs) ys = drop-length-append xs ys

  pub split_at :
      (n : ℕ) (xs : List A)
      → n ≤ length xs
      → (front : List A) × (back : List A) × (xs ≡ front ++ back) × (length front ≡ n)
  split_at zero xs h = ([], xs, refl, refl)
  split_at (suc n) [] h = absurd (omega arith)
  split_at (suc n) (x ∷ xs) h =
      let (front, back, p, q) = split_at n xs (omega arith) in (x ∷ front, back, cc, omega arith)

  pub All-append_left {κ} : (P : A → Type κ) (xs ys : List A) → All P (xs ++ ys) → All P xs
  All-append_left P [] ys h = tt
  All-append_left P (x ∷ xs) ys h = (h.0, All-append_left P xs ys h.1)

  pub All-append {κ} : (P : A → Type κ) (xs ys : List A) → All P xs → All P ys → All P (xs ++ ys)
  All-append P [] ys hx hy = hy
  All-append P (x ∷ xs) ys hx hy = (hx.0, All-append P xs ys hx.1 hy)

  abbrev pub get_elem? : List A → ℕ → Option A
  get_elem? [] n = none
  get_elem? (x ∷ xs) zero = some x
  get_elem? (x ∷ xs) (suc n) = get_elem? xs n

  pub get_elem?-append : (xs ys : List A) (y : A) → get_elem? (xs ++ (y ∷ ys)) (length xs) ≡ some y
  get_elem?-append [] ys y = refl
  get_elem?-append (x ∷ xs) ys y = get_elem?-append xs ys y

  abbrev pub replicate : ℕ → A → List A
  replicate zero x = []
  replicate (suc n) x = x ∷ replicate n x

-- `[..].concat()`
abbrev pub concat {ℓ} : {A : Type ℓ} → List (List A) → List A
concat [] = []
concat (x ∷ xs) = x ++ concat xs
