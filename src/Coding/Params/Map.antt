-- ===== src/Coding/Params/Map.antt =====
-- The `HashMap<u64, Vec<u8>>` of coding/params.rs: an association list in the order of iteration.
use linode_moq.Prelude.{
  ℕ, List, [], ◌∷◌, ◌++◌, Bool, false, ◌||◌, ◌==◌, if◌then◌else◌, Option, none, some, ◌≡◌, refl,
  subst, inl, inr, Bool-cases, All, length, ◌+◌, arith,
}

abbrev pub Entries : Type 0
Entries = List (ℕ × List ℕ)

unfoldable pub contains_key : ℕ → Entries → Bool
contains_key k [] = false
contains_key k ((j, w) ∷ m) = j == k || contains_key k m

unfoldable pub lookup : ℕ → Entries → Option (List ℕ)
lookup k [] = none
lookup k ((j, w) ∷ m) = if j == k then some w else lookup k m

-- A value under an old key is replaced, and a new key comes last.
unfoldable pub insert : ℕ → List ℕ → Entries → Entries
insert k v [] = (k, v) ∷ []
insert k v ((j, w) ∷ m) = if j == k then (k, v) ∷ m else (j, w) ∷ insert k v m

unfoldable pub remove : ℕ → Entries → Entries
remove k [] = []
remove k ((j, w) ∷ m) = if j == k then m else (j, w) ∷ remove k m

some-injective : {x y : List ℕ} → some x ≡ some y → x ≡ y
some-injective e = cc

-- No key twice.
abbrev pub Distinct : Entries → Type 0
Distinct [] = Unit
Distinct ((k, v) ∷ m) = (contains_key k m ≡ false) × Distinct m

pub insert_new :
    (k : ℕ) (v : List ℕ) (m : Entries)
    → contains_key k m ≡ false
    → insert k v m ≡ m ++ ((k, v) ∷ [])
unfolding insert contains_key
insert_new k v [] h = refl
insert_new k v ((j, w) ∷ m) h = ground (arith, insert_new k v m)

pub lookup-insert_self : (k : ℕ) (v : List ℕ) (m : Entries) → lookup k (insert k v m) ≡ some v
unfolding insert lookup
lookup-insert_self k v [] = ground arith
lookup-insert_self k v ((j, w) ∷ m) = ground (arith, lookup-insert_self k v m)

pub lookup-insert_ne :
    (k i : ℕ) (v : List ℕ) (m : Entries) → (k == i) ≡ false → lookup i (insert k v m) ≡ lookup i m
unfolding insert lookup
lookup-insert_ne k i v [] h = ground arith
lookup-insert_ne k i v ((j, w) ∷ m) h = ground (arith, lookup-insert_ne k i v m)

pub remove_last :
    (k : ℕ) (v : List ℕ) (m : Entries)
    → contains_key k m ≡ false
    → remove k (m ++ ((k, v) ∷ [])) ≡ m
unfolding remove contains_key
remove_last k v [] h = ground arith
remove_last k v ((j, w) ∷ m) h = ground (arith, remove_last k v m)

pub lookup_last :
    (k : ℕ) (v : List ℕ) (m : Entries)
    → contains_key k m ≡ false
    → lookup k (m ++ ((k, v) ∷ [])) ≡ some v
unfolding lookup contains_key
lookup_last k v [] h = ground arith
lookup_last k v ((j, w) ∷ m) h = ground (arith, lookup_last k v m)

contains_key-append :
    (k : ℕ) (m n : Entries) → contains_key k (m ++ n) ≡ (contains_key k m || contains_key k n)
unfolding contains_key
contains_key-append k [] n = refl
contains_key-append k ((j, w) ∷ m) n = ground (arith, contains_key-append k m n)

pub Distinct-middle :
    (m : Entries) (k : ℕ) (v : List ℕ) (n : Entries)
    → Distinct (m ++ ((k, v) ∷ n))
    → contains_key k m ≡ false
unfolding contains_key
Distinct-middle [] k v n h = refl
Distinct-middle ((j, w) ∷ m) k v n (h, hs) =
    ground (arith, contains_key-append j m ((k, v) ∷ n), Distinct-middle m k v n hs)

pub Distinct-append_new :
    (m : Entries) (k : ℕ) (v : List ℕ)
    → Distinct m
    → contains_key k m ≡ false
    → Distinct (m ++ ((k, v) ∷ []))
unfolding contains_key
Distinct-append_new [] k v h n = (refl, tt)
Distinct-append_new ((j, w) ∷ m) k v (h, hs) n = (
  ground (arith, contains_key-append j m ((k, v) ∷ [])),
  Distinct-append_new m k v hs (ground arith),
)

-- What `remove` leaves.
pub All-remove {κ} : (P : ℕ × List ℕ → Type κ) (k : ℕ) (m : Entries) → All P m → All P (remove k m)
unfolding remove
All-remove P k [] h = tt
All-remove P k ((j, w) ∷ m) (h, hs) = elim (Bool-cases (j == k)) [
  | inl e ↦ rw e hs
  | inr e ↦ rw e (h, All-remove P k m hs)
]

contains_key-remove :
    (i k : ℕ) (m : Entries) → contains_key i m ≡ false → contains_key i (remove k m) ≡ false
unfolding contains_key remove
contains_key-remove i k [] h = refl
contains_key-remove i k ((j, w) ∷ m) h = ground (arith, contains_key-remove i k m)

pub Distinct-remove : (k : ℕ) (m : Entries) → Distinct m → Distinct (remove k m)
unfolding remove
Distinct-remove k [] h = tt
Distinct-remove k ((j, w) ∷ m) (h, hs) = elim (Bool-cases (j == k)) [
  | inl e ↦ rw e hs
  | inr e ↦ rw e (contains_key-remove j k m h, Distinct-remove k m hs)
]

pub contains_key-remove_self :
    (k : ℕ) (m : Entries) → Distinct m → contains_key k (remove k m) ≡ false
unfolding contains_key remove
contains_key-remove_self k [] h = refl
contains_key-remove_self k ((j, w) ∷ m) (h, hs) = ground (arith, contains_key-remove_self k m hs)

pub length-remove :
    (k : ℕ) (v : List ℕ) (m : Entries) → lookup k m ≡ some v → length (remove k m) + 1 ≡ length m
unfolding lookup remove
length-remove k v [] h = cc
length-remove k v ((j, w) ∷ m) h = ground (arith, length-remove k v m)

pub lookup-All {κ} :
    (P : ℕ × List ℕ → Type κ) (k : ℕ) {v : List ℕ} (m : Entries)
    → All P m
    → lookup k m ≡ some v
    → (j : ℕ) × P (j, v)
unfolding lookup
lookup-All P k [] h e = cc
lookup-All P k {v} ((j, w) ∷ m) (h, hs) e = elim (Bool-cases (j == k)) [
  | inl same ↦ (j, subst (λ x. P (j, x)) (some-injective (rw same at e)) h)
  | inr other ↦ lookup-All P k m hs (rw other at e)
]
