-- ===== src/Prelude/BigEndian.antt =====
-- `to_be_bytes` and `from_be_bytes` of the unsigned integers, at every width.
use Prim.Native.Nat.{ℕ, zero, suc, ◌+◌, ◌*◌, ◌/◌, ◌%◌, ◌^◌, ◌<◌}
use mathlib.Core.Path.{◌≡◌, refl, ap}
use mathlib.Core.List.{List, [], ◌∷◌}
use native.Mathlib.Nat.{pow-succ', one-le-pow, div-add-mod', mod-lt}
use native.Mathlib.Omega.{arith}
use linode_moq.Prelude.Lists.{length, All}

abbrev pub IsByte : ℕ → Type 0
IsByte b = b < 256

-- The lowest `k` bytes of `x`, highest first.
unfoldable pub to_be_bytes : ℕ → ℕ → List ℕ
to_be_bytes zero x = []
to_be_bytes (suc k) x = (x / 256 ^ k % 256) ∷ to_be_bytes k x

-- The integer that the bytes stand for, above the digits read so far.
unfoldable pub be_value : ℕ → List ℕ → ℕ
be_value acc [] = acc
be_value acc (b ∷ bs) = be_value (acc * 256 + b) bs

pub length-to_be_bytes : (k x : ℕ) → length (to_be_bytes k x) ≡ k
unfolding to_be_bytes
length-to_be_bytes zero x = refl
length-to_be_bytes (suc k) x = omega (arith, length-to_be_bytes k x)

div_of_fields : (p q t : ℕ) → t < p → (q * p + t) / p ≡ q
div_of_fields p q t h = grind arith

byte_of_fields : (p q s t : ℕ) → s < 256 → t < p → (q * (256 * p) + (s * p + t)) / p % 256 ≡ s
byte_of_fields p q s t hs ht =
    let regroup : q * (256 * p) + (s * p + t) ≡ (q * 256 + s) * p + t = omega arith in
    rw regroup (omega (arith, div_of_fields p (q * 256 + s) t ht))

-- `r` below `256 * p` as its highest byte and the rest.
regroup : (p q r : ℕ) → 0 < p → q * (256 * p) + r ≡ (q * 256 + r / p) * p + r % p
regroup p q r h = omega (arith, div-add-mod' r p)

high_byte : (p q r : ℕ) → 0 < p → r < 256 * p → (q * (256 * p) + r) / p % 256 ≡ r / p
high_byte p q r h hr =
    let split : q * (256 * p) + r ≡ q * (256 * p) + (r / p * p + r % p) =
      omega (arith, div-add-mod' r p) in
    rw split (byte_of_fields p q (r / p) (r % p) (grind arith) (mod-lt r h))

-- Reading back the low bytes gives the remainder, whatever stands above them.
be_value-fields :
    (k acc q r : ℕ)
    → r < 256 ^ k
    → be_value acc (to_be_bytes k (q * 256 ^ k + r)) ≡ acc * 256 ^ k + r
unfolding to_be_bytes be_value
be_value-fields zero acc q r h = omega arith
be_value-fields (suc k) acc q r h =
    let p : ℕ = 256 ^ k in
    let pos : 0 < p = one-le-pow k 256 (omega arith) in
    let h' : r < 256 * p = omega (arith, pow-succ' 256 k) in
    rw
      (
        pow-succ' 256 k,
        high_byte p q r pos h',
        regroup p q r pos,
        be_value-fields k (acc * 256 + r / p) (q * 256 + r / p) (r % p) (mod-lt r pos),
      )
      (omega (arith, div-add-mod' r p))

-- An integer of `suc k` bytes whose highest byte holds `t` above the six highest bits of `x`.
module _ (k t x : ℕ) (ht : t < 4) (hx : x < 64 * 256 ^ k) where
  abbrev tagged : ℕ
  tagged = t * (64 * 256 ^ k) + x

  pos : 0 < 256 ^ k
  pos = one-le-pow k 256 (omega arith)

  pub top_six : x / 256 ^ k < 64
  top_six = let p : ℕ = 256 ^ k in grind (arith, pos, div-add-mod' x p)

  tagged_split : tagged ≡ (t * 64 + x / 256 ^ k) * 256 ^ k + x % 256 ^ k
  tagged_split = omega (arith, div-add-mod' x (256 ^ k))

  -- The bytes: `t` and six bits, and then the low bytes.
  pub tagged_bytes :
      (low : List ℕ) × (to_be_bytes (suc k) tagged ≡ (t * 64 + x / 256 ^ k) ∷ low)
      × (length low ≡ k)
      × (be_value (x / 256 ^ k) low ≡ x)
  unfolding to_be_bytes
  tagged_bytes = (
    to_be_bytes k tagged,
    rw first,
    length-to_be_bytes k tagged,
    rw
        (
          tagged_split,
          be_value-fields k (x / 256 ^ k) (t * 64 + x / 256 ^ k) (x % 256 ^ k) (mod-lt x pos),
        )
        (div-add-mod' x (256 ^ k)),
  )
    where
      first : tagged / 256 ^ k % 256 ≡ t * 64 + x / 256 ^ k
      first = rw tagged_split (
          omega (
            arith,
            top_six,
            div_of_fields (256 ^ k) (t * 64 + x / 256 ^ k) (x % 256 ^ k) (mod-lt x pos),
          ))

-- The integer that `n` bytes below the digits of `acc` stand for.
pub be_value-lt :
    (acc m : ℕ) (bs : List ℕ) → acc < m → All IsByte bs → be_value acc bs < m * 256 ^ length bs
unfolding be_value
be_value-lt acc m [] h hs = omega arith
be_value-lt acc m (x ∷ xs) h hs = omega (
  arith,
  be_value-lt (acc * 256 + x) (m * 256) xs (omega arith) hs.1,
  ap (λ (t : ℕ). m * t) (pow-succ' 256 (length xs)),
)
