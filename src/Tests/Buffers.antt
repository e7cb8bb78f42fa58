-- ===== src/Tests/Buffers.antt =====
-- Concrete buffers: a list of numbers that are read as bytes, and a vector with room left.
use linode_moq.Prelude.{
  ℕ, zero, suc, ◌+◌, ◌-◌, ◌%◌, ◌^◌, ◌≤◌, ◌≡◌, refl, List, [], ◌∷◌, ◌++◌, length, All, cons-head,
  cons-tail, Option, none, some, if◌then◌else◌, leb, le→leb, arith,
}
use linode_moq.Prelude.BigEndian.{IsByte, to_be_bytes}
use linode_moq.Coding.Buffer.{Buf, BufMut, VecBuf, CursorBuf}

abbrev as_bytes : List ℕ → List ℕ
as_bytes [] = []
as_bytes (x ∷ r) = (x % 256) ∷ as_bytes r

abbrev next_byte : List ℕ → Option (ℕ × List ℕ)
next_byte [] = none
next_byte (x ∷ r) = some (x % 256, r)

abbrev prepend : ℕ → Option (List ℕ × List ℕ) → Option (List ℕ × List ℕ)
prepend x none = none
prepend x (some (bs, r)) = some (x ∷ bs, r)

abbrev next_bytes : ℕ → List ℕ → Option (List ℕ × List ℕ)
next_bytes zero r = some ([], r)
next_bytes (suc n) [] = none
next_bytes (suc n) (x ∷ r) = prepend (x % 256) (next_bytes n r)

pub length-as_bytes : (r : List ℕ) → length r ≡ length (as_bytes r)
length-as_bytes [] = refl
length-as_bytes (x ∷ r) = omega (arith, length-as_bytes r)

pub as_bytes-IsByte : (r : List ℕ) → All IsByte (as_bytes r)
as_bytes-IsByte [] = tt
as_bytes-IsByte (x ∷ r) = (omega arith, as_bytes-IsByte r)

pub as_bytes-id : (bs : List ℕ) → All IsByte bs → as_bytes bs ≡ bs
as_bytes-id [] h = refl
as_bytes-id (x ∷ bs) (h, hs) =
    let small : x % 256 ≡ x = omega arith in rw (small, as_bytes-id bs hs) refl

pub next_byte_lem :
    (r : List ℕ) {x : ℕ} {bs : List ℕ}
    → as_bytes r ≡ x ∷ bs
    → (r' : List ℕ) × (next_byte r ≡ some (x, r')) × (as_bytes r' ≡ bs)
next_byte_lem [] e = cc
next_byte_lem (y ∷ r) e = (r, rw (cons-head e) refl, cons-tail e)

pub next_bytes_lem :
    (r bs cs : List ℕ)
    → as_bytes r ≡ bs ++ cs
    → (r' : List ℕ) × (next_bytes (length bs) r ≡ some (bs, r')) × (as_bytes r' ≡ cs)
next_bytes_lem r [] cs e = (r, refl, e)
next_bytes_lem [] (b ∷ bs) cs e = cc
next_bytes_lem (x ∷ r) (b ∷ bs) cs e =
    let (r', p, q) = next_bytes_lem r bs cs (cons-tail e) in (r', rw (p, cons-head e) refl, q)

instance abbrev pub list_buf : Buf (List ℕ)
list_buf = record {
  contents = as_bytes;
  remaining = length;
  get_u8 = next_byte;
  copy_to_slice = next_bytes;
  remaining_lem = length-as_bytes;
  contents-IsByte = as_bytes-IsByte;
  get_u8_lem = next_byte_lem;
  copy_to_slice_lem = next_bytes_lem;
}

abbrev pub list_cursor : CursorBuf (List ℕ)
list_cursor = record { buf = list_buf; new = λ bytes. bytes; contents_new = as_bytes-id }

pub record Vec : Type 0 where
  pub bytes : List ℕ
  pub room : ℕ

abbrev push_bytes : List ℕ → Vec → Option Vec
push_bytes bs w =
    if leb (length bs) w.room
    then some (record { bytes = w.bytes ++ bs; room = w.room - length bs })
    else none

pub push_bytes_lem :
    (w : Vec) (bs : List ℕ)
    → length bs ≤ w.room
    → (w' : Vec) × (push_bytes bs w ≡ some w')
      × (w'.bytes ≡ w.bytes ++ bs)
      × (w'.room + length bs ≡ w.room)
push_bytes_lem w bs h = (
  record { bytes = w.bytes ++ bs; room = w.room - length bs },
  rw (le→leb (length bs) w.room h) refl,
  refl,
  omega arith,
)

instance abbrev pub vec_mut : BufMut Vec
vec_mut = record {
  written = λ w. w.bytes;
  remaining_mut = λ w. w.room;
  put_slice = push_bytes;
  put_uint = λ k x. push_bytes (to_be_bytes k x);
  put_slice_lem = push_bytes_lem;
  put_uint_lem = λ k x w. refl;
}

abbrev pub empty : Vec
empty = record { bytes = []; room = 2 ^ 63 - 1 }

abbrev pub vec_buf : VecBuf Vec
vec_buf = record { buf_mut = vec_mut; new = empty; written_new = refl; room_new = refl }
