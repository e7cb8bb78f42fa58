-- ===== src/Coding/Params/Laws.antt =====
-- The codec of `Params`: entries go and come in the order of iteration, and no kind comes twice.
use linode_moq.Prelude.{
  ℕ, zero, suc, ◌+◌, List, [], ◌∷◌, ◌++◌, length, length-append, All, All-append, false, ◌≡◌, refl,
  append_assoc, append-nil, arith,
}
use linode_moq.Coding.Buffer.{Buf, BufMut}
use linode_moq.Coding.Codec.{IsCodec}
use linode_moq.Coding.Rules.Writes.{Writes, Writes-then, Writes-done}
use linode_moq.Coding.Rules.Parses.{Parses, Parses-bind, Parses-pure}
use linode_moq.Coding.Rules.Ensures.{Ensures, Ensures-bind, Ensures-if, Ensures-pure, Ensures-fail}
use linode_moq.Coding.Varint.Encoding.{u64_encode-Writes}
use linode_moq.Coding.Varint.Integers.{u64_decode-Parses, u64_decode-Ensures}
use linode_moq.Coding.Prefixed.{
  prefixed_encode-Writes, prefixed_decode-Parses, prefixed_decode-Ensures,
}
use linode_moq.Coding.Params.{Params, decode_entries, params_decode, encode_entries, params_encode}
use linode_moq.Coding.Params.Map.{
  Entries, Distinct, contains_key, insert_new, Distinct-middle, Distinct-append_new,
}
use linode_moq.Coding.Params.Format.{EntryFits, ParamsFits, entries_wire, params_wire}

-- A map of `n` entries that fit the format, no kind twice.
abbrev Filled : ℕ → Entries → Type 0
Filled n m = All EntryFits m × Distinct m × (length m ≡ n)

Filled-append :
    (acc : Entries) (k : ℕ) (v : List ℕ) (n : ℕ)
    → EntryFits (k, v)
    → contains_key k acc ≡ false
    → Filled n acc
    → Filled (suc n) (acc ++ ((k, v) ∷ []))
Filled-append acc k v n e new (fits, distinct, size) = (
  All-append EntryFits acc ((k, v) ∷ []) fits (e, tt),
  Distinct-append_new acc k v distinct new,
  omega (arith, length-append acc ((k, v) ∷ [])),
)

module _ {W : Type 0} ⦃c : BufMut W⦄ where
  encode_entries-Writes :
      (m : Entries) → All EntryFits m → Writes c (encode_entries m) (entries_wire m)
  unfolding encode_entries entries_wire
  encode_entries-Writes [] h = Writes-done
  encode_entries-Writes ((k, v) ∷ m) (h, hs) =
      Writes-then (u64_encode-Writes k h.kind)
        (Writes-then (prefixed_encode-Writes v h.value) (encode_entries-Writes m hs))

module _ {R : Type 0} ⦃b : Buf R⦄ where
  decode_entries-Parses :
      (m acc : Entries)
      → All EntryFits m
      → Distinct (acc ++ m)
      → Parses b (decode_entries (length m) acc) (entries_wire m) (acc ++ m)
  unfolding decode_entries entries_wire
  decode_entries-Parses [] acc h d = rw append-nil (Parses-pure acc)
  decode_entries-Parses ((k, v) ∷ m) acc (h, hs) d =
      let new : contains_key k acc ≡ false = Distinct-middle acc k v m d in
      let acc' : Entries = acc ++ ((k, v) ∷ []) in
      let regroup : acc' ++ m ≡ acc ++ ((k, v) ∷ m) = append_assoc acc ((k, v) ∷ []) m in
      let rest : Parses b (decode_entries (length m) acc') (entries_wire m) (acc ++ ((k, v) ∷ m)) =
        rw regroup at (decode_entries-Parses m acc' hs (rw regroup d)) in
      Parses-bind _ (u64_decode-Parses k h.kind) (
        rw new
          (Parses-bind _ (prefixed_decode-Parses v h.value) (rw (insert_new k v acc new) rest)))

  decode_entries-Ensures :
      (n k : ℕ) (acc : Entries) → Filled k acc → Ensures b (Filled (n + k)) (decode_entries n acc)
  unfolding decode_entries
  decode_entries-Ensures zero k acc h = Ensures-pure acc (h.0, h.1, omega arith)
  decode_entries-Ensures (suc n) k acc h = Ensures-bind _ u64_decode-Ensures λ kind hk.
      Ensures-if (contains_key kind acc) (λ _. Ensures-fail _)
        λ new. Ensures-bind _ prefixed_decode-Ensures λ buf hb.
          let longer : Filled (suc k) (acc ++ ((kind, buf) ∷ [])) =
            Filled-append acc kind buf k (record { kind = hk; value = hb }) new h in
          let sum : n + suc k ≡ suc n + k = omega arith in
          rw (insert_new kind buf acc new)
            (rw sum at (decode_entries-Ensures n (suc k) (acc ++ ((kind, buf) ∷ [])) longer))

module _ {W : Type 0} ⦃c : BufMut W⦄ where
  pub params_encode-Writes :
      (p : Params) → ParamsFits p → Writes c (params_encode p) (params_wire p)
  unfolding params_wire params_encode
  params_encode-Writes p h =
      Writes-then (u64_encode-Writes _ h.count)
        (Writes-then (encode_entries-Writes p.entries h.entries) Writes-done)

module _ {R : Type 0} ⦃b : Buf R⦄ where
  pub params_decode-Parses : (p : Params) → ParamsFits p → Parses b params_decode (params_wire p) p
  unfolding params_wire params_decode
  params_decode-Parses p h =
      Parses-bind _ (u64_decode-Parses _ h.count)
        (Parses-bind _ (decode_entries-Parses p.entries [] h.entries h.distinct) (Parses-pure p))

  pub params_decode-Ensures : Ensures b ParamsFits params_decode
  unfolding params_decode
  params_decode-Ensures = Ensures-bind _ u64_decode-Ensures λ count hc.
      Ensures-bind _ (decode_entries-Ensures count 0 [] (tt, tt, refl)) λ m (fits, distinct, size).
        Ensures-pure _ (record { entries = fits; distinct = distinct; count = omega arith })

module _ {R W : Type 0} ⦃b : Buf R⦄ ⦃c : BufMut W⦄ where
  pub params-IsCodec : IsCodec b c ParamsFits params_wire params_encode params_decode
  params-IsCodec = record {
    writes = params_encode-Writes;
    parses = params_decode-Parses;
    ensures = params_decode-Ensures;
  }
