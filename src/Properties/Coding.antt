-- ===== src/Properties/Coding.antt =====
-- What the codecs in moq-transport/src/coding: numbers, strings, tuples and parameters promise.
use linode_moq.Prelude.{ℕ, List, ◌++◌, ◌∷◌, ◌≤◌, ◌≡◌, length, arith}
use linode_moq.Coding.Buffer.{Buf, BufMut}
use linode_moq.Coding.RoundTrip.{Sends, Receives, round_trip, AsksForMore}
use linode_moq.Coding.Varint.Integers.{u64_decode-Parses}
use linode_moq.Coding.Rules.Ensures.{Tame}
use linode_moq.Coding.Text.{
  string_decode-Ensures, IsText, string_wire, string_encode, string_decode, string-IsCodec,
}
use linode_moq.Coding.Params.Laws.{params_decode-Ensures, params-IsCodec}
use linode_moq.Coding.Varint.{u64_encode, u64_decode}
use linode_moq.Coding.Varint.Format.{IsVarint, varint_wire}
use linode_moq.Coding.Primitives.{u64-IsCodec}
use linode_moq.Coding.Tuple.{
  Tuple, TupleFits, tuple_wire, tuple_encode, tuple_decode, tuple-IsCodec,
}
use linode_moq.Coding.Params.{Params, params_encode, params_decode}
use linode_moq.Coding.Params.Format.{ParamsFits, params_wire}

module _ {R W : Type 0} ⦃b : Buf R⦄ ⦃c : BufMut W⦄ where
  -- A number below 2^62: where there is room the encoder returns and appends the QUIC form of the
  -- number; and the decoder, on a buffer that begins with those bytes, returns the value and leaves
  -- what follows.
  pub u64_round_trip :
      (m : ℕ) (w : W) (r : R) (rest : List ℕ)
      → IsVarint m
      → length (varint_wire m) ≤ c.remaining_mut w
      → b.contents r ≡ varint_wire m ++ rest
      → Sends c (u64_encode m) (varint_wire m) w × Receives b u64_decode m rest r
  u64_round_trip m w r rest h room e = round_trip u64-IsCodec m w r rest h room e

  -- A UTF-8 string whose length fits 62 bits: where there is room the encoder returns and appends
  -- its length and its bytes; and the decoder, on a buffer that begins with those bytes, returns
  -- the value and leaves what follows.
  pub string_round_trip :
      (m : List ℕ) (w : W) (r : R) (rest : List ℕ)
      → IsText m
      → length (string_wire m) ≤ c.remaining_mut w
      → b.contents r ≡ string_wire m ++ rest
      → Sends c (string_encode m) (string_wire m) w × Receives b string_decode m rest r
  string_round_trip m w r rest h room e = round_trip string-IsCodec m w r rest h room e

  -- A tuple whose fields and their number fit the format: where there is room the encoder returns
  -- and appends the number of fields and each field behind its length; and the decoder, on a buffer
  -- that begins with those bytes, returns the value and leaves what follows.
  pub tuple_round_trip :
      (m : Tuple) (w : W) (r : R) (rest : List ℕ)
      → TupleFits m
      → length (tuple_wire m) ≤ c.remaining_mut w
      → b.contents r ≡ tuple_wire m ++ rest
      → Sends c (tuple_encode m) (tuple_wire m) w × Receives b tuple_decode m rest r
  tuple_round_trip m w r rest h room e = round_trip tuple-IsCodec m w r rest h room e

  -- Parameters of which no two have one kind, each with a kind and a length that fit 62 bits: where
  -- there is room the encoder returns and appends their number and each kind and value in order;
  -- and the decoder, on a buffer that begins with those bytes, returns the value and leaves what
  -- follows.
  pub params_round_trip :
      (m : Params) (w : W) (r : R) (rest : List ℕ)
      → ParamsFits m
      → length (params_wire m) ≤ c.remaining_mut w
      → b.contents r ≡ params_wire m ++ rest
      → Sends c (params_encode m) (params_wire m) w × Receives b params_decode m rest r
  params_round_trip m w r rest h room e = round_trip params-IsCodec m w r rest h room e

module _ {R : Type 0} ⦃b : Buf R⦄ where
  -- On a proper front of the QUIC form of a number below 2^62 the decoder asks for more, for at
  -- least one byte and for no more than are missing.
  pub u64_cut_short :
      (m : ℕ) (r : R) (x : ℕ) (back : List ℕ)
      → IsVarint m
      → varint_wire m ≡ b.contents r ++ (x ∷ back)
      → AsksForMore b u64_decode (length (x ∷ back)) r
  u64_cut_short m r x back h e =
      let p = u64_decode-Parses m h in
      let (n, q, k) = p.hungry.at r x back e in (n, q, omega (arith, k))

  -- On any buffer the decoder of a string does not panic: it answers an error, or returns UTF-8 of
  -- a length that fits 62 bits and leaves a tail of the buffer.
  pub string_decode-Tame : (r : R) → Tame b IsText r (string_decode r)
  string_decode-Tame r = string_decode-Ensures.at r

  -- On any buffer the decoder of parameters does not panic: it answers an error, or returns
  -- parameters that fit the format, no kind twice, and leaves a tail of the buffer.
  pub params_decode-Tame : (r : R) → Tame b ParamsFits r (params_decode r)
  params_decode-Tame r = params_decode-Ensures.at r
