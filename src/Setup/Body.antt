-- ===== src/Setup/Body.antt =====
-- How setup/client.rs and setup/server.rs encode: the versions, then the parameters with the role,
-- in a vector, which follows behind its length.
use linode_moq.Prelude.{ℕ, ◌≡◌, refl, List, ◌++◌, length, length-append, arith}
use linode_moq.Coding.Outcome.{EncodeError, Outcome, ok, err, panic}
use linode_moq.Coding.Buffer.{BufMut, VecBuf}
use linode_moq.Coding.Encoder.{Encoder, fail, abort}
use linode_moq.Coding.Rules.Writes.{Writes}
use linode_moq.Coding.Framed.{unwrapped, and_then, framed_bytes, framed_wire, framed_bytes-Writes}
use linode_moq.Coding.Varint.Format.{IsVarint}
use linode_moq.Coding.Params.{Params, params_encode}
use linode_moq.Coding.Params.Format.{params_wire}
use linode_moq.Coding.Params.Laws.{params_encode-Writes}
use linode_moq.Setup.Role.{Role}
use linode_moq.Setup.RoleParam.{put_role}
use linode_moq.Setup.RoleParam.Laws.{RestFits, with_role_entry, with_role_entry-Fits, put_role_lem}

-- The body, from the encoder of what stands before the parameters.
unfoldable pub encode_body :
    {V : Type 0} → VecBuf V → Encoder V → Role → Params → Outcome EncodeError V
encode_body v front role params = and_then (unwrapped (front v.new)) λ buf.
    and_then (put_role v role params) λ params. unwrapped (params_encode ⦃c = v.buf_mut⦄ params buf)

-- `?`, the length of the body and its bytes.
unfoldable pub put_body :
    {V W : Type 0} ⦃c : BufMut W⦄ → VecBuf V → Outcome EncodeError V → Encoder W
put_body v (ok buf) = framed_bytes (v.buf_mut.written buf)
put_body v (err e) = fail e
put_body v panic = abort

unfoldable pub body_wire : List ℕ → Role → Params → List ℕ
body_wire front role params = front ++ params_wire (with_role_entry role params)

module _ {V : Type 0} (v : VecBuf V) where
  encode_body_lem :
      {front : Encoder V} {bs : List ℕ} (role : Role) (params : Params)
      → Writes v.buf_mut front bs
      → RestFits params
      → IsVarint (length (body_wire bs role params))
      → (buf : V) × (encode_body v front role params ≡ ok buf)
        × (v.buf_mut.written buf ≡ body_wire bs role params)
  unfolding encode_body body_wire unwrapped and_then
  encode_body_lem {front} {bs} role params writes h size =
      let sent : Params = with_role_entry role params in
      let total = length-append bs (params_wire sent) in
      let (buf, p, q, r) = writes.at v.new (omega (arith, v.room_new, size, total)) in
      let (full, s, t, _) =
        (params_encode-Writes ⦃c = v.buf_mut⦄ sent (with_role_entry-Fits role params h)).at buf
          (omega (arith, v.room_new, size, total, r)) in
      (full, rw (p, put_role_lem v role params h, s) refl, rw (q, v.written_new) at t)

module _ {V W : Type 0} ⦃c : BufMut W⦄ (v : VecBuf V) where
  pub put_body-Writes :
      {front : Encoder V} {bs : List ℕ} (role : Role) (params : Params)
      → Writes v.buf_mut front bs
      → RestFits params
      → IsVarint (length (body_wire bs role params))
      → Writes c
          (put_body v (encode_body v front role params))
          (framed_wire (body_wire bs role params))
  unfolding put_body
  put_body-Writes {bs = bs} role params writes h size =
      let (buf, p, q) = encode_body_lem v role params writes h size in
      rw (p, q) (framed_bytes-Writes (body_wire bs role params) size)
