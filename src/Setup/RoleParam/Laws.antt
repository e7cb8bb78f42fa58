-- ===== src/Setup/RoleParam/Laws.antt =====
-- The role goes into the parameters and comes out again; the rest of them stays as it is.
use linode_moq.Prelude.{
  ◌+◌, ◌≡◌, refl, [], ◌∷◌, ◌++◌, length, length-append, All, All-append, false, inl, inr,
  Bool-cases, Option, arith,
}
use linode_moq.Prelude.BigEndian.{IsByte, to_be_bytes}
use linode_moq.Coding.Outcome.{DecodeError, Outcome, ok}
use linode_moq.Coding.Buffer.{Buf, VecBuf, CursorBuf}
use linode_moq.Coding.Rules.Parses.{Parses, Parses-pure}
use linode_moq.Coding.Rules.Ensures.{Ensures, Ensures-pure, Ensures-fail}
use linode_moq.Coding.Codec.{Any}
use linode_moq.Coding.Varint.Format.{IsVarint, varint_wire}
use linode_moq.Coding.Params.{Params, has}
use linode_moq.Coding.Params.Map.{
  contains_key, remove, Distinct, insert_new, remove_last, lookup_last, Distinct-append_new,
  All-remove, Distinct-remove, contains_key-remove_self, length-remove,
}
use linode_moq.Coding.Params.Format.{EntryFits, ParamsFits}
use linode_moq.Coding.Params.Access.{
  set_lem, get_lem, get-Taken, Taken, present, absent, unreadable,
}
use linode_moq.Setup.Role.{
  Role, publisher, subscriber, both, role_code, role_wire, role_encode-Writes, role_decode-Parses,
  role_decode-Ensures,
}
use linode_moq.Setup.RoleParam.{with_role, take_role, lift, put_role}

-- Parameters beside a role: neither a role of their own nor a path, and room for one more.
pub record RestFits (params : Params) : Type 0 where
  pub entries : All EntryFits params.entries
  pub distinct : Distinct params.entries
  pub no_role : contains_key 0 params.entries ≡ false
  pub no_path : contains_key 1 params.entries ≡ false
  pub count : IsVarint (length params.entries + 1)

-- The parameters that are sent.
unfoldable pub with_role_entry : Role → Params → Params
with_role_entry role params = record { entries = params.entries ++ ((0, role_wire role) ∷ []) }

role_wire-bytes : (role : Role) → All IsByte (role_wire role) × (length (role_wire role) ≡ 1)
unfolding role_wire role_code varint_wire to_be_bytes
role_wire-bytes publisher = ((omega arith, tt), refl)
role_wire-bytes subscriber = ((omega arith, tt), refl)
role_wire-bytes both = ((omega arith, tt), refl)

pub with_role_entry-Fits :
    (role : Role) (params : Params) → RestFits params → ParamsFits (with_role_entry role params)
unfolding with_role_entry
with_role_entry-Fits role params h =
    let (bytes, size) = role_wire-bytes role in
    record {
      entries =
          All-append EntryFits params.entries ((0, role_wire role) ∷ []) h.entries (
            record { kind = omega arith; value = record { bytes = bytes; size = omega arith } },
            tt,
          );
      distinct = Distinct-append_new params.entries 0 (role_wire role) h.distinct h.no_role;
      count = omega (arith, h.count, length-append params.entries ((0, role_wire role) ∷ []));
    }

module _ {V : Type 0} (v : VecBuf V) where
  pub put_role_lem :
      (role : Role) (params : Params)
      → RestFits params
      → put_role v role params ≡ ok (with_role_entry role params)
  unfolding put_role with_role_entry
  put_role_lem role params h =
      let (_, size) = role_wire-bytes role in
      rw (insert_new 0 (role_wire role) params.entries h.no_role) at
        (set_lem v 0 params (role_encode-Writes ⦃c = v.buf_mut⦄ role tt) (omega arith))

module _ {C : Type 0} (k : CursorBuf C) where
  pub take_role_lem :
      (role : Role) (params : Params)
      → RestFits params
      → take_role k (with_role_entry role params) ≡ ok (role, params)
  unfolding take_role with_role with_role_entry has
  take_role_lem role params h =
      let (bytes, _) = role_wire-bytes role in
      let got =
        get_lem k 0 (with_role_entry role params) (role_decode-Parses ⦃b = k.buf⦄ role tt).reads
          bytes (lookup_last 0 (role_wire role) params.entries h.no_role) in
      rw (got, remove_last 0 (role_wire role) params.entries h.no_role, h.no_path) refl

  module _ {R : Type 0} ⦃b : Buf R⦄ where
    pub take_role-Parses :
        (role : Role) (params : Params)
        → RestFits params
        → Parses b (lift (take_role k (with_role_entry role params))) [] (role, params)
    unfolding lift
    take_role-Parses role params h = rw (take_role_lem role params h) (Parses-pure (role, params))

    with_role-Ensures :
        (params : Params) {o : Outcome DecodeError (Option Role × Params)}
        → ParamsFits params
        → Taken k Any 0 params o
        → Ensures b (λ (role, rest). RestFits rest) (lift (with_role o))
    unfolding lift with_role has
    with_role-Ensures params h (present {a = role} {bs = bs} _ here) =
        elim (Bool-cases (contains_key 1 (remove 0 params.entries))) [
          | inl path ↦ rw path (Ensures-fail _)
          | inr no_path ↦ rw no_path (
              Ensures-pure (role, record { entries = remove 0 params.entries })
                (record {
                  entries = All-remove EntryFits 0 params.entries h.entries;
                  distinct = Distinct-remove 0 params.entries h.distinct;
                  no_role = contains_key-remove_self 0 params.entries h.distinct;
                  no_path = no_path;
                  count = omega (arith, h.count, length-remove 0 bs params.entries here);
                }))
        ]
    with_role-Ensures params h (absent here) = Ensures-fail _
    with_role-Ensures params h unreadable = Ensures-fail _

    pub take_role-Ensures :
        (params : Params)
        → ParamsFits params
        → Ensures b (λ (role, rest). RestFits rest) (lift (take_role k params))
    unfolding take_role
    take_role-Ensures params h =
        with_role-Ensures params h (get-Taken k 0 params (role_decode-Ensures ⦃b = k.buf⦄))
