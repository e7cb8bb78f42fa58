-- ===== src/Coding/Params/Format.antt =====
-- The wire form of parameters, independently of the code, and the maps that have one.
use linode_moq.Prelude.{ℕ, List, [], ◌∷◌, ◌++◌, length, All}
use linode_moq.Coding.Varint.Format.{IsVarint, varint_wire}
use linode_moq.Coding.Prefixed.{IsSized, prefixed_wire}
use linode_moq.Coding.Params.{Params}
use linode_moq.Coding.Params.Map.{Entries, Distinct}

pub record EntryFits (e : ℕ × List ℕ) : Type 0 where
  pub kind : IsVarint e.0
  pub value : IsSized e.1

pub record ParamsFits (p : Params) : Type 0 where
  pub entries : All EntryFits p.entries
  pub distinct : Distinct p.entries
  pub count : IsVarint (length p.entries)

unfoldable pub entries_wire : Entries → List ℕ
entries_wire [] = []
entries_wire ((kind, value) ∷ rest) = varint_wire kind ++ (prefixed_wire value ++ entries_wire rest)

unfoldable pub params_wire : Params → List ℕ
params_wire p = varint_wire (length p.entries) ++ (entries_wire p.entries ++ [])
