-- ===== src/Coding/Rules/Parses.antt =====
-- The two sides of a decoder of a wire form: whole, it is read; cut short, more is asked for.
use linode_moq.Prelude.{ℕ, List, [], ◌++◌, append-nil, subst}
use linode_moq.Coding.Buffer.{Buf}
use linode_moq.Coding.Decoder.{Decoder, pure, ◌>>=◌}
use linode_moq.Coding.Rules.Reads.{Reads, Reads-pure, Reads-bind}
use linode_moq.Coding.Rules.Hungry.{Hungry, Hungry-nil, Hungry-bind}

module _ {R : Type 0} (b : Buf R) where
  pub record Parses {A : Type 0} (d : Decoder R A) (bs : List ℕ) (a : A) : Type 0 where
    pub reads : Reads b d bs a
    pub hungry : Hungry b d bs

module _ {R : Type 0} ⦃b : Buf R⦄ where
  pub Parses-pure : {A : Type 0} (a : A) → Parses b (pure a) [] a
  Parses-pure a = record { reads = Reads-pure a; hungry = Hungry-nil (pure a) }

  module _ {A B : Type 0} where
    pub Parses-bind :
        {d : Decoder R A} (f : A → Decoder R B) {bs cs : List ℕ} {a : A} {x : B}
        → Parses b d bs a
        → Parses b (f a) cs x
        → Parses b (d >>= f) (bs ++ cs) x
    Parses-bind f pd pf = record {
      reads = Reads-bind f pd.reads pf.reads;
      hungry = Hungry-bind f pd.reads pd.hungry pf.hungry;
    }

    -- A last field, behind which nothing more is read.
    pub Parses-last :
        {d : Decoder R A} (f : A → Decoder R B) {bs : List ℕ} {a : A} {x : B}
        → Parses b d bs a
        → Parses b (f a) [] x
        → Parses b (d >>= f) bs x
    Parses-last {d} f {bs} {x = x} pd pf =
        subst (λ cs. Parses b (d >>= f) cs x) (append-nil bs) (Parses-bind f pd pf)
