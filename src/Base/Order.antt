-- ===== src/Base/Order.antt =====
-- The bounds `Eq + Ord` of the keys of a map, with the laws that the traits ask for.
use Prim.Native.Nat.{ℕ}
use mathlib.Core.Path.{◌≡◌}
use mathlib.Core.Logic.{◌↔◌}
use mathlib.Core.Bool.{Bool, true, false}
use native.Mathlib.Omega.{arith}
use r_universal_db.Base.Tests.{ltb, eqb, eqb_iff}

pub record Ord {ℓ} (K : Type ℓ) : Type ℓ where
  pub before : K → K → Bool
  pub same : K → K → Bool
  pub same_iff : (a b : K) → (same a b ≡ true) ↔ (a ≡ b)
  pub before_irrefl : (a : K) → before a a ≡ false
  pub before_trans : (a b c : K) → before a b ≡ true → before b c ≡ true → before a c ≡ true
  pub before_total : (a b : K) → before a b ≡ false → same a b ≡ false → before b a ≡ true

infix 50 ◌==◌ ◌≺◌
abbrev pub ◌==◌ {ℓ} : {K : Type ℓ} ⦃o : Ord K⦄ → K → K → Bool
◌==◌ ⦃o⦄ = o.same

abbrev pub ◌≺◌ {ℓ} : {K : Type ℓ} ⦃o : Ord K⦄ → K → K → Bool
◌≺◌ ⦃o⦄ = o.before

pub nat_before_irrefl : (a : ℕ) → ltb a a ≡ false
nat_before_irrefl a = ground arith

pub nat_before_trans : (a b c : ℕ) → ltb a b ≡ true → ltb b c ≡ true → ltb a c ≡ true
nat_before_trans a b c h k = ground arith

pub nat_before_total : (a b : ℕ) → ltb a b ≡ false → eqb a b ≡ false → ltb b a ≡ true
nat_before_total a b h k = ground arith

instance abbrev pub nat_ord : Ord ℕ
nat_ord = record {
  before = ltb;
  same = eqb;
  same_iff = eqb_iff;
  before_irrefl = nat_before_irrefl;
  before_trans = nat_before_trans;
  before_total = nat_before_total;
}
