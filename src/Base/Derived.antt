-- ===== src/Base/Derived.antt =====
-- The orders of `bool`, of `String` and `Vec` (lexicographic), and those that `derive` makes of the
-- fields of a struct, which are carried over from lists of the fields.
use mathlib.Core.Path.{◌≡◌, refl, ap}
use mathlib.Core.Logic.{◌↔◌}
use mathlib.Core.Bool.{Bool, true, false, not, ◌&&◌, ◌||◌}
use mathlib.Core.List.{List, [], ◌∷◌}
use native.Mathlib.Omega.{arith}
use r_universal_db.Base.Order.{Ord, ◌==◌, ◌≺◌}

abbrev pub bool_same : Bool → Bool → Bool
bool_same true b = b
bool_same false b = not b

abbrev pub bool_before : Bool → Bool → Bool
bool_before a b = not a && b

pub bool_same_iff : (a b : Bool) → (bool_same a b ≡ true) ↔ (a ≡ b)
bool_same_iff a b = ground arith

pub bool_before_irrefl : (a : Bool) → bool_before a a ≡ false
bool_before_irrefl a = ground arith

pub bool_before_trans :
    (a b c : Bool) → bool_before a b ≡ true → bool_before b c ≡ true → bool_before a c ≡ true
bool_before_trans a b c h k = ground arith

pub bool_before_total :
    (a b : Bool) → bool_before a b ≡ false → bool_same a b ≡ false → bool_before b a ≡ true
bool_before_total a b h k = ground arith

instance abbrev pub bool_ord : Ord Bool
bool_ord = record {
  before = bool_before;
  same = bool_same;
  same_iff = bool_same_iff;
  before_irrefl = bool_before_irrefl;
  before_trans = bool_before_trans;
  before_total = bool_before_total;
}

module _ {K : Type 0} ⦃o : Ord K⦄ where
  abbrev pub list_same : List K → List K → Bool
  list_same [] [] = true
  list_same [] (b ∷ ys) = false
  list_same (a ∷ xs) [] = false
  list_same (a ∷ xs) (b ∷ ys) = (a == b) && list_same xs ys

  abbrev pub list_before : List K → List K → Bool
  list_before [] [] = false
  list_before [] (b ∷ ys) = true
  list_before (a ∷ xs) [] = false
  list_before (a ∷ xs) (b ∷ ys) = (a ≺ b) || ((a == b) && list_before xs ys)

  pub list_same_iff : (a b : List K) → (list_same a b ≡ true) ↔ (a ≡ b)
  list_same_iff [] [] = ground arith
  list_same_iff [] (b ∷ ys) = ground arith
  list_same_iff (a ∷ xs) [] = ground arith
  list_same_iff (a ∷ xs) (b ∷ ys) = ground (arith, o.same_iff a b, list_same_iff xs ys)

  pub list_before_irrefl : (a : List K) → list_before a a ≡ false
  list_before_irrefl [] = refl
  list_before_irrefl (a ∷ xs) = ground (arith, o.before_irrefl a, list_before_irrefl xs)

  pub list_before_trans :
      (a b c : List K) → list_before a b ≡ true → list_before b c ≡ true → list_before a c ≡ true
  list_before_trans [] [] c h k = k
  list_before_trans [] (b ∷ ys) [] h k = k
  list_before_trans [] (b ∷ ys) (c ∷ zs) h k = refl
  list_before_trans (a ∷ xs) [] c h k = ground arith
  list_before_trans (a ∷ xs) (b ∷ ys) [] h k = k
  list_before_trans (a ∷ xs) (b ∷ ys) (c ∷ zs) h k = ground (
    arith,
    o.before_trans a b c,
    o.same_iff a b,
    o.same_iff b c,
    o.same_iff a c,
    list_before_trans xs ys zs,
  )

  pub list_before_total :
      (a b : List K) → list_before a b ≡ false → list_same a b ≡ false → list_before b a ≡ true
  list_before_total [] [] h k = ground arith
  list_before_total [] (b ∷ ys) h k = ground arith
  list_before_total (a ∷ xs) [] h k = ground arith
  list_before_total (a ∷ xs) (b ∷ ys) h k =
      ground (arith, o.before_total a b, o.same_iff a b, o.same_iff b a, list_before_total xs ys)

  instance abbrev pub list_ord : Ord (List K)
  list_ord = record {
    before = list_before;
    same = list_same;
    same_iff = list_same_iff;
    before_irrefl = list_before_irrefl;
    before_trans = list_before_trans;
    before_total = list_before_total;
  }

-- The order of `A` by its images under an injection.
abbrev pub pull_ord : {A K : Type 0} (f : A → K) → ((a b : A) → f a ≡ f b → a ≡ b) → Ord K → Ord A
pull_ord f inj o = record {
  before = λ a b. o.before (f a) (f b);
  same = λ a b. o.same (f a) (f b);
  same_iff = λ a b.
      (λ h. inj a b ((o.same_iff (f a) (f b)).0 h), λ h. (o.same_iff (f a) (f b)).1 (ap f h));
  before_irrefl = λ a. o.before_irrefl (f a);
  before_trans = λ a b c. o.before_trans (f a) (f b) (f c);
  before_total = λ a b. o.before_total (f a) (f b);
}
