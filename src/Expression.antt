-- ===== src/Expression.antt =====
-- src/expression.rs: expressions and their evaluation. src/sql_ast.rs: `ValExpr`, over the type `Q`
-- of the queries in its subqueries. What divides by zero is an error, what Rust's division refuses
-- besides is a panic.
pub mod Build
pub mod KeyBounds
use r_universal_db.Base.{
  ℕ, suc, ◌+◌, Bool, true, false, not, ◌&&◌, ◌||◌, Option, none, some, List, [], ◌∷◌, ◌++◌, eqb,
  ltb, leb, if◌then◌else◌, Ord, ◌==◌, nat_ord, bool_ord, list_ord, pull_ord, ◌≡◌, refl, arith,
}
use r_universal_db.BTreeMap.{BTreeMap, get}
use r_universal_db.Value.{Str, ColVal, int, bool, string, ColValN, same_valn, lookup, ColType}
use r_universal_db.Value.Int32.{
  origin, i32_add, i32_sub, i32_neg, i32_mul, i32_div, i32_rem, parse_i32,
}

pub data EvalError : Type 0 where
  invalid_unary_op invalid_binary_op generic_error invalid_subquery_result : EvalError
  number_parse_error invalid_bool_expr type_error invalid_simple_expr : EvalError

-- A value, an error, or a panic.
pub data EvalResult (A : Type 0) : Type 0 where
  ok : A → EvalResult A
  err : EvalError → EvalResult A
  panic : EvalResult A

-- `?`
infixl 5 ◌>>=◌
abbrev pub ◌>>=◌ : {A B : Type 0} → EvalResult A → (A → EvalResult B) → EvalResult B
ok a >>= f = f a
err e >>= f = err e
panic >>= f = panic

-- A chain that returns has returned at each step.
pub >>=-ok :
    {A B : Type 0} (m : EvalResult A) (f : A → EvalResult B) (b : B)
    → (m >>= f) ≡ ok b
    → (a : A) × (m ≡ ok a) × (f a ≡ ok b)
>>=-ok (ok a) f b h = (a, refl, h)
>>=-ok (err e) f b h = absurd (cc)
>>=-ok panic f b h = absurd (cc)

pub data UnaryOp : Type 0 where
  plus_sign minus_sign not_op is_null is_not_null : UnaryOp

pub data BinaryOp : Type 0 where
  plus minus multiply divide modulus string_concat : BinaryOp
  gt lt gt_eq lt_eq spaceship eq not_eq and_op or_op : BinaryOp

-- `iast::Value`
pub data Literal : Type 0 where
  number quoted_string : Str → Literal
  boolean : Bool → Literal
  null : Literal

pub record ColumnRef : Type 0 where
  pub table_name : Str
  pub col_name : Str

-- The order that is derived for `ColumnRef`: by the fields.
abbrev pub ref_fields : ColumnRef → List Str
ref_fields col = col.table_name ∷ col.col_name ∷ []

pub ref_fields_injective : (a b : ColumnRef) → ref_fields a ≡ ref_fields b → a ≡ b
ref_fields_injective a b h = ground arith

instance abbrev pub column_ref_ord : Ord ColumnRef
column_ref_ord = pull_ord ref_fields ref_fields_injective (list_ord {K = Str})

pub data ValExpr (Q : Type 0) : Type 0 where
  column_ref : ColumnRef → ValExpr Q
  unary_expr : UnaryOp → ValExpr Q → ValExpr Q
  binary_expr : BinaryOp → ValExpr Q → ValExpr Q → ValExpr Q
  literal : Literal → ValExpr Q
  subquery : Q → ValExpr Q

pub data CExpr : Type 0 where
  c_unary : UnaryOp → CExpr → CExpr
  c_binary : BinaryOp → CExpr → CExpr → CExpr
  c_value : ColValN → CExpr

pub data KbExpr : Type 0 where
  key_column_ref : Str → KbExpr
  kb_unary : UnaryOp → KbExpr → KbExpr
  kb_binary : BinaryOp → KbExpr → KbExpr → KbExpr
  kb_value : ColValN → KbExpr
  unknown_value : KbExpr

unfoldable pub evaluate_unary_op : UnaryOp → ColValN → EvalResult ColValN
evaluate_unary_op plus_sign (some (int val)) = ok (some (int val))
evaluate_unary_op plus_sign none = ok none
evaluate_unary_op minus_sign (some (int val)) = ok (some (int (i32_neg val)))
evaluate_unary_op minus_sign none = ok none
evaluate_unary_op not_op (some (bool val)) = ok (some (bool (not val)))
evaluate_unary_op not_op none = ok none
evaluate_unary_op is_null (some val) = ok (some (bool false))
evaluate_unary_op is_null none = ok (some (bool true))
evaluate_unary_op is_not_null (some val) = ok (some (bool true))
evaluate_unary_op is_not_null none = ok (some (bool false))
evaluate_unary_op _ _ = err invalid_unary_op

-- The arms of an operator on numbers: `NULL` on a side makes the result `NULL`.
abbrev pub on_ints : (ℕ → ℕ → EvalResult ColValN) → ColValN → ColValN → EvalResult ColValN
on_ints f (some (int l)) (some (int r)) = f l r
on_ints f (some (int l)) none = ok none
on_ints f none (some (int r)) = ok none
on_ints f none none = ok none
on_ints f _ _ = err invalid_binary_op

abbrev pub on_strings : (Str → Str → ColVal) → ColValN → ColValN → EvalResult ColValN
on_strings f (some (string l)) (some (string r)) = ok (some (f l r))
on_strings f (some (string l)) none = ok none
on_strings f none (some (string r)) = ok none
on_strings f none none = ok none
on_strings f _ _ = err invalid_binary_op

-- `Eq` and `NotEq`, where `f` makes the answer of the test for equality.
abbrev pub on_same_type : (Bool → Bool) → ColValN → ColValN → EvalResult ColValN
on_same_type f (some (int l)) (some (int r)) = ok (some (bool (f (l == r))))
on_same_type f (some (bool l)) (some (bool r)) = ok (some (bool (f (l == r))))
on_same_type f (some (string l)) (some (string r)) = ok (some (bool (f (l == r))))
on_same_type f (some l) none = ok none
on_same_type f none (some r) = ok none
on_same_type f none none = ok none
on_same_type f _ _ = err invalid_binary_op

abbrev pub and_values : ColValN → ColValN → EvalResult ColValN
and_values (some (bool l)) (some (bool r)) = ok (some (bool (l && r)))
and_values (some (bool l)) none = ok none
and_values none (some (bool r)) = ok none
and_values none none = ok none
and_values _ _ = err invalid_binary_op

abbrev pub or_null : Bool → EvalResult ColValN
or_null val = if not val then ok none else ok (some (bool true))

abbrev pub or_values : ColValN → ColValN → EvalResult ColValN
or_values (some (bool l)) (some (bool r)) = ok (some (bool (l || r)))
or_values (some (bool val)) none = or_null val
or_values none (some (bool val)) = or_null val
or_values none none = ok none
or_values _ _ = err invalid_binary_op

-- A division of numbers: by zero an error, and a panic where Rust's operator panics.
abbrev pub checked : (ℕ → ℕ → Option ℕ) → ℕ → ℕ → EvalResult ColValN
checked f l r =
    if not (eqb r origin)
    then (elim (f l r) [ none ↦ panic | some q ↦ ok (some (int q)) ])
    else err invalid_binary_op

unfoldable pub evaluate_binary_op : BinaryOp → ColValN → ColValN → EvalResult ColValN
evaluate_binary_op plus left right = on_ints (λ l r. ok (some (int (i32_add l r)))) left right
evaluate_binary_op minus left right = on_ints (λ l r. ok (some (int (i32_sub l r)))) left right
evaluate_binary_op multiply left right = on_ints (λ l r. ok (some (int (i32_mul l r)))) left right
evaluate_binary_op divide left right = on_ints (checked i32_div) left right
evaluate_binary_op modulus left right = on_ints (checked i32_rem) left right
evaluate_binary_op string_concat left right = on_strings (λ l r. string (l ++ r)) left right
evaluate_binary_op gt left right = on_ints (λ l r. ok (some (bool (ltb r l)))) left right
evaluate_binary_op lt left right = on_ints (λ l r. ok (some (bool (ltb l r)))) left right
evaluate_binary_op gt_eq left right = on_ints (λ l r. ok (some (bool (leb r l)))) left right
evaluate_binary_op lt_eq left right = on_ints (λ l r. ok (some (bool (leb l r)))) left right
evaluate_binary_op spaceship left right = ok (some (bool (same_valn left right)))
evaluate_binary_op eq left right = on_same_type (λ b. b) left right
evaluate_binary_op not_eq left right = on_same_type not left right
evaluate_binary_op and_op left right = and_values left right
evaluate_binary_op or_op left right = or_values left right

unfoldable pub evaluate_c_expr : CExpr → EvalResult ColValN
evaluate_c_expr (c_unary op expr) = evaluate_c_expr expr >>= λ v. evaluate_unary_op op v
evaluate_c_expr (c_binary op left right) =
    evaluate_c_expr left >>= λ l. evaluate_c_expr right >>= λ r. evaluate_binary_op op l r
evaluate_c_expr (c_value val) = ok val

-- The tuple of the sides is evaluated before it is matched.
abbrev pub both : Option ColValN → Option ColValN → Option (ColValN × ColValN)
both (some l) (some r) = some (l, r)
both _ _ = none

abbrev pub lift : EvalResult ColValN → EvalResult (Option ColValN)
lift m = m >>= λ v. ok (some v)

abbrev pub unary_kb : UnaryOp → Option ColValN → EvalResult (Option ColValN)
unary_kb op none = ok none
unary_kb op (some val) = lift (evaluate_unary_op op val)

abbrev pub binary_kb : BinaryOp → Option (ColValN × ColValN) → EvalResult (Option ColValN)
binary_kb op none = ok none
binary_kb op (some (left_val, right_val)) = lift (evaluate_binary_op op left_val right_val)

unfoldable pub evaluate_kb_expr : KbExpr → EvalResult (Option ColValN)
evaluate_kb_expr (key_column_ref col_name) = ok none
evaluate_kb_expr (kb_unary op expr) = evaluate_kb_expr expr >>= λ v. unary_kb op v
evaluate_kb_expr (kb_binary op left right) =
    evaluate_kb_expr left >>= λ l. evaluate_kb_expr right >>= λ r. binary_kb op (both l r)
evaluate_kb_expr (kb_value val) = ok (some val)
evaluate_kb_expr unknown_value = ok none

unfoldable pub is_true : ColValN → EvalResult Bool
is_true (some (bool bool_val)) = ok bool_val
is_true none = ok false
is_true _ = err type_error
