-- ===== src/Sqlitex/Query/OneRow.antt =====
-- The value, or why there is none; the statement is reset in every case.
use go_sqlite.Base.{◌≡◌, refl, sym, ap, subst, arith, not, ℕ, Bool, true, false, Option, none, some}
use go_sqlite.Base.Int.{ℤ, pos, is_nat, is_nat-eq}
use go_sqlite.Errors.{Error, Result, ok, err}
use go_sqlite.Run.{Post, returns, fails, Post-bind, continue, no_error, pure, ◌>>◌}
use go_sqlite.Sqlitex.Statements.{Statements}
use go_sqlite.Sqlitex.Query.{
  no_results, multiple_results, after_first, after_second, result_setup, result_teardown, result_of,
  result_int64, result_int, result_bool, result_text, result_float, result_bytes,
}

module _ (T : Statements) (stmt : T.Stmt) where
  open T use {World, step, reset, column_int64, column_text, column_float, column_bytes}

  -- The world behind the first step, and behind the second.
  abbrev pub first : World → World
  first w = (step stmt w).1

  abbrev pub second : World → World
  second w = (step stmt (first w)).1

  -- The statement yields exactly one row, and was reset with no error.
  pub record OneRow {A : Type 0} (column : World → A) (w : World) (a : A) (w' : World)
      : Type 0 where
    pub row : (step stmt w).0 ≡ ok true
    pub no_more : (step stmt (first w)).0 ≡ ok false
    pub reset_went : (reset stmt (second w)).0 ≡ none
    pub read : a ≡ column (first w)
    pub after : w' ≡ (reset stmt (second w)).1

  -- Each error has its reason, and the statement is reset behind it.
  pub data NotOneRow (w : World) : Error → World → Type 0 where
    first_failed : {e : Error} → (step stmt w).0 ≡ err e → NotOneRow w e (reset stmt (first w)).1
    no_row : (step stmt w).0 ≡ ok false → NotOneRow w no_results (reset stmt (first w)).1
    second_failed :
        {e : Error}
        → (step stmt w).0 ≡ ok true
        → (step stmt (first w)).0 ≡ err e
        → NotOneRow w e (reset stmt (second w)).1
    more_rows :
        (step stmt w).0 ≡ ok true
        → (step stmt (first w)).0 ≡ ok true
        → NotOneRow w multiple_results (reset stmt (second w)).1
    reset_failed :
        {e : Error}
        → (step stmt w).0 ≡ ok true
        → (step stmt (first w)).0 ≡ ok false
        → (reset stmt (second w)).0 ≡ some e
        → NotOneRow w e (reset stmt (second w)).1

  module _ {A : Type 0} (column : World → A) (w : World) where
    OneRowPost : Result A × World → Type 0
    OneRowPost = Post (OneRow column w) (NotOneRow w)

    setup_by :
        (r : Result Bool)
        → (step stmt w).0 ≡ r
        → Post
            (λ _ w1. ((step stmt w).0 ≡ ok true) × (w1 ≡ first w))
            (NotOneRow w)
            (after_first T stmt r (first w))
    setup_by (err e) q = fails (first_failed q)
    setup_by (ok false) q = fails (no_row q)
    setup_by (ok true) q = returns (q, refl)

    reset_by :
        (o : Option Error)
        → (step stmt w).0 ≡ ok true
        → (step stmt (first w)).0 ≡ ok false
        → (reset stmt (second w)).0 ≡ o
        → OneRowPost
            (continue (no_error o) (λ _. pure (column (first w))) (reset stmt (second w)).1)
    unfolding OneRowPost
    reset_by none p q r =
        returns (record { row = p; no_more = q; reset_went = r; read = refl; after = refl })
    reset_by (some e) p q r = fails (reset_failed p q r)

    teardown_by :
        (r : Result Bool)
        → (step stmt w).0 ≡ ok true
        → (step stmt (first w)).0 ≡ r
        → OneRowPost ((after_second T stmt r >> pure (column (first w))) (second w))
    unfolding OneRowPost
    teardown_by (err e) p q = fails (second_failed p q)
    teardown_by (ok true) p q = fails (more_rows p q)
    teardown_by (ok false) p q = reset_by (reset stmt (second w)).0 p q refl

    -- What the functions of query.go do around the column that they read.
    result_of-OneRow : Post (OneRow column w) (NotOneRow w) (result_of T column stmt w)
    unfolding result_of result_setup result_teardown OneRowPost
    result_of-OneRow =
        Post-bind {P = λ _ w1. ((step stmt w).0 ≡ ok true) × (w1 ≡ first w)} (result_setup T stmt)
          (λ _ w1. (result_teardown T stmt >> pure (column w1)) w1) w
          (setup_by (step stmt w).0 refl)
          (λ _ t (p, e).
            subst (λ t. OneRowPost ((result_teardown T stmt >> pure (column t)) t)) (sym e)
              (teardown_by (step stmt (first w)).0 p refl))

  -- The first column of the one row, by the method of each type; and whether it is not 0.
  pub record FirstColumn (w : World) : Type 0 where
    pub as_int64 : Post (OneRow (column_int64 stmt 0) w) (NotOneRow w) (result_int64 T stmt w)
    pub as_int : Post (OneRow (column_int64 stmt 0) w) (NotOneRow w) (result_int T stmt w)
    pub as_bool :
        Post
          (λ b w'.
            (z : ℤ) × OneRow (column_int64 stmt 0) w z w'
            × (b ≡ false → z ≡ pos 0)
            × (z ≡ pos 0 → b ≡ false))
          (NotOneRow w)
          (result_bool T stmt w)
    pub as_text : Post (OneRow (column_text stmt 0) w) (NotOneRow w) (result_text T stmt w)
    pub as_float : Post (OneRow (column_float stmt 0) w) (NotOneRow w) (result_float T stmt w)
    pub as_bytes :
        (n : ℕ) → Post (OneRow (column_bytes stmt 0 n) w) (NotOneRow w) (result_bytes T stmt n w)

  false-is_nat : (z : ℤ) → not (is_nat z 0) ≡ false → z ≡ pos 0
  false-is_nat z h = let e : is_nat z 0 ≡ true = ground arith in is_nat-eq z 0 e

  -- Each function of query.go returns the first column of the row, read by the method of its type, if the
  -- statement yields exactly one row and every call succeeds; ResultBool returns false exactly where that
  -- column is 0. Otherwise they return the error that says why. In all cases the statement is reset last.
  pub results-FirstColumn : (w : World) → FirstColumn w
  unfolding result_int64 result_int result_bool result_text result_float result_bytes
  results-FirstColumn w = record {
    as_int64 = result_of-OneRow (column_int64 stmt 0) w;
    as_int = result_of-OneRow (column_int64 stmt 0) w;
    as_bool =
        Post-bind {P = OneRow (column_int64 stmt 0) w} (result_of T (column_int64 stmt 0) stmt)
          (λ z. pure (not (is_nat z 0))) w (result_of-OneRow (column_int64 stmt 0) w)
          (λ z t p. returns (z, p, false-is_nat z, λ e. ap (λ z. not (is_nat z 0)) e));
    as_text = result_of-OneRow (column_text stmt 0) w;
    as_float = result_of-OneRow (column_float stmt 0) w;
    as_bytes = λ n. result_of-OneRow (column_bytes stmt 0 n) w;
  }
