-- ===== src/Settings/Retention.antt =====
-- config.py: `_sbom_retention_days`. A value comes from the environment as a text, or from the code as
-- a number; `int_of` is `int` on a text, `none` where it raises.
use argus_sbomguard.Common.{
  ℕ, ◌≤◌, Option, none, some, false, [], ◌∷◌, ltb, ◌==◌, nat_eq, list_eq, Text, text, ◌≡◌, arith,
  Bool-cases, inl, inr, Outcome, return, raise, value_error, if◌then◌else◌,
}
use argus_sbomguard.Mcp.Paging.{ℤ, pos, negsuc}

pub data RetentionValue : Type 0 where
  absent : RetentionValue
  number : ℤ → RetentionValue
  written : Text → RetentionValue

-- `value < 1` is an error.
abbrev at_least_one : ℤ → Outcome (Option ℕ)
at_least_one (negsuc n) = raise value_error
at_least_one (pos n) = if ltb n 1 then raise value_error else return (some n)

abbrev parsed : Option ℤ → Outcome (Option ℕ)
parsed none = raise value_error
parsed (some value) = at_least_one value

ltb-false : (n : ℕ) → ltb n 1 ≡ false → 1 ≤ n
ltb-false n h = ground arith

-- A number 0 disables the retention, and any other has to be positive.
abbrev of_number : ℤ → Outcome (Option ℕ)
of_number (negsuc n) = raise value_error
of_number (pos n) = if n == 0 then return none else at_least_one (pos n)

module _ (int_of : Text → Option ℤ) where
  abbrev of_text : Text → Outcome (Option ℕ)
  of_text [] = return none
  of_text (c ∷ s) = if (c ∷ s) == text "0" then return none else parsed (int_of (c ∷ s))

  abbrev of_value : RetentionValue → Outcome (Option ℕ)
  of_value absent = return none
  of_value (number n) = of_number n
  of_value (written s) = of_text s

  -- The first argument is the variable of the environment.
  unfoldable pub sbom_retention_days : Option Text → RetentionValue → Outcome (Option ℕ)
  sbom_retention_days none v = of_value v
  sbom_retention_days (some []) v = return none
  sbom_retention_days (some (c ∷ s)) v = of_value v

  at_least_one_bound : (n : ℤ) (days : ℕ) → at_least_one n ≡ return (some days) → 1 ≤ days
  at_least_one_bound (negsuc n) days e = cc
  at_least_one_bound (pos n) days e = elim (Bool-cases (ltb n 1)) [
    | inl low ↦ cc (rw low at e)
    | inr fits ↦ let same : n ≡ days = cc (rw fits at e) in omega (arith, same, ltb-false n fits)
  ]

  of_value_bound : (v : RetentionValue) (days : ℕ) → of_value v ≡ return (some days) → 1 ≤ days
  of_value_bound absent days e = cc
  of_value_bound (number (negsuc n)) days e = cc
  of_value_bound (number (pos n)) days e = elim (Bool-cases (n == 0)) [
    | inl off ↦ cc (rw off at e)
    | inr on ↦ at_least_one_bound (pos n) days (rw on at e)
  ]
  of_value_bound (written []) days e = cc
  of_value_bound (written (c ∷ s)) days e = elim (Bool-cases ((c ∷ s) == text "0")) [
    | inl off ↦ cc (rw off at e)
    | inr on ↦ of_parsed (int_of (c ∷ s)) (rw on at e)
  ]
    where
      of_parsed : (o : Option ℤ) → parsed o ≡ return (some days) → 1 ≤ days
      of_parsed none h = cc
      of_parsed (some value) h = at_least_one_bound value days h

  -- The days of an accepted retention are at least one, wherever they come from.
  pub sbom_retention_days_bound :
      (raw : Option Text) (v : RetentionValue) (days : ℕ)
      → sbom_retention_days raw v ≡ return (some days)
      → 1 ≤ days
  unfolding sbom_retention_days
  sbom_retention_days_bound none v days e = of_value_bound v days e
  sbom_retention_days_bound (some []) v days e = cc
  sbom_retention_days_bound (some (c ∷ s)) v days e = of_value_bound v days e
