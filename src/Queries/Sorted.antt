-- ===== src/Queries/Sorted.antt =====
-- The order of a list of vulnerabilities, said by the columns and not by the comparison.
use argus_sbomguard.Common.{
  ℕ, ◌≤◌, Option, none, some, Bool, false, List, [], ◌∷◌, ◌≡◌, refl, arith, All, Text, text, nat_eq,
  list_eq, ltb,
}
use mathlib.Core.List.{Perm}
use argus_sbomguard.Models.{Vulnerability, Severity}
use argus_sbomguard.Queries.{
  asc_nulls_last, desc_nulls_last, severity_case, by_severity, by_column, by_cvss, then_by,
  vuln_before, apply_vuln_ordering,
}
use argus_sbomguard.Queries.Order.{IsSorted, apply_vuln_ordering-sorts}

-- What a list can be sorted by, and in which direction.
pub data Key : Type 0 where
  cvss_score epss_score published_at severity : Key

pub data Direction : Type 0 where
  ascending descending : Direction

abbrev pub sort_text : Key → Text
sort_text cvss_score = text "cvss_score"
sort_text epss_score = text "epss_score"
sort_text published_at = text "published_at"
sort_text severity = text "severity"

abbrev pub order_text : Direction → Text
order_text ascending = text "asc"
order_text descending = text "desc"

-- A value may be listed before another one; a missing value is always behind.
abbrev pub InOrder : Direction → Option ℕ → Option ℕ → Type 0
InOrder d a none = Unit
InOrder d none (some b) = ⊥
InOrder ascending (some a) (some b) = a ≤ b
InOrder descending (some a) (some b) = b ≤ a

abbrev pub urgency : Option Severity → ℕ
urgency (some Severity.critical) = 4
urgency (some Severity.high) = 3
urgency (some Severity.medium) = 2
urgency (some Severity.low) = 1
urgency (some Severity.unknown) = 0
urgency none = 0

-- By severity, the most urgent is the first in the ascending order.
abbrev pub IsBeforeBy : Key → Direction → Vulnerability → Vulnerability → Type 0
IsBeforeBy cvss_score d v w = InOrder d v.cvss_score w.cvss_score
IsBeforeBy epss_score d v w = InOrder d v.epss_score w.epss_score
IsBeforeBy published_at d v w = InOrder d v.published_at w.published_at
IsBeforeBy severity ascending v w = urgency w.severity ≤ urgency v.severity
IsBeforeBy severity descending v w = urgency v.severity ≤ urgency w.severity

abbrev pub AreTied : Key → Vulnerability → Vulnerability → Type 0
AreTied cvss_score v w = v.cvss_score ≡ w.cvss_score
AreTied epss_score v w = v.epss_score ≡ w.epss_score
AreTied published_at v w = v.published_at ≡ w.published_at
AreTied severity v w = urgency v.severity ≡ urgency w.severity

-- The first may be listed before the second; those that are tied, by descending score.
abbrev pub MayPrecede : Key → Direction → Vulnerability → Vulnerability → Type 0
MayPrecede key d v w =
    IsBeforeBy key d v w × (AreTied key v w → InOrder descending v.cvss_score w.cvss_score)

-- Each of the list and each behind it.
abbrev pub Pairwise : (Vulnerability → Vulnerability → Type 0) → List Vulnerability → Type 0
Pairwise r [] = Unit
Pairwise r (v ∷ vs) = All (r v) vs × Pairwise r vs

All-map :
    (p q : Vulnerability → Type 0) (vs : List Vulnerability)
    → ((v : Vulnerability) → p v → q v)
    → All p vs
    → All q vs
All-map p q [] f h = tt
All-map p q (v ∷ vs) f h = (f v h.0, All-map p q vs f h.1)

Pairwise-IsSorted :
    (before : Vulnerability → Vulnerability → Bool) (r : Vulnerability → Vulnerability → Type 0)
    (vs : List Vulnerability)
    → ((v w : Vulnerability) → before w v ≡ false → r v w)
    → IsSorted before vs
    → Pairwise r vs
Pairwise-IsSorted before r [] f h = tt
Pairwise-IsSorted before r (v ∷ vs) f h =
    (All-map _ (r v) vs (λ w. f v w) h.0, Pairwise-IsSorted before r vs f h.1)

InOrder-asc : (a b : Option ℕ) → asc_nulls_last b a ≡ false → InOrder ascending a b
InOrder-asc a none h = tt
InOrder-asc none (some b) h = cc
InOrder-asc (some a) (some b) h = ground arith

InOrder-desc : (a b : Option ℕ) → desc_nulls_last b a ≡ false → InOrder descending a b
InOrder-desc a none h = tt
InOrder-desc none (some b) h = cc
InOrder-desc (some a) (some b) h = ground arith

asc_nulls_last_refl : (a b : Option ℕ) → a ≡ b → asc_nulls_last a b ≡ false
asc_nulls_last_refl none b e = refl
asc_nulls_last_refl (some a) none e = cc
asc_nulls_last_refl (some a) (some b) e = let same : a ≡ b = cc in ground (arith, same)

desc_nulls_last_refl : (a b : Option ℕ) → a ≡ b → desc_nulls_last a b ≡ false
desc_nulls_last_refl none b e = refl
desc_nulls_last_refl (some a) none e = cc
desc_nulls_last_refl (some a) (some b) e = let same : a ≡ b = cc in ground (arith, same)

module _ (before : Vulnerability → Vulnerability → Bool) (v w : Vulnerability)
    (h : then_by before by_cvss w v ≡ false) where
  first_passes : before w v ≡ false
  first_passes = ground arith

  second_passes : before v w ≡ false → InOrder descending v.cvss_score w.cvss_score
  second_passes tied = InOrder-desc v.cvss_score w.cvss_score (ground (arith, tied))

-- The rank of the `CASE` falls as the urgency rises.
severity_case-urgency :
    (a b : Option Severity)
    → ltb (severity_case b) (severity_case a) ≡ false
    → urgency b ≤ urgency a
severity_case-urgency a b h = ground arith

severity_case-tied :
    (a b : Option Severity) → urgency a ≡ urgency b → severity_case a ≡ severity_case b
severity_case-tied a b h = ground arith

vuln_before-MayPrecede :
    (key : Key) (d : Direction) (v w : Vulnerability)
    → vuln_before (sort_text key) (order_text d) w v ≡ false
    → MayPrecede key d v w
unfolding vuln_before
vuln_before-MayPrecede cvss_score ascending v w h = (
  InOrder-asc v.cvss_score w.cvss_score
      (first_passes (by_column (sort_text cvss_score) (order_text ascending)) v w h),
  λ e.
      second_passes (by_column (sort_text cvss_score) (order_text ascending)) v w h
        (asc_nulls_last_refl v.cvss_score w.cvss_score e),
)
vuln_before-MayPrecede cvss_score descending v w h = (
  InOrder-desc v.cvss_score w.cvss_score
      (first_passes (by_column (sort_text cvss_score) (order_text descending)) v w h),
  λ e.
      second_passes (by_column (sort_text cvss_score) (order_text descending)) v w h
        (desc_nulls_last_refl v.cvss_score w.cvss_score e),
)
vuln_before-MayPrecede epss_score ascending v w h = (
  InOrder-asc v.epss_score w.epss_score
      (first_passes (by_column (sort_text epss_score) (order_text ascending)) v w h),
  λ e.
      second_passes (by_column (sort_text epss_score) (order_text ascending)) v w h
        (asc_nulls_last_refl v.epss_score w.epss_score e),
)
vuln_before-MayPrecede epss_score descending v w h = (
  InOrder-desc v.epss_score w.epss_score
      (first_passes (by_column (sort_text epss_score) (order_text descending)) v w h),
  λ e.
      second_passes (by_column (sort_text epss_score) (order_text descending)) v w h
        (desc_nulls_last_refl v.epss_score w.epss_score e),
)
vuln_before-MayPrecede published_at ascending v w h = (
  InOrder-asc v.published_at w.published_at
      (first_passes (by_column (sort_text published_at) (order_text ascending)) v w h),
  λ e.
      second_passes (by_column (sort_text published_at) (order_text ascending)) v w h
        (asc_nulls_last_refl v.published_at w.published_at e),
)
vuln_before-MayPrecede published_at descending v w h = (
  InOrder-desc v.published_at w.published_at
      (first_passes (by_column (sort_text published_at) (order_text descending)) v w h),
  λ e.
      second_passes (by_column (sort_text published_at) (order_text descending)) v w h
        (desc_nulls_last_refl v.published_at w.published_at e),
)
vuln_before-MayPrecede severity ascending v w h = (
  severity_case-urgency v.severity w.severity (first_passes (by_severity (text "asc")) v w h),
  λ e.
      let same = severity_case-tied v.severity w.severity e in
      second_passes (by_severity (text "asc")) v w h (ground (arith, same)),
)
vuln_before-MayPrecede severity descending v w h = (
  severity_case-urgency w.severity v.severity (first_passes (by_severity (text "desc")) v w h),
  λ e.
      let same = severity_case-tied v.severity w.severity e in
      second_passes (by_severity (text "desc")) v w h (ground (arith, same)),
)

-- Sorted by score, EPSS score, day or severity, ascending or descending, the list has the rows of the
-- query, each as often, and of any two rows the values of that column stand in the direction asked
-- for, with a missing value behind the others (for the severity it is the least urgent); where they
-- are equal, the higher CVSS score comes first and a missing one last.
pub apply_vuln_ordering-IsSorted :
    (query : List Vulnerability) (key : Key) (d : Direction)
    → Perm (apply_vuln_ordering query (sort_text key) (order_text d)) query
      × Pairwise (MayPrecede key d) (apply_vuln_ordering query (sort_text key) (order_text d))
apply_vuln_ordering-IsSorted query key d =
    let (same_rows, in_order) = apply_vuln_ordering-sorts query (sort_text key) (order_text d) in
    (
      same_rows,
      Pairwise-IsSorted (vuln_before (sort_text key) (order_text d)) (MayPrecede key d) _
          (vuln_before-MayPrecede key d) in_order,
    )
