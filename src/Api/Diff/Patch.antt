-- ===== src/Api/Diff/Patch.antt =====
-- The comparison of two SBOMs is a patch from one to the other.
use argus_sbomguard.Common.{
  ℕ, Option, none, some, false, not, List, [], ◌∷◌, contains, ◌==◌, nat_eq, list_eq, pair_eq, Text,
  ◌≡◌, ◌≢◌, ◌↔◌, ◌⊎◌, inl, inr, refl, sym, ◌∙◌, arith, Memᴰ, Bool-cases, Option-cases, mem-filter,
  mem_of_mem-filter, mem_of_contains, mem-cons_cases, mem-add_self, mem-add, true, ap,
  mem-add-cases, contains_of_mem, mem-append-cases,
}
use argus_sbomguard.Models.{Dependency}
use argus_sbomguard.Api.Diff.{
  Item, text_of, items_of, version_of, VersionChange, minus, names, changes, change_of, diff_sboms,
}

mem-minus :
    (deps others : List Item) (x : Item)
    → Memᴰ x (minus deps others) ↔ (Memᴰ x deps × (contains others x ≡ false))
mem-minus deps others x = (
  λ m. let (md, h) = mem_of_mem-filter (λ y. not (contains others y)) deps m in (md, ground arith),
  λ p. mem-filter (λ y. not (contains others y)) deps p.0 (rw p.1 refl),
)

-- A package of a version is in the second SBOM exactly if it is in the first one and not among the
-- removed ones, or among the added ones.
pub diff_sboms-patch :
    (sbom_id other_id : ℕ) (rows : List Dependency) (x : Item)
    → Memᴰ x (items_of other_id rows) ↔ (
        (Memᴰ x (items_of sbom_id rows)
          × (contains (diff_sboms sbom_id other_id rows).removed x ≡ false))
        ⊎ Memᴰ x (diff_sboms sbom_id other_id rows).added)
unfolding diff_sboms
diff_sboms-patch sbom_id other_id rows x = (to, back)
  where
    to :
        Memᴰ x (items_of other_id rows)
        → (Memᴰ x (items_of sbom_id rows)
            × (contains (minus (items_of sbom_id rows) (items_of other_id rows)) x ≡ false))
          ⊎ Memᴰ x (minus (items_of other_id rows) (items_of sbom_id rows))
    to m = elim (Bool-cases (contains (items_of sbom_id rows) x)) [
      | inr new ↦ inr ((mem-minus (items_of other_id rows) (items_of sbom_id rows) x).1 (m, new))
      | inl old ↦
          elim (Bool-cases (contains (minus (items_of sbom_id rows) (items_of other_id rows)) x)) [
            | inr stays ↦ inl (mem_of_contains (items_of sbom_id rows) x old, stays)
            | inl goes ↦
                let gone =
                  ((mem-minus (items_of sbom_id rows) (items_of other_id rows) x).0
                    (mem_of_contains _ x goes)).1 in
                cc (contains_of_mem (items_of other_id rows) x m, gone)
          ]
    ]

    back :
        (Memᴰ x (items_of sbom_id rows)
            × (contains (minus (items_of sbom_id rows) (items_of other_id rows)) x ≡ false))
          ⊎ Memᴰ x (minus (items_of other_id rows) (items_of sbom_id rows))
        → Memᴰ x (items_of other_id rows)
    back (inr new) = ((mem-minus (items_of other_id rows) (items_of sbom_id rows) x).0 new).0
    back (inl (m, stays)) = elim (Bool-cases (contains (items_of other_id rows) x)) [
      | inl both ↦ mem_of_contains (items_of other_id rows) x both
      | inr only ↦
          let goes =
            contains_of_mem (minus (items_of sbom_id rows) (items_of other_id rows)) x
              ((mem-minus (items_of sbom_id rows) (items_of other_id rows) x).1 (m, only)) in
          cc (goes, stays)
    ]

-- A row of the SBOM is the package in the version.
abbrev pub HasPackage : ℕ → List Dependency → Item → Type 0
HasPackage sbom rows x =
    (d : Dependency) × Memᴰ d rows
    × (d.sbom_id ≡ sbom)
    × (text_of d.name ≡ x.0)
    × (text_of d.version ≡ x.1)

items_of-HasPackage :
    (sbom : ℕ) (rows : List Dependency) (x : Item)
    → Memᴰ x (items_of sbom rows) ↔ HasPackage sbom rows x
unfolding items_of
items_of-HasPackage sbom [] x = (λ m. elim m [ ], λ p. elim p.1 [ ])
items_of-HasPackage sbom (d ∷ rows) x =
    let rest = items_of-HasPackage sbom rows x in
    elim (Bool-cases (d.sbom_id == sbom)) [
      | inr other ↦ rw other (
        λ m. let (c, mc, of, n, w) = rest.0 m in (c, Memᴰ.tail mc, of, n, w),
        λ (c, mc, of, n, w). elim (mem-cons_cases mc) [
          | inl e ↦
              let hit : (d.sbom_id == sbom) ≡ true =
                (nat_eq.beq_iff d.sbom_id sbom).1
                  (sym (ap (λ (y : Dependency). y.sbom_id) e) ∙ of) in
              cc
          | inr more ↦ rest.1 (c, more, of, n, w)
        ],
      )
      | inl same ↦ rw same (
        λ m. elim (mem-add-cases (text_of d.name, text_of d.version) (items_of sbom rows) m) [
          | inl e ↦ (
            d,
            Memᴰ.head refl,
            (nat_eq.beq_iff d.sbom_id sbom).0 same,
            sym (ap (λ (y : Item). y.0) e),
            sym (ap (λ (y : Item). y.1) e),
          )
          | inr old ↦ let (c, mc, of, n, w) = rest.0 old in (c, Memᴰ.tail mc, of, n, w)
        ],
        λ (c, mc, of, n, w). elim (mem-cons_cases mc) [
          | inl e ↦
              let item : x ≡ (text_of d.name, text_of d.version) = λ i. (
                (sym n ∙ ap (λ (y : Dependency). text_of y.name) e) i,
                (sym w ∙ ap (λ (y : Dependency). text_of y.version) e) i,
              ) in
              rw item (mem-add_self (text_of d.name, text_of d.version) (items_of sbom rows))
          | inr more ↦
              mem-add (text_of d.name, text_of d.version) (items_of sbom rows)
                (rest.1 (c, more, of, n, w))
        ],
      )
    ]

not_contains : (l : List Item) (x : Item) → (contains l x ≡ false) ↔ (¬ Memᴰ x l)
not_contains l x = (
  λ h m. cc (contains_of_mem l x m, h),
  λ h. elim (Bool-cases (contains l x)) [ inr f ↦ f | inl t ↦ absurd (h (mem_of_contains l x t)) ],
)

minus-HasPackage :
    (first second : ℕ) (rows : List Dependency) (x : Item)
    → Memᴰ x (minus (items_of first rows) (items_of second rows))
      ↔ (HasPackage first rows x × ¬ HasPackage second rows x)
minus-HasPackage first second rows x =
    let (there, back) = mem-minus (items_of first rows) (items_of second rows) x in
    let (has, had) = items_of-HasPackage first rows x in
    let (has', had') = items_of-HasPackage second rows x in
    let (lacks, lacked) = not_contains (items_of second rows) x in
    (
      λ m. let (k, n) = there m in (has k, λ h. lacks n (had' h)),
      λ (h, n). back (had h, lacked (λ k. n (has' k))),
    )

-- What `diff_sboms` lists as added are the packages, each with its version, of which the second SBOM
-- has a row and the first one none; what it lists as removed are those of which the first has one
-- and the second none.
pub diff_sboms-exact :
    (sbom_id other_id : ℕ) (rows : List Dependency) (x : Item)
    → (Memᴰ x (diff_sboms sbom_id other_id rows).added
        ↔ (HasPackage other_id rows x × ¬ HasPackage sbom_id rows x))
      × (Memᴰ x (diff_sboms sbom_id other_id rows).removed
          ↔ (HasPackage sbom_id rows x × ¬ HasPackage other_id rows x))
unfolding diff_sboms
diff_sboms-exact sbom_id other_id rows x =
    (minus-HasPackage other_id sbom_id rows x, minus-HasPackage sbom_id other_id rows x)

mem-version_of : (name v : Text) (l : List Item) → version_of name l ≡ some v → Memᴰ (name, v) l
mem-version_of name v [] h = cc
mem-version_of name v ((n, w) ∷ l) h = elim (Option-cases (version_of name l)) [
  | inr (u, found) ↦
      let later : some u ≡ some v = (rw found at h) in
      Memᴰ.tail (mem-version_of name v l (found ∙ later))
  | inl absent ↦ elim (Bool-cases (n == name)) [
    | inr other ↦ cc (rw (absent, other) at h)
    | inl same ↦
        let e : some w ≡ some v = (rw (absent, same) at h) in
        let en : n ≡ name = (list_eq.beq_iff n name).0 same in
        let ew : w ≡ v = cc in Memᴰ.head (λ i. (sym en i, sym ew i))
  ]
]

module _ (a b : List Item) where
  -- The change is between different versions, the first of `a` and the second of `b`.
  abbrev pub IsChange : VersionChange → Type 0
  IsChange c =
      Memᴰ (c.name, c.from_version) a
      × Memᴰ (c.name, c.to_version) b
      × (c.from_version ≢ c.to_version)

  change_of-IsChange :
      (n : Text) (o p : Option Text) (c : VersionChange)
      → version_of n a ≡ o
      → version_of n b ≡ p
      → Memᴰ c (change_of n o p)
      → IsChange c
  change_of-IsChange n none p c e f m = elim m [ ]
  change_of-IsChange n (some v) none c e f m = elim m [ ]
  change_of-IsChange n (some v) (some w) c e f m = elim (Bool-cases (v == w)) [
    | inl same ↦ elim (rw same at m) [ ]
    | inr differ ↦ only differ (rw differ at m)
  ]
    where
      only :
          (v == w) ≡ false
          → Memᴰ c (record { name = n; from_version = v; to_version = w } ∷ [])
          → IsChange c
      only differ (Memᴰ.tail m) = elim m [ ]
      only differ (Memᴰ.head h) = rw h (
        mem-version_of n v a e,
        mem-version_of n w b f,
        λ s. cc ((list_eq.beq_iff v w).1 s, differ),
      )

  changes-IsChange : (l : List Text) (c : VersionChange) → Memᴰ c (changes a b l) → IsChange c
  unfolding changes
  changes-IsChange [] c m = elim m [ ]
  changes-IsChange (n ∷ l) c m =
      elim (mem-append-cases (change_of n (version_of n a) (version_of n b)) (changes a b l) m) [
        | inl here ↦ change_of-IsChange n (version_of n a) (version_of n b) c refl refl here
        | inr there ↦ changes-IsChange l c there
      ]

-- Each change that is listed is between two different versions of one package, the first in the
-- first SBOM and the second in the second.
pub diff_sboms-changed :
    (sbom_id other_id : ℕ) (rows : List Dependency) (c : VersionChange)
    → Memᴰ c (diff_sboms sbom_id other_id rows).changed
    → IsChange (items_of sbom_id rows) (items_of other_id rows) c
unfolding diff_sboms
diff_sboms-changed sbom_id other_id rows c m =
    changes-IsChange (items_of sbom_id rows) (items_of other_id rows)
      (names (items_of sbom_id rows)) c m
