-- ===== src/Paging/Owned.antt =====
-- Which frames the pages hold: the pages of all tables against the marks of the frame allocator.
use model_lib.Common.{
  ℕ, ◌≡◌, ◌≢◌, refl, sym, ap, ◌∙◌, ◌⊎◌, inl, inr, Bool, true, false, ◌&&◌, arith, Bool-cases, ◌==◌,
}
use model_lib.PhysMem.{Pmm}
use model_lib.PhysMem.Search.{mark}
use model_lib.PhysMem.Marks.{SameElsewhere}
use model_lib.Paging.{Ptr, Page, Tables, put_in, put_page, blank_page}

-- Every frame of a present page is marked, and no two present pages hold the same frame.
pub record Owned (ts : Tables) (pmm : Pmm) : Type 0 where
  pub marked : (p i : ℕ) → (ts p i).present ≡ true → mark pmm.frame_idx (ts p i).frame ≡ 1
  pub apart :
      (p i q j : ℕ)
      → (ts p i).present ≡ true
      → (ts q j).present ≡ true
      → (ts p i).frame ≡ (ts q j).frame
      → (p ≡ q) × (i ≡ j)

-- A place of the store is the one written to, or another one.
place-cases :
    (ts : Tables) (p i : ℕ) (x : Page) (q j : ℕ)
    → ((q ≡ p) × (j ≡ i) × (put_page ts p i x q j ≡ x))
      ⊎ (((q == p) && (j == i) ≡ false) × (put_page ts p i x q j ≡ ts q j))
place-cases ts p i x q j = elim (Bool-cases ((q == p) && (j == i))) [
  | inl e ↦ inl (ground (arith, e), ground (arith, e), rw e refl)
  | inr e ↦ inr (e, rw e refl)
]

no_both : (b : Bool) → b ≡ true → b ≡ false → ⊥
no_both b x y = ground arith

-- A page that is present in a store with one page written is this one, or was present before.
module _ (ts : Tables) (p i : ℕ) (x : Page) where
  PresentCases : (q j : ℕ) → Type 0
  PresentCases q j =
      ((q ≡ p) × (j ≡ i) × (x.present ≡ true) × ((put_page ts p i x q j).frame ≡ x.frame))
      ⊎ (((ts q j).present ≡ true) × ((put_page ts p i x q j).frame ≡ (ts q j).frame))

  present-cases : (q j : ℕ) → (put_page ts p i x q j).present ≡ true → PresentCases q j
  unfolding PresentCases
  present-cases q j h = elim (place-cases ts p i x q j) [
    | inl c ↦ inl (c.0, c.1, sym (ap (λ y. y.present) c.2) ∙ h, ap (λ y. y.frame) c.2)
    | inr c ↦ inr (sym (ap (λ y. y.present) c.1) ∙ h, ap (λ y. y.frame) c.1)
  ]

-- A new table has no present page.
pub put_in-Owned :
    (ts : Tables) (pmm : Pmm) (table : Ptr)
    → Owned ts pmm
    → Owned (put_in ts table (λ _. blank_page)) pmm
put_in-Owned ts pmm table o = record {
  marked = λ p i h.
      let c = old p i h in ap (mark pmm.frame_idx) (ap (λ y. y.frame) c.1) ∙ o.marked p i c.0;
  apart = λ p i q j h k f.
      let a = old p i h in
      let b = old q j k in
      o.apart p i q j a.0 b.0 (sym (ap (λ y. y.frame) a.1) ∙ f ∙ ap (λ y. y.frame) b.1);
}
  where
    old :
        (p i : ℕ)
        → (put_in ts table (λ _. blank_page) p i).present ≡ true
        → ((ts p i).present ≡ true) × (put_in ts table (λ _. blank_page) p i ≡ ts p i)
    old p i h = elim (Bool-cases (p == table)) [
      | inl e ↦ absurd (no_both false (rw e at h) refl)
      | inr e ↦ (rw e at h, rw e refl)
    ]

-- A frame that was free, marked and given to one page.
pub put_page-Owned :
    (ts : Tables) (pmm pmm' : Pmm) (p i : ℕ) (x : Page)
    → Owned ts pmm
    → mark pmm.frame_idx x.frame ≡ 0
    → mark pmm'.frame_idx x.frame ≡ 1
    → SameElsewhere x.frame pmm pmm'
    → Owned (put_page ts p i x) pmm'
unfolding PresentCases
put_page-Owned ts pmm pmm' p i x o free taken same = record {
  marked = λ q j h. elim (present-cases ts p i x q j h) [
    | inl c ↦ ap (mark pmm'.frame_idx) c.3 ∙ taken
    | inr c ↦ ap (mark pmm'.frame_idx) c.1 ∙ same _ (other q j c.0) ∙ o.marked q j c.0
  ];
  apart = λ q j r k h h' f. elim (present-cases ts p i x q j h) [
    | inl c ↦ elim (present-cases ts p i x r k h') [
      | inl d ↦ (c.0 ∙ sym d.0, c.1 ∙ sym d.1)
      | inr d ↦ absurd (other r k d.0 (sym d.1 ∙ sym f ∙ c.3))
    ]
    | inr c ↦ elim (present-cases ts p i x r k h') [
      | inl d ↦ absurd (other q j c.0 (sym c.1 ∙ f ∙ d.3))
      | inr d ↦ o.apart q j r k c.0 d.0 (sym c.1 ∙ f ∙ d.1)
    ]
  ];
}
  where
    other : (q j : ℕ) → (ts q j).present ≡ true → (ts q j).frame ≢ x.frame
    other q j h e = let m = o.marked q j h in absurd (omega (arith, rw e at m, free))

-- The frame of a present page, freed and the page cleared.
pub clear_page-Owned :
    (ts : Tables) (pmm pmm' : Pmm) (p i : ℕ) (x : Page)
    → Owned ts pmm
    → (ts p i).present ≡ true
    → x.present ≡ false
    → SameElsewhere (ts p i).frame pmm pmm'
    → Owned (put_page ts p i x) pmm'
unfolding PresentCases
clear_page-Owned ts pmm pmm' p i x o here gone same = record {
  marked =
      λ q j h. let c = was q j h in ap (mark pmm'.frame_idx) c.1 ∙ same _ c.2 ∙ o.marked q j c.0;
  apart = λ q j r k h h' f.
      let c = was q j h in let d = was r k h' in o.apart q j r k c.0 d.0 (sym c.1 ∙ f ∙ d.1);
}
  where
    was :
        (q j : ℕ)
        → (put_page ts p i x q j).present ≡ true
        → ((ts q j).present ≡ true)
          × ((put_page ts p i x q j).frame ≡ (ts q j).frame)
          × ((ts q j).frame ≢ (ts p i).frame)
    was q j h = elim (place-cases ts p i x q j) [
      | inl c ↦ absurd (no_both x.present (sym (ap (λ y. y.present) c.2) ∙ h) gone)
      | inr c ↦
          let now = sym (ap (λ y. y.present) c.1) ∙ h in
          (
            now,
            ap (λ y. y.frame) c.1,
            λ e. let s = o.apart q j p i now here e in absurd (ground (arith, s.0, s.1, c.0)),
          )
    ]
