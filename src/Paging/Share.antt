-- ===== src/Paging/Share.antt =====
-- `vmm_clone_dir`: directories that share the kernel's tables.
use model_lib.Common.{
  ℕ, ◌%◌, ◌≡◌, ◌≢◌, refl, ap, ◌∙◌, Option, none, some, arith, if◌then◌else◌, ◌==◌,
}
use model_lib.Paging.{
  Ptr, Dir, Vmm, page_idx, table_idx, table_of, put_in, phys_at, get_page, get_phys_addr, cloned,
  clone_dir,
}

-- The same translation wherever the table pointers and the pages agree.
get_phys_addr_congr :
    (s t : Vmm) (a b : Ptr) (w : ℕ)
    → t.tables_at ≡ s.tables_at
    → table_of t b w ≡ table_of s a w
    → get_phys_addr t b w ≡ get_phys_addr s a w
unfolding get_phys_addr get_page
get_phys_addr_congr s t a b w ts e =
    let by : Ptr → Option (Ptr × ℕ) = λ p. if p == 0 then none else some (p, page_idx w % 1024) in
    ap (λ p. phys_at t w (by p)) e ∙ pages (by (table_of s a w))
  where
    pages : (o : Option (Ptr × ℕ)) → phys_at t w o ≡ phys_at s w o
    pages none = refl
    pages (some (p, i)) = rw ts refl

cloned-tables :
    (s : Vmm) (phys i : ℕ) → (cloned s s.kpage_dir phys).tables i ≡ (s.dirs s.kpage_dir).tables i
unfolding cloned
cloned-tables s phys i = ground arith

-- A clone of the kernel's directory at an address other than this one's: every address translates in
-- the clone as it does for the kernel, and the kernel's translations stay.
pub clone_dir-shares :
    (s : Vmm) (dir : Ptr) (phys w : ℕ)
    → dir ≢ s.kpage_dir
    → (get_phys_addr (clone_dir s s.kpage_dir (dir, phys)).1 dir w ≡ get_phys_addr s s.kpage_dir w)
      × (get_phys_addr (clone_dir s s.kpage_dir (dir, phys)).1 s.kpage_dir w
          ≡ get_phys_addr s s.kpage_dir w)
unfolding clone_dir
clone_dir-shares s dir phys w ne =
    let t : Vmm = record s { dirs = put_in s.dirs dir (cloned s s.kpage_dir phys) } in
    let at : t.dirs dir ≡ cloned s s.kpage_dir phys = ground arith in
    let kept : t.dirs s.kpage_dir ≡ s.dirs s.kpage_dir = ground arith in
    (
      get_phys_addr_congr s t s.kpage_dir dir w refl
          (ap (λ (d : Dir). d.tables (table_idx w)) at ∙ cloned-tables s phys (table_idx w)),
      get_phys_addr_congr s t s.kpage_dir s.kpage_dir w refl
          (ap (λ (d : Dir). d.tables (table_idx w)) kept),
    )
