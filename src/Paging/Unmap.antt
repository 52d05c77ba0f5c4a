-- ===== src/Paging/Unmap.antt =====
-- `vmm_unmap_page`, with the allocator below it.
use mathlib.Core.Path.{subst}
use model_lib.Common.{
  ℕ, ◌+◌, ◌/◌, ◌%◌, ◌<◌, ◌≡◌, ◌≢◌, refl, inl, inr, true, false, some, arith, Option-cases, ◌==◌,
  get_or, get_or_out,
}
use model_lib.Common.Bits.{bit-zero}
use model_lib.PhysMem.{Pmm, pmm_free_frame}
use model_lib.PhysMem.Search.{mark}
use model_lib.PhysMem.Marks.{IsValid}
use model_lib.PhysMem.Alloc.{Freed, free_lem}
use model_lib.Paging.{
  Ptr, Page, Vmm, page_size, page_idx, table_of, put_page, get_page, get_phys_addr, no_address,
  unmap_page, invalid_frame,
}
use model_lib.Paging.Owned.{clear_page-Owned}
use model_lib.Paging.Pages.{IsSound, put_page_self}

-- `t` is `s` without the page at `v`, which held frame `f`.
pub record Unmaps (s : Vmm) (dir : Ptr) (v f : ℕ) (t : Vmm) : Type 0 where
  pub sound : IsSound t
  pub free : mark t.pmm.frame_idx f ≡ 0
  pub gone : (off : ℕ) → off < page_size → get_phys_addr t dir (v + off) ≡ no_address

get_phys_addr-absent :
    (s : Vmm) (dir : Ptr) (w table : ℕ) (x : Page)
    → table_of s dir w ≡ table
    → table ≢ 0
    → s.tables_at table (page_idx w % 1024) ≡ x
    → x.present ≡ false
    → get_phys_addr s dir w ≡ no_address
unfolding get_phys_addr get_page
get_phys_addr-absent s dir w table x t ne e off =
    let test : (table == 0) ≡ false = ground arith in rw (t, test, e, off) refl

-- A marked frame stands within the index, and can be freed.
free-some :
    (pmm : Pmm) (f : ℕ)
    → IsValid pmm
    → mark pmm.frame_idx f ≡ 1
    → (u : Pmm) × (pmm_free_frame pmm f ≡ some u) × Freed pmm f (some u)
free-some pmm f v taken = elim (Option-cases (pmm_free_frame pmm f)) [
  | inr r ↦ (r.0, r.1, subst (Freed pmm f) r.1 (free_lem v f))
  | inl e ↦ elim (subst (Freed pmm f) e (free_lem v f)) [
    | inr z ↦ absurd (omega (arith, z, taken))
    | inl out ↦
        let word : get_or pmm.frame_idx (f / 32) 0 ≡ 0 =
          get_or_out pmm.frame_idx (f / 32) 0 (omega (arith, v.words, out)) in
        absurd (omega (arith, rw word at taken, bit-zero (f % 32)))
  ]
]

-- With the allocator sound, every page holding its own frame, and the page at the page boundary `v`
-- present: `vmm_unmap_page` ends, the page's frame is free again, no address of the page translates,
-- and every page left still holds its own frame.
pub unmap_page-Unmaps :
    (s : Vmm) (dir : Ptr) (v : ℕ)
    → IsSound s
    → v % page_size ≡ 0
    → table_of s dir v ≢ 0
    → (s.tables_at (table_of s dir v) (page_idx v % 1024)).present ≡ true
    → (t : Vmm) × (unmap_page s dir v ≡ some t)
      × Unmaps s dir v (s.tables_at (table_of s dir v) (page_idx v % 1024)).frame t
unfolding unmap_page get_page
unmap_page-Unmaps s dir v sound bound ne here =
    let on : (v % page_size == 0) ≡ true = ground arith in
    let there : (table_of s dir v == 0) ≡ false = ground arith in
    let table = table_of s dir v in
    let i = page_idx v % 1024 in
    let page = s.tables_at table i in
    let x : Page = record page { present = false; frame = invalid_frame } in
    let a = free-some s.pmm page.frame sound.valid (sound.owned.marked table i here) in
    let t : Vmm = record s { tables_at = put_page s.tables_at table i x; pmm = a.0 } in
    let small = sound.small in
    let size = a.2.6 in
    (
      t,
      rw (on, there, here, a.1) refl,
      record {
        sound = record {
          valid = a.2.5;
          small = omega arith;
          owned = clear_page-Owned s.tables_at s.pmm a.0 table i x sound.owned here refl a.2.3;
        };
        free = a.2.2;
        gone = λ off h.
            let same : page_idx (v + off) ≡ page_idx v = omega arith in
            let at : t.tables_at table (page_idx (v + off) % 1024) ≡ x =
              rw same (put_page_self s.tables_at table i x) in
            let at_table : table_of t dir (v + off) ≡ table = rw same refl in
            get_phys_addr-absent t dir (v + off) table x at_table ne at refl;
      },
    )
