-- ===== src/Paging/Pages.antt =====
-- `vmm_map_page`, `vmm_unmap_page` and `vmm_get_phys_addr`, with the allocator below them.
use mathlib.Core.Path.{subst}
use model_lib.Common.{
  ℕ, ◌+◌, ◌*◌, ◌%◌, ◌^◌, ◌≤◌, ◌<◌, ◌≡◌, ◌≢◌, refl, sym, ◌∙◌, inl, inr, Bool, true, false, not, none,
  some, arith, Bool-cases, Option-cases, ◌==◌, u32_mod,
}
use model_lib.PhysMem.{Pmm, pmm_alloc_frame}
use model_lib.PhysMem.Search.{mark}
use model_lib.PhysMem.Marks.{IsValid}
use model_lib.PhysMem.Alloc.{Allocated, alloc_lem}
use model_lib.Paging.{
  Ptr, Page, Tables, Vmm, page_size, page_idx, table_of, put_page, new_table, create_page_table,
  map_in, map_page, get_page, get_phys_addr,
}
use model_lib.Paging.Owned.{Owned, put_in-Owned, put_page-Owned}

-- The allocator is valid and all its frames fit the 20 bits of a page; every page holds its own
-- frame.
pub record IsSound (s : Vmm) : Type 0 where
  pub valid : IsValid s.pmm
  pub small : s.pmm.idx_size * 32 ≤ 2 ^ 20
  pub owned : Owned s.tables_at s.pmm

-- `v` translates to frame `f`, at every offset into the page.
abbrev pub Reaches : Vmm → (dir : Ptr) (v f : ℕ) → Type 0
Reaches s dir v f =
    (off : ℕ) → off < page_size → get_phys_addr s dir (v + off) ≡ f * page_size + off

-- `t` is `s` with the free frame `f` at `v`.
pub record Maps (s : Vmm) (dir : Ptr) (v f : ℕ) (t : Vmm) : Type 0 where
  pub sound : IsSound t
  pub free : mark s.pmm.frame_idx f ≡ 0
  pub taken : mark t.pmm.frame_idx f ≡ 1
  pub reaches : Reaches t dir v f

get_phys_addr-present :
    (s : Vmm) (dir : Ptr) (w table : ℕ) (x : Page)
    → table_of s dir w ≡ table
    → table ≢ 0
    → s.tables_at table (page_idx w % 1024) ≡ x
    → x.present ≡ true
    → get_phys_addr s dir w ≡ (x.frame * page_size + w % page_size) % u32_mod
unfolding get_phys_addr get_page
get_phys_addr-present s dir w table x t ne e on =
    let test : (table == 0) ≡ false = ground arith in rw (t, test, e, on) refl

-- One written page is what stands at its place.
pub put_page_self : (ts : Tables) (p i : ℕ) (x : Page) → put_page ts p i x p i ≡ x
put_page_self ts p i x = ground arith

alloc-some :
    (pmm : Pmm) (f : ℕ)
    → IsValid pmm
    → f < pmm.idx_size * 32
    → mark pmm.frame_idx f ≡ 0
    → (g : ℕ) × (u : Pmm) × (pmm_alloc_frame pmm ≡ some (g, u)) × Allocated pmm (some (g, u))
alloc-some pmm f v small free = elim (Option-cases (pmm_alloc_frame pmm)) [
  | inl e ↦
      let all = subst (Allocated pmm) e (alloc_lem v) in
      absurd (omega (arith, all f (omega arith) small, free))
  | inr r ↦ (r.0.0, r.0.1, r.1, subst (Allocated pmm) r.1 (alloc_lem v))
]

module _ (s : Vmm) (dir : Ptr) (v f : ℕ) (kernel writeable : Bool) (sound : IsSound s)
    (bound : v % page_size ≡ 0) (inside : f < s.pmm.idx_size * 32)
    (free : mark s.pmm.frame_idx f ≡ 0) where
  map_in-Maps :
      table_of s dir v ≢ 0
      → (s.tables_at (table_of s dir v) (page_idx v % 1024)).present ≡ false
      → (t : Vmm) × (g : ℕ) × (map_in dir v kernel writeable (some s) ≡ some t) × Maps s dir v g t
  map_in-Maps ne absent =
      let a = alloc-some s.pmm f sound.valid inside free in
      let g = a.0 in
      let small = sound.small in
      let below : g < s.pmm.idx_size * 32 = a.3.0 in
      let width : g % 2 ^ 20 ≡ g = omega arith in
      let size = a.3.7 in
      let x : Page = record { present = true; rw_bit = writeable; user = not kernel; frame = g } in
      let table = table_of s dir v in
      let i = page_idx v % 1024 in
      let t : Vmm = record s { tables_at = put_page s.tables_at table i x; pmm = a.1 } in
      (
        t,
        g,
        rw (absent, a.2, width) refl,
        record {
          sound = record {
            valid = a.3.6;
            small = omega arith;
            owned = put_page-Owned s.tables_at s.pmm a.1 table i x sound.owned a.3.1 a.3.3 a.3.4;
          };
          free = a.3.1;
          taken = a.3.3;
          reaches = λ off h.
              let same : page_idx (v + off) ≡ page_idx v = omega arith in
              let rest : (v + off) % page_size ≡ off = omega arith in
              let at : t.tables_at table (page_idx (v + off) % 1024) ≡ x =
                rw same (put_page_self s.tables_at table i x) in
              let here : table_of t dir (v + off) ≡ table = rw same refl in
              get_phys_addr-present t dir (v + off) table x here ne at refl ∙ rw rest (omega arith);
        },
      )

-- With the allocator sound, every page holding its own frame, a frame free, and the page at the page
-- boundary `v` either without a table or not present: `vmm_map_page` ends, and takes a frame that
-- was free. All offsets of the page translate into this frame, and every page still holds its own.
pub map_page-Maps :
    (s : Vmm) (dir : Ptr) (v f : ℕ) (kernel writeable : Bool) (fresh : Ptr × ℕ)
    → IsSound s
    → v % page_size ≡ 0
    → f < s.pmm.idx_size * 32
    → mark s.pmm.frame_idx f ≡ 0
    → fresh.0 ≢ 0
    → (table_of s dir v ≢ 0 → (s.tables_at (table_of s dir v) (page_idx v % 1024)).present ≡ false)
    → (t : Vmm) × (g : ℕ) × (map_page s dir v kernel writeable fresh ≡ some t) × Maps s dir v g t
unfolding map_page create_page_table
map_page-Maps s dir v f kernel writeable fresh sound bound inside free ne absent =
    let on : (v % page_size == 0) ≡ true = ground arith in
    elim (Bool-cases (table_of s dir v == 0)) [
      | inr e ↦
          let there : table_of s dir v ≢ 0 = ground (arith, e) in
          let m =
            map_in-Maps s dir v f kernel writeable sound bound inside free there (absent there) in
          (m.0, m.1, rw (on, e) m.2, m.3)
      | inl e ↦
          let s' = new_table s dir v fresh in
          let sound' : IsSound s' = record {
            valid = sound.valid;
            small = sound.small;
            owned = put_in-Owned s.tables_at s.pmm fresh.0 sound.owned;
          } in
          let table : table_of s' dir v ≡ fresh.0 = ground arith in
          let blank : (s'.tables_at (table_of s' dir v) (page_idx v % 1024)).present ≡ false =
            ground arith in
          let m =
            map_in-Maps s' dir v f kernel writeable sound' bound inside free
              (λ z. ne (sym table ∙ z)) blank in
          (
            m.0,
            m.1,
            rw (on, e) m.2,
            record { sound = m.3.sound; free = m.3.free; taken = m.3.taken; reaches = m.3.reaches },
          )
    ]

-- Pages are mapped at page boundaries only.
pub map_page_unaligned :
    (s : Vmm) (dir : Ptr) (v : ℕ) (kernel writeable : Bool) (fresh : Ptr × ℕ)
    → v % page_size ≢ 0
    → map_page s dir v kernel writeable fresh ≡ none
unfolding map_page
map_page_unaligned s dir v kernel writeable fresh ne =
    let test : (v % page_size == 0) ≡ false = ground arith in rw test refl
