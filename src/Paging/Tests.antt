-- ===== src/Paging/Tests.antt =====
-- Runs of the paging code, and its theorems at a concrete directory.
use model_lib.Common.{
  ℕ, zero, suc, ◌^◌, ◌<◌, ◌≡◌, refl, true, false, Option, none, some, [], ◌∷◌, arith, get_or,
  if◌then◌else◌, ◌==◌, ◌&&◌,
}
use model_lib.PhysMem.{pmm_alloc_frame, pmm_free_frame}
use model_lib.Paging.{
  Page, Vmm, no_address, blank_page, create_page_table, map_page, map_pages, unmap_page, get_page,
  get_phys_addr, clone_dir,
}
use model_lib.Paging.Pages.{IsSound, Maps, map_page-Maps}
use model_lib.Paging.Unmap.{Unmaps, unmap_page-Unmaps}
use model_lib.Paging.Share.{clone_dir-shares}

-- Frames 0 to 7 are taken; one page at 0x3000 holds frame 5, in the table at 64.
abbrev mapped : Page
mapped = record { present = true; rw_bit = true; user = false; frame = 5 }

abbrev vmm : Vmm
vmm = record {
  tables_at = λ p i. if (p == 64) && (i == 3) then mapped else blank_page;
  dirs = λ d. record {
    tables = λ i. if (d == 8) && (i == 0) then 64 else 0;
    tables_physical = λ _. 0;
    physical_addr = 0;
  };
  kpage_dir = 8;
  pmm = record { frame_count = 64; allocated_count = 8; frame_idx = 0xff ∷ 0 ∷ []; idx_size = 2 };
}

abbrev translates : (v : ℕ) → Option Vmm → ℕ
translates v none = 0
translates v (some t) = get_phys_addr t 8 v

in_table : get_phys_addr vmm 8 0x3010 ≡ 0x5010
unfolding get_phys_addr get_page
in_table = refl

mapped_next : translates 0x400123 (map_page vmm 8 0x400000 true true (65, 0x9000)) ≡ 0x8123
unfolding map_page create_page_table get_phys_addr get_page pmm_alloc_frame
mapped_next = refl

two_pages : translates 0x5001 (map_pages 2 vmm 8 0x4000 true true (λ _. (65, 0x9000))) ≡ 0x9001
unfolding map_pages map_page create_page_table get_phys_addr get_page pmm_alloc_frame
two_pages = refl

twice : map_page vmm 8 0x3000 true true (65, 0x9000) ≡ none
unfolding map_page
twice = refl

unmapped : translates 0x3010 (unmap_page vmm 8 0x3000) ≡ no_address
unfolding unmap_page get_phys_addr get_page pmm_free_frame
unmapped = refl

vmm-fits : (i : ℕ) → get_or vmm.pmm.frame_idx i 0 < 2 ^ 32
vmm-fits zero = omega arith
vmm-fits (suc zero) = omega arith
vmm-fits (suc (suc i)) = omega arith

vmm-IsSound : IsSound vmm
vmm-IsSound = record {
  valid = record { words = refl; fits = vmm-fits; small = omega arith };
  small = omega arith;
  owned = record { marked = λ p i h. ground arith; apart = λ p i q j h k e. ground arith };
}

map_page-Maps_example :
    (t : Vmm) × (g : ℕ) × (map_page vmm 8 0x400000 true true (65, 0x9000) ≡ some t)
    × Maps vmm 8 0x400000 g t
map_page-Maps_example =
    map_page-Maps vmm 8 0x400000 9 true true (65, 0x9000) vmm-IsSound refl (omega arith) refl
      (omega arith) (λ ne. absurd (ne refl))

unmap_page-Unmaps_example : (t : Vmm) × (unmap_page vmm 8 0x3000 ≡ some t) × Unmaps vmm 8 0x3000 5 t
unmap_page-Unmaps_example = unmap_page-Unmaps vmm 8 0x3000 vmm-IsSound refl (omega arith) refl

clone_dir-shares_example :
    (get_phys_addr (clone_dir vmm 8 (16, 0x7000)).1 16 0x3010 ≡ get_phys_addr vmm 8 0x3010)
    × (get_phys_addr (clone_dir vmm 8 (16, 0x7000)).1 8 0x3010 ≡ get_phys_addr vmm 8 0x3010)
clone_dir-shares_example = clone_dir-shares vmm 16 0x7000 0x3010 (omega arith)
