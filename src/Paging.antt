-- ===== src/Paging.antt =====
-- kernel/memory/paging.c: page directories and their tables over the frame allocator. Tables and
-- directories stand in stores by their addresses, 0 being NULL, since directories share tables. What
-- `kmalloc_ap` returns, an address and the physical address of the same memory, is a parameter of
-- each operation that may call it. A failed ASSERT and a panic of the frame allocator are `none`.
pub mod Owned
pub mod Pages
pub mod Unmap
pub mod Share
mod Tests
use Prim.Native.Nat.{bit_or}
use model_lib.Common.{
  ℕ, zero, suc, ◌+◌, ◌*◌, ◌/◌, ◌%◌, ◌^◌, Bool, true, false, not, ◌&&◌, Option, none, some,
  if◌then◌else◌, ◌==◌, add32, u32_mod,
}
use model_lib.PhysMem.{Pmm, frame_size, pmm_alloc_frame, pmm_free_frame}

abbrev pub Ptr : Type 0
Ptr = ℕ

-- `page_t`, less the bits that no function here reads or writes.
pub record Page : Type 0 where
  pub present : Bool
  pub rw_bit : Bool
  pub user : Bool
  pub frame : ℕ

pub record Dir : Type 0 where
  pub tables : ℕ → Ptr
  pub tables_physical : ℕ → ℕ
  pub physical_addr : ℕ

abbrev pub Tables : Type 0
Tables = Ptr → ℕ → Page

pub record Vmm : Type 0 where
  pub tables_at : Tables
  pub dirs : Ptr → Dir
  pub kpage_dir : Ptr
  pub pmm : Pmm

-- `VMM_PAGE_SIZE`
abbrev pub page_size : ℕ
page_size = 0x1000

abbrev pub invalid_frame : ℕ
invalid_frame = 0xfffff

abbrev pub is_page_boundary : ℕ → Bool
is_page_boundary v = v % page_size == 0

abbrev pub page_idx : ℕ → ℕ
page_idx v = v / page_size

abbrev pub table_idx : ℕ → ℕ
table_idx v = page_idx v / 1024

-- A write to one place of a store.
abbrev pub put_in {ℓ} : {A : Type ℓ} → (ℕ → A) → ℕ → A → ℕ → A
put_in f i a j = if j == i then a else f j

-- A write to one page of a table.
abbrev pub put_page : Tables → Ptr → ℕ → Page → Tables
put_page ts p i x q j = if (q == p) && (j == i) then x else ts q j

-- A page that `_create_page_table` leaves.
abbrev pub blank_page : Page
blank_page = record { present = false; rw_bit = false; user = false; frame = invalid_frame }

abbrev pub table_of : Vmm → (dir : Ptr) (vaddr : ℕ) → Ptr
table_of s dir v = (s.dirs dir).tables (table_idx v)

-- `_create_page_table` past its ASSERT, with and without a table there.
abbrev pub new_table : Vmm → (dir : Ptr) (vaddr : ℕ) → (fresh : Ptr × ℕ) → Vmm
new_table s dir v (table, phys) =
    let d = s.dirs dir in
    record s {
      tables_at = put_in s.tables_at table (λ _. blank_page);
      dirs = put_in s.dirs dir (record d {
        tables = put_in d.tables (table_idx v) table;
        tables_physical = put_in d.tables_physical (table_idx v) (bit_or phys 7);
      });
    }

abbrev pub with_table : Vmm → (dir : Ptr) (vaddr : ℕ) → (fresh : Ptr × ℕ) → Vmm
with_table s dir v fresh = if table_of s dir v == 0 then new_table s dir v fresh else s

pub create_page_table : Vmm → (dir : Ptr) (vaddr : ℕ) → (fresh : Ptr × ℕ) → Option Vmm
create_page_table s dir v fresh =
    if is_page_boundary v then some (with_table s dir v fresh) else none

-- The page's place, its table and its index there.
pub get_page : Vmm → (dir : Ptr) (vaddr : ℕ) → Option (Ptr × ℕ)
get_page s dir v =
    if table_of s dir v == 0 then none else some (table_of s dir v, page_idx v % 1024)

-- `vmm_map_page` once the frame is there.
abbrev pub place :
    Vmm → (table : Ptr) (i : ℕ) → (kernel writeable : Bool) → Option (ℕ × Pmm) → Option Vmm
place s table i kernel writeable none = none
place s table i kernel writeable (some (frame, pmm)) = some (record s {
  tables_at =
      put_page s.tables_at table i
        (record { present = true; rw_bit = writeable; user = not kernel; frame = frame % 2 ^ 20 });
  pmm = pmm;
})

-- `vmm_map_page` once the table is there.
abbrev pub map_in : (dir : Ptr) (vaddr : ℕ) → (kernel writeable : Bool) → Option Vmm → Option Vmm
map_in dir v kernel writeable none = none
map_in dir v kernel writeable (some s) =
    let table = table_of s dir v in
    let i = page_idx v % 1024 in
    if (s.tables_at table i).present
    then none
    else place s table i kernel writeable (pmm_alloc_frame s.pmm)

pub map_page :
    Vmm → (dir : Ptr) (vaddr : ℕ) → (kernel writeable : Bool) → (fresh : Ptr × ℕ) → Option Vmm
unfolding create_page_table
map_page s dir v kernel writeable fresh =
    if is_page_boundary v
    then map_in dir v kernel writeable
        (if table_of s dir v == 0 then create_page_table s dir v fresh else some s)
    else none

-- `fresh i` is what `kmalloc_ap` returns if page `i` needs a table.
pub map_pages :
    (count : ℕ)
    → Vmm
    → (dir : Ptr) (vaddr : ℕ) → (kernel writeable : Bool) → (fresh : ℕ → Ptr × ℕ) → Option Vmm
unfolding map_page
map_pages zero s dir v kernel writeable fresh = some s
map_pages (suc count) s dir v kernel writeable fresh =
    elim (map_page s dir v kernel writeable (fresh 0)) [
      | none ↦ none
      | some t ↦ map_pages count t dir (add32 v page_size) kernel writeable (λ i. fresh (suc i))
    ]

abbrev pub unplace : Vmm → (table : Ptr) (i : ℕ) → Option Pmm → Option Vmm
unplace s table i none = none
unplace s table i (some pmm) =
    let page = s.tables_at table i in
    some (record s {
      tables_at =
          put_page s.tables_at table i (record page { present = false; frame = invalid_frame });
      pmm = pmm;
    })

abbrev pub unmap_at : Vmm → Option (Ptr × ℕ) → Option Vmm
unmap_at s none = none
unmap_at s (some (table, i)) =
    let page = s.tables_at table i in
    if page.present then unplace s table i (pmm_free_frame s.pmm page.frame) else none

pub unmap_page : Vmm → (dir : Ptr) (vaddr : ℕ) → Option Vmm
unfolding get_page
unmap_page s dir v = if is_page_boundary v then unmap_at s (get_page s dir v) else none

-- The result for an address that is not mapped.
abbrev pub no_address : ℕ
no_address = 0xffffffff

abbrev pub phys_at : Vmm → (vaddr : ℕ) → Option (Ptr × ℕ) → ℕ
phys_at s v none = no_address
phys_at s v (some (table, i)) =
    let page = s.tables_at table i in
    if page.present then (page.frame * frame_size + v % 0x1000) % u32_mod else no_address

pub get_phys_addr : Vmm → (dir : Ptr) (vaddr : ℕ) → ℕ
unfolding get_page
get_phys_addr s dir v = phys_at s v (get_page s dir v)

-- The new directory of `vmm_clone_dir`, whose memory is `phys` in physical memory; `tablesPhysical`
-- stands behind the 1024 pointers of `tables`.
pub cloned : Vmm → (src : Ptr) (phys : ℕ) → Dir
cloned s src phys =
    let shared = λ (i : ℕ).
      (not ((s.dirs src).tables i == 0)
        && ((s.dirs s.kpage_dir).tables i == (s.dirs src).tables i)) in
    record {
      tables = λ i. if shared i then (s.dirs src).tables i else 0;
      tables_physical = λ i. if shared i then (s.dirs src).tables_physical i else 0;
      physical_addr = add32 phys 4096;
    }

pub clone_dir : Vmm → (src : Ptr) → (fresh : Ptr × ℕ) → Ptr × Vmm
unfolding cloned
clone_dir s src (dir, phys) = (dir, record s { dirs = put_in s.dirs dir (cloned s src phys) })
