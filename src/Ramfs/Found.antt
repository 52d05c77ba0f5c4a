-- ===== src/Ramfs/Found.antt =====
-- kernel/ramfs/ramfs.c: what is found in a directory after one is added to it.
use model_lib.Common.{
  ℕ, ◌<◌, ◌≡◌, ◌≢◌, refl, sym, ap, ◌∙◌, ◌⊎◌, inl, inr, true, false, some, List, [], ◌∷◌, arith,
  ◌==◌, ltb, Bool-cases,
}
use model_lib.CString.{strlen, streq}
use model_lib.CString.Copy.{text}
use model_lib.CString.Compare.{streq_iff}
use model_lib.Vfs.{Ptr, copied, fs_dir}
use model_lib.Vfs.Path.{text-copied}
use model_lib.Ramfs.{
  Ramfs, RamNode, store, dir_node, find_in, ram_find_child, create_dir_node, find_or_add_dir,
}

-- The address is of no child.
abbrev pub Fresh : Ptr → List Ptr → Type 0
Fresh at [] = Unit
Fresh at (c ∷ cs) = (c ≢ at) × Fresh at cs

find_in-store :
    (nodes : Ptr → RamNode) (at : Ptr) (n : RamNode) (cs : List Ptr) (name : List ℕ)
    → Fresh at cs
    → find_in (store nodes at n) cs name ≡ find_in nodes cs name
unfolding find_in
find_in-store nodes at n [] name h = refl
find_in-store nodes at n (c ∷ cs) name h =
    let other : (c == at) ≡ false = ground (arith, h.0) in
    rw (other, find_in-store nodes at n cs name h.1) refl

streq-copied : (name : List ℕ) → streq name (copied name) ≡ true
streq-copied name = (streq_iff name (copied name)).1 (sym (text-copied name))

streq_other : (other name : List ℕ) → text other ≢ text name → streq other (copied name) ≡ false
streq_other other name ne = elim (Bool-cases (streq other (copied name))) [
  | inl e ↦ absurd (ne ((streq_iff other (copied name)).0 e ∙ text-copied name))
  | inr e ↦ e
]

-- What a search gives with one node more, named by a copy of `name`, at the front.
find_in_same :
    (nodes : Ptr → RamNode) (at : Ptr) (n : RamNode) (cs : List Ptr) (name : List ℕ)
    → n.name ≡ copied name
    → find_in (store nodes at n) (at ∷ cs) name ≡ at
unfolding find_in
find_in_same nodes at n cs name named =
    let self : (at == at) ≡ true = ground arith in rw (self, named, streq-copied name) refl

find_in_other :
    (nodes : Ptr → RamNode) (at : Ptr) (n : RamNode) (cs : List Ptr) (name other : List ℕ)
    → n.name ≡ copied name
    → text other ≢ text name
    → Fresh at cs
    → find_in (store nodes at n) (at ∷ cs) other ≡ find_in nodes cs other
unfolding find_in
find_in_other nodes at n cs name other named ne fresh =
    let self : (at == at) ≡ true = ground arith in
    rw (self, named, streq_other other name ne) (find_in-store nodes at n cs other fresh)

store_same : {A : Type 0} (f : Ptr → A) (p : Ptr) (a : A) → store f p a p ≡ a
store_same f p a = let self : (p == p) ≡ true = ground arith in rw self refl

store_ne : {A : Type 0} (f : Ptr → A) (p q : Ptr) (a : A) → q ≢ p → store f p a q ≡ f q
store_ne f p q a h = let no : (q == p) ≡ false = ground arith in rw no refl

-- The new directory `at` stands under its name among the children of `parent`, and has none itself;
-- the children of every other directory stay.
pub record Added (r : Ramfs) (at parent : Ptr) (name : List ℕ) (r' : Ramfs) : Type 0 where
  pub missing : ram_find_child r parent name ≡ 0
  pub children : r'.children parent ≡ at ∷ r.children parent
  pub empty : r'.children at ≡ []
  pub elsewhere : (q : Ptr) → q ≢ parent → q ≢ at → r'.children q ≡ r.children q
  pub named : text (r'.nodes at).name ≡ text name
  pub flags : (r'.nodes at).flags ≡ fs_dir
  pub others : (q : Ptr) → q ≢ at → r'.nodes q ≡ r.nodes q

-- What `_find_or_add_dir` gives: the child there is, with nothing changed, or a new directory.
abbrev pub FoundOrAdded : Ramfs → (at parent : Ptr) → (name : List ℕ) → (n : Ptr) → Ramfs → Type 0
FoundOrAdded r at parent name n r' =
    ((n ≡ ram_find_child r parent name) × (n ≢ 0) × (r' ≡ r))
    ⊎ ((n ≡ at) × Added r at parent name r')

-- `_find_or_add_dir` with a name shorter than 64 bytes and memory that is neither the directory nor
-- one of its children: if a child of that name is there, it is the result and nothing changes; else
-- the result is a new directory without children, which stands first among the children. Under the
-- name this result is found from then on, and for no other name it changes what is found.
pub find-find_or_add_dir :
    (r : Ramfs) (at parent : Ptr) (name other : List ℕ)
    → at ≢ 0
    → at ≢ parent
    → Fresh at (r.children parent)
    → strlen name < 64
    → text other ≢ text name
    → (n : Ptr) × (r' : Ramfs) × (find_or_add_dir r at parent name ≡ some (n, r'))
      × FoundOrAdded r at parent name n r'
      × (ram_find_child r' parent name ≡ n)
      × (ram_find_child r' parent other ≡ ram_find_child r parent other)
unfolding find_or_add_dir create_dir_node ram_find_child
find-find_or_add_dir r at parent name other here apart fresh short ne =
    elim (Bool-cases (ram_find_child r parent name == 0)) [
      | inl e ↦
          let fits : ltb (strlen name) 64 ≡ true = ground arith in
          let kids = r.children parent in
          let n = dir_node r.next_inode name in
          let nodes = store r.nodes at n in
          let fresh_at = store r.children at [] in
          let below =
            store_same fresh_at parent (at ∷ fresh_at parent)
            ∙ ap (λ l. at ∷ l) (store_ne r.children at parent [] (λ q. apart (sym q))) in
          let made = store_same r.nodes at n in
          let added : Added r at parent name _ = record {
            missing = ground (arith, e);
            children = below;
            empty = store_ne fresh_at parent at _ apart ∙ store_same r.children at [];
            elsewhere = λ q p a. store_ne fresh_at parent q _ p ∙ store_ne r.children at q [] a;
            named = ap (λ x. text x.name) made ∙ text-copied name;
            flags = ap (λ x. x.flags) made;
            others = λ q a. store_ne r.nodes at q n a;
          } in
          rw (e, fits)
            (
              at,
              _,
              refl,
              inr (refl, added),
              ap (λ l. find_in nodes l name) below ∙ find_in_same r.nodes at n kids name refl,
              ap (λ l. find_in nodes l other) below
                  ∙ find_in_other r.nodes at n kids name other refl ne fresh,
            )
      | inr e ↦
          rw e
            (ram_find_child r parent name, r, refl, inl (refl, ground (arith, e), refl), refl, refl)
    ]
