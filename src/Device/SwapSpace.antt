-- ===== src/Device/SwapSpace.antt =====
-- device/fs/fs.cpp: the swap space, a file of pages with two bitmaps.
-- `SwapSpace` holds the fields of `FS` that these methods use. The file `.swap` of the host is
-- `file`: its pages, or `none` where it cannot be opened. A page is a list of bytes.
pub mod Bitmap
pub mod Pages
use ferry_os.Prelude.{
  ℕ, zero, suc, ◌+◌, ◌-◌, Bool, true, false, not, ◌&&◌, Option, none, some, List, [], ◌∷◌, ltb, leb,
  ◌==◌, if◌then◌else◌, get_or, set, replicate,
}

pub record SwapSpace : Type 0 where
  pub used_page : ℕ
  pub alloc_page : ℕ
  pub space_page : ℕ
  pub bitmap : List Bool
  pub allocmap : List Bool
  pub file : Option (ℕ → List ℕ)

-- The constructor `FS::FS` after `FS::init` has set `mSwapSpacePage`.
unfoldable pub init : ℕ → Option (ℕ → List ℕ) → SwapSpace
init space_page file = record {
  used_page = 0;
  alloc_page = 0;
  space_page = space_page;
  bitmap = replicate space_page false;
  allocmap = replicate space_page false;
  file = file;
}

abbrev pub write_page : (ℕ → List ℕ) → ℕ → List ℕ → ℕ → List ℕ
write_page pages n src i = if i == n then src else pages i

-- `none` for `src` is the null pointer. The result comes with the object.
unfoldable pub dump_page_into_swap : Option (List ℕ) → ℕ → SwapSpace → SwapSpace × Bool
dump_page_into_swap src swap_page s =
    if leb s.alloc_page swap_page then (s, false) else elim s.file [
      | none ↦ (s, false)
      | some pages ↦ elim src [
        | none ↦ (s, false)
        | some bytes ↦ (record s { file = some (write_page pages swap_page bytes) }, true)
      ]
    ]

-- What is read into the page, or `none` where nothing is read.
unfoldable pub load_page_into_memory : ℕ → SwapSpace → Option (List ℕ)
load_page_into_memory swap_page s =
    if leb s.alloc_page swap_page
    then none
    else elim s.file [ none ↦ none | some pages ↦ some (pages swap_page) ]

-- The loop over the allocated pages, from page `i` on with `n` rounds left.
unfoldable pub find_free : ℕ → ℕ → List Bool → List Bool → Option ℕ
find_free zero i bitmap allocmap = none
find_free (suc n) i bitmap allocmap =
    elim (get_or allocmap i false && not (get_or bitmap i false)) [
      | true ↦ some i
      | false ↦ find_free n (i + 1) bitmap allocmap
    ]

-- The page of zeros that `dumpRubbish` writes.
abbrev pub rubbish : ℕ → List ℕ
rubbish page_size = replicate page_size 0

unfoldable pub fresh_page : ℕ → SwapSpace → SwapSpace × ℕ
unfolding dump_page_into_swap
fresh_page page_size s =
    if leb s.space_page s.alloc_page
    then (s, s.space_page)
    else let swap_page = s.alloc_page in
      let t = record s {
        bitmap = set s.bitmap swap_page true;
        allocmap = set s.allocmap swap_page true;
        used_page = s.used_page + 1;
        alloc_page = swap_page + 1;
      } in
      ((dump_page_into_swap (some (rubbish page_size)) swap_page t).0, swap_page)

unfoldable pub reuse_page : ℕ → SwapSpace → SwapSpace × ℕ
reuse_page i s = (record s { used_page = s.used_page + 1; bitmap = set s.bitmap i true }, i)

-- `page_size` is the page size of the configuration.
unfoldable pub alloc_swap_page : ℕ → SwapSpace → SwapSpace × ℕ
unfolding fresh_page reuse_page
alloc_swap_page page_size s =
    if ltb s.used_page s.alloc_page
    then elim (find_free s.alloc_page 0 s.bitmap s.allocmap) [
      | some i ↦ reuse_page i s
      | none ↦ fresh_page page_size s
    ]
    else fresh_page page_size s

unfoldable pub clear_swap_page : ℕ → SwapSpace → SwapSpace
clear_swap_page swap_page s =
    if leb s.space_page swap_page
    then s
    else if get_or s.bitmap swap_page false
    then record s { used_page = s.used_page - 1; bitmap = set s.bitmap swap_page false }
    else s
