-- ===== src/Process.antt =====
-- kernel/process.c: the list of processes, a process's threads and open files, and its break.
-- Lists are values; a descriptor's node on the kernel heap is the element itself.
pub mod Files
pub mod Break
pub mod Io
pub mod Table
pub mod Space
mod Tests
use osdev_graphical.Base.{
  ℕ, zero, suc, ◌+◌, ◌-◌, ◌*◌, ◌%◌, ◌^◌, Bool, true, false, Option, none, some, List, [], ◌∷◌, ◌++◌,
  if◌then◌else◌, ◌==◌, ltb, leb, ◌&&◌, ◌||◌, not,
}
use osdev_graphical.Vfs
use osdev_graphical.Vfs.{File, FileSystem, Vfs, fs_file}
use osdev_graphical.Vmm
use osdev_graphical.Vmm.{Vmm}

-- `FILE_DESC`.
pub record FileDesc : Type 0 where
  pub file : File
  pub fd : ℕ

-- `process`, less the fields that only the loader and the terminal use. A thread is its address.
pub record Process : Type 0 where
  pub id : ℕ
  pub image_base : ℕ
  pub image_size : ℕ
  pub brk : ℕ
  pub file_descs : List FileDesc
  pub thread_list : List ℕ
  pub living_threads : ℕ

-- The walk of `removeProcessFromList` over a list of two or more.
pub remove_from : List Process → ℕ → List Process
remove_from [] id = []
remove_from (p ∷ ps) id = let rest = remove_from ps id in if p.id == id then ps else p ∷ rest

-- `none` is the read of `next` through the null pointer that the list is when it is empty.
pub remove_process_from_list : List Process → ℕ → Option (List Process)
remove_process_from_list [] id = none
remove_process_from_list (p ∷ []) id = some (if p.id == id then [] else p ∷ [])
remove_process_from_list (p ∷ q ∷ ps) id = some (remove_from (p ∷ q ∷ ps) id)

pub get_process_by_id : List Process → ℕ → Option Process
get_process_by_id [] id = none
get_process_by_id (p ∷ ps) id =
    let rest = get_process_by_id ps id in if p.id == id then some p else rest

-- `a >= b` of two 32-bit patterns that are read as `int`.
abbrev pub int_ge : ℕ → ℕ → Bool
int_ge a b = leb ((b + 2 ^ 31) % 2 ^ 32) ((a + 2 ^ 31) % 2 ^ 32)

pub free_id_from : ℕ → List Process → ℕ
free_id_from id [] = id
free_id_from id (p ∷ ps) = free_id_from (if int_ge p.id id then (p.id + 1) % 2 ^ 32 else id) ps

pub get_free_id : List Process → ℕ
get_free_id ps = free_id_from 1 ps

pub insert_process : List Process → Process → List Process
insert_process ps p = ps ++ (p ∷ [])

pub insert_thread_to_proc : Process → ℕ → Process
insert_thread_to_proc p t = record p {
  thread_list = p.thread_list ++ (t ∷ []);
  living_threads = (p.living_threads + 1) % 2 ^ 32;
}

-- The result of `get_file_by_fd` is the file's place in the process: what is found is the file,
-- and `set_file` is a write through the pointer.
pub find_file : List FileDesc → ℕ → Option File
find_file [] fd = none
find_file (d ∷ ds) fd = let rest = find_file ds fd in if d.fd == fd then some d.file else rest

pub set_file : List FileDesc → ℕ → File → List FileDesc
set_file [] fd f = []
set_file (d ∷ ds) fd f =
    let rest = set_file ds fd f in if d.fd == fd then record d { file = f } ∷ ds else d ∷ rest

pub get_file_by_fd : Option Process → ℕ → Option File
get_file_by_fd none fd = none
get_file_by_fd (some proc) fd = find_file proc.file_descs fd

-- The descriptor number that the walk over the list arrives at.
pub next_fd : ℕ → List FileDesc → ℕ
next_fd fd [] = fd
next_fd fd (d ∷ ds) = next_fd (if leb fd d.fd then (d.fd + 1) % 2 ^ 32 else fd) ds

pub append_fd_to_process : Option Process → File → ℕ × Option Process
append_fd_to_process none f = (0, none)
append_fd_to_process (some proc) f =
    let fd = next_fd 1 proc.file_descs in
    (fd, some (record proc { file_descs = proc.file_descs ++ (record { file = f; fd = fd } ∷ []) }))

-- The walk of `close_fd` with `tmp->next` at the first of the list: the file that is closed, and
-- what is left of the list.
pub close_from : List FileDesc → ℕ → Option File × List FileDesc
close_from [] fd = (none, [])
close_from (d ∷ ds) fd =
    let (f, rest) = close_from ds fd in if d.fd == fd then (some d.file, ds) else (f, d ∷ rest)

-- `none` is the read of `next` through the null pointer that the list is when it is empty.
pub close_list : List FileDesc → ℕ → Option (Option File × List FileDesc)
close_list [] fd = none
close_list (d ∷ []) fd = some (if d.fd == fd then (some d.file, []) else (none, d ∷ []))
close_list (d ∷ e ∷ ds) fd = let (f, rest) = close_from (e ∷ ds) fd in some (f, d ∷ rest)

-- The break: `alloc_pages` is the loop, on fuel; `none` when the fuel is out.
pub alloc_pages : ℕ → Vmm → ℕ → ℕ → Option Vmm
alloc_pages zero s page brk = if ltb page brk then none else some s
alloc_pages (suc fuel) s page brk =
    let rest =
      alloc_pages fuel (Vmm.alloc_virt s s.cur_directory page (2 + 4) (2 + 4))
        ((page + 4096) % 2 ^ 32) brk in
    if ltb page brk then rest else some s

abbrev pub sbrk_lim : ℕ
sbrk_lim = 1073741824

abbrev pub page_fuel : ℕ
page_fuel = 2 ^ 20

-- The result, the process and the memory; `none` is a loop that does not end.
pub inc_proc_brk : Option Process → Vmm → ℕ → Option (ℕ × (Option Process × Vmm))
inc_proc_brk none s inc = some (0, (none, s))
inc_proc_brk (some proc) s inc =
    let old = proc.brk in
    let brk' = (old + inc) % 2 ^ 32 in
    let limit = (proc.image_base + proc.image_size + sbrk_lim) % 2 ^ 32 in
    let proc' = record proc { brk = brk' } in
    let grown = alloc_pages page_fuel s (old - old % 4096) brk' in
    if old == 0 || ltb limit brk'
    then some (0, (some proc, s))
    else (if leb 4096 ((old % 4096 + inc) % 2 ^ 32) || (old % 4096 == 0)
        then elim grown [ none ↦ none | some s' ↦ some (old, (some proc', s')) ]
        else some (old, (some proc', s)))

-- A read or a write through the descriptor: the file that the call changes goes back to its place.
pub put_file : Option Process → ℕ → Option File → Option Process
put_file none fd f = none
put_file (some proc) fd none = some proc
put_file (some proc) fd (some f) = some (record proc { file_descs = set_file proc.file_descs fd f })

module _ {W : Type 0} (deref : ℕ → FileSystem W) where
  -- `kfree` of the descriptor is left out. `none` is a null pointer or a read outside the table.
  pub close_fd : Vfs → W → Option Process → ℕ → Option (W × Option Process)
  close_fd v w none fd = some (w, none)
  close_fd v w (some proc) fd = elim (close_list proc.file_descs fd) [
    | none ↦ none
    | some (f, rest) ↦ elim (Vfs.close_file deref v w f) [
      | none ↦ none
      | some (f', w') ↦ some (w', some (record proc { file_descs = rest }))
    ]
  ]

  pub fopen : Vfs → W → File → Option Process → Option (List ℕ) → Option (ℕ × (W × Option Process))
  fopen v w unset none path = some (0, (w, none))
  fopen v w unset (some proc) path = elim (Vfs.open_file deref v w unset path) [
    | none ↦ none
    | some (f, w') ↦
        let (fd, proc') = append_fd_to_process (some proc) f in
        some (if f.flags == fs_file then (fd, (w', proc')) else (0, (w', some proc)))
  ]

  pub fread : Vfs → W → Option Process → ℕ → ℕ → ℕ → Option (ℕ × (W × Option Process))
  fread v w proc fd buffer len = elim (get_file_by_fd proc fd) [
    | none ↦ some (0, (w, proc))
    | some f ↦ elim (Vfs.read_file deref v w (some f) buffer len) [
      | none ↦ none
      | some (none, w') ↦ some (0, (w', proc))
      | some (some f', w') ↦ some (if f'.eof == 0 then 1 else 0, (w', put_file proc fd (some f')))
    ]
  ]

  pub fwrite : Vfs → W → Option Process → ℕ → ℕ → ℕ → Option (W × Option Process)
  fwrite v w proc fd buffer len =
      elim (Vfs.write_file deref v w (get_file_by_fd proc fd) buffer len) [
        | none ↦ none
        | some (f', w') ↦ some (w', put_file proc fd f')
      ]

  pub fclose : Vfs → W → Option Process → ℕ → Option (W × Option Process)
  fclose v w proc fd = close_fd v w proc fd
