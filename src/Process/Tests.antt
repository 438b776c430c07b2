-- ===== src/Process/Tests.antt =====
-- kernel/process.c on two processes, one of them with two open files.
use osdev_graphical.Base.{
  ℕ, suc, ◌+◌, ◌-◌, ◌%◌, ◌≤◌, ◌<◌, ◌≡◌, ◌⊎◌, inl, refl, arith, ◌||◌, none, some, [], ◌∷◌,
  if◌then◌else◌, ◌==◌, ltb, leb,
}
use osdev_graphical.Vfs.{File, FileSystem, Vfs, slot}
use osdev_graphical.Vmm.{Vmm}
use osdev_graphical.Process.{
  FileDesc, Process, remove_from, remove_process_from_list, get_process_by_id, get_free_id,
  free_id_from, insert_process, find_file, get_file_by_fd, append_fd_to_process, inc_proc_brk,
  sbrk_lim,
}
use osdev_graphical.Process.Table.{updated, table-refines}
use osdev_graphical.Process.Files.{append_fd-find}
use osdev_graphical.Process.Break.{grow, pages_between, inc_proc_brk-returns}
use osdev_graphical.Memory.{load_byte}
use osdev_graphical.Process.Space.{is_shared, clone_kernel_space, clone_kernel_space_lem}

abbrev a_file : ℕ → File
a_file place = record {
  name = [];
  flags = 0;
  file_length = 600;
  id = 7;
  eof = 0;
  position = place;
  abs_position = place;
  current_cluster = 2;
  device_id = 1;
  time_created = 0;
  date_created = 0;
  parent_cluster = 0;
}

abbrev a_desc : ℕ → FileDesc
a_desc n = record { file = a_file n; fd = n }

abbrev a_process : ℕ → Process
a_process n = record {
  id = n;
  image_base = 0x400000;
  image_size = 0x3000;
  brk = 0x403010;
  file_descs = a_desc 1 ∷ a_desc 2 ∷ [];
  thread_list = [];
  living_threads = 0;
}

free_id : 3 ≡ get_free_id (a_process 2 ∷ a_process 1 ∷ [])
unfolding get_free_id free_id_from
free_id = refl

table-refines_example :
    (get_process_by_id (a_process 2 ∷ a_process 1 ∷ []) 3 ≡ none)
    × (get_process_by_id (insert_process (a_process 2 ∷ a_process 1 ∷ []) (a_process 3)) 1
        ≡ updated 3 (some (a_process 3)) (get_process_by_id (a_process 2 ∷ a_process 1 ∷ [])) 1)
    × (remove_process_from_list (a_process 2 ∷ a_process 1 ∷ []) 2
        ≡ some (remove_from (a_process 2 ∷ a_process 1 ∷ []) 2))
    × (get_process_by_id (remove_from (a_process 2 ∷ a_process 1 ∷ []) 2) 1
        ≡ updated 2 none (get_process_by_id (a_process 2 ∷ a_process 1 ∷ [])) 1)
table-refines_example =
    table-refines (a_process 3) (a_process 2) (a_process 1 ∷ []) 2 1 (λ i. ground arith)
      (λ i. ground arith) free_id

append_fd-find_example :
    let out = append_fd_to_process (some (a_process 1)) (a_file 0) in
    (1 ≤ out.0)
    × (get_file_by_fd (some (a_process 1)) out.0 ≡ none)
    × (get_file_by_fd out.1 2
        ≡ (if out.0 == 2 then some (a_file 0) else get_file_by_fd (some (a_process 1)) 2))
append_fd-find_example =
    append_fd-find (a_process 1) (a_file 0) 2 (omega arith, (omega arith, omega arith))

abbrev counting : ℕ → FileSystem ℕ
counting address = record {
  read = λ w f buffer len. (record f { position = f.position + len }, suc w);
  write = λ w f buffer len. (record f { position = f.position + len }, suc w);
  close = λ w f. (f, suc w);
  open_file = λ w path. (a_file 0, suc w);
  open_dir = λ w path. ([], suc w);
  create = λ w f name flags. suc w;
}

abbrev mounted : Vfs
mounted = record { file_systems = 0 ∷ 0x9000 ∷ []; registered = 1 }

device_found : slot mounted 1 ≡ some 0x9000
unfolding slot
device_found = refl

file_found : find_file (a_desc 1 ∷ a_desc 2 ∷ []) 2 ≡ some (a_file 2)
unfolding find_file
file_found = refl

abbrev a_space : Vmm
a_space = record {
  cur_directory = 0x9000;
  pmm = record { memory_size = 0; used_blocks = 0; max_blocks = 0; memory_map = λ a. 0 };
  memory = λ a. 0;
}

inc_proc_brk-returns_example : inc_proc_brk (some (a_process 1)) a_space 8192 ≡ (
    if ltb (0x400000 + 0x3000 + sbrk_lim) (0x403010 + 8192)
    then some (0, (some (a_process 1), a_space))
    else some (
      0x403010,
      (
        some (record (a_process 1) { brk = 0x403010 + 8192 }),
        if leb 4096 (0x403010 % 4096 + 8192) || (0x403010 % 4096 == 0)
            then grow
                (pages_between 0x403010 (0x403010 + 8192))
                a_space
                (0x403010 - 0x403010 % 4096)
            else a_space,
      ),
    ))
inc_proc_brk-returns_example =
    inc_proc_brk-returns (a_process 1) a_space 8192 (omega arith) (omega arith) (omega arith)

clone_kernel_space_lem_example :
    let m' = (clone_kernel_space a_space 0x5000).memory in
    ((a : ℕ)
      → a < 4096
      → load_byte m' (0x5000 + a) ≡ (
          if is_shared a
          then load_byte a_space.memory (0x9000 + a)
          else load_byte a_space.memory (0x5000 + a)))
    × ((a : ℕ) → (a < 0x5000) ⊎ (0x5000 + 4096 ≤ a) → load_byte m' a ≡ load_byte a_space.memory a)
clone_kernel_space_lem_example = clone_kernel_space_lem a_space 0x5000 (inl (omega arith))
