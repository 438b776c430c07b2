-- ===== src/Tmpfs.antt =====
-- drivers/tmpfsys.c: the bytes of a file in its chain of blocks.
-- A chain is the list of a file's blocks, the first one and its children; a block is the bytes below
-- its `data_pointer`. A block that extends a chain is one that the search for a free block finds. The
-- tree of directories is left out.
pub mod Write
pub mod Read
mod Tests
use osdev_graphical.Base.{
  ℕ, zero, suc, ◌+◌, ◌-◌, ◌%◌, ◌^◌, Bool, true, false, List, [], ◌∷◌, ◌++◌, length, if◌then◌else◌,
  ◌==◌, ltb, leb,
}
use osdev_graphical.Vfs.{File, fs_invalid}

-- `BLOCK_SIZE - META_SIZE`: the metadata takes 60 bytes.
abbrev pub block_data : ℕ
block_data = 4096 - 60

abbrev pub Chain : Type 0
Chain = List (List ℕ)

pub size : Chain → ℕ
size [] = 0
size (b ∷ bs) = length b + size bs

-- Every child is freed, and the first block is empty.
pub reset_file : Chain → Chain
reset_file [] = []
reset_file (b ∷ bs) = [] ∷ []

pub extend_file : Chain → Chain
extend_file bs = bs ++ ([] ∷ [])

-- `meta->child_block` of the block before `bs`, and what follows it.
abbrev pub child : Chain → List ℕ
child [] = []
child (b ∷ bs) = b

abbrev pub after_child : Chain → Chain
after_child [] = []
after_child (b ∷ bs) = bs

-- The second loop, in block `meta` with the children `bs`.
pub write_bytes : List ℕ → List ℕ → Chain → Chain
write_bytes [] meta bs = meta ∷ bs
write_bytes (c ∷ buffer) meta bs =
    let meta' = meta ++ (c ∷ []) in
    let extended = extend_file bs in
    let next = write_bytes buffer (child extended) (after_child extended) in
    let on = write_bytes buffer meta' bs in if length meta' == block_data then meta' ∷ next else on

-- The first loop, from block `meta`.
pub write_from : List ℕ → List ℕ → Chain → Chain
write_from buffer meta [] =
    if length meta == block_data
    then meta ∷ write_bytes buffer [] []
    else write_bytes buffer meta []
write_from buffer meta (b ∷ bs) =
    let next = write_from buffer b bs in
    if length meta == block_data then meta ∷ next else write_bytes buffer meta (b ∷ bs)

-- Both loops, and the position. `file->fileLength += Length` adds the 0 that is left of the length.
pub append_bytes : File → Chain → List ℕ → File × Chain
append_bytes file [] buffer = (file, [])
append_bytes file (b ∷ bs) buffer =
    (record file { position = (file.position + length buffer) % 2 ^ 32 }, write_from buffer b bs)

pub tfsys_write : File → Chain → List ℕ → File × Chain
tfsys_write file chain buffer =
    append_bytes file (if file.position == 0 then reset_file chain else chain) buffer

-- What the read loop has: the position, the bytes still to read, and those that were read.
pub record Reading : Type 0 where
  pub position : ℕ
  pub left : ℕ
  pub bytes : List ℕ

-- The loop within a block, with the bytes from index `read` on; `true` when it goes on to the child.
pub read_block : List ℕ → ℕ → ℕ → ℕ → Bool × Reading
read_block [] read position len = (false, record { position = position; left = len; bytes = [] })
read_block (c ∷ cs) read position len =
    let here = leb position read in
    let position' = if here then suc position else position in
    let len' = if here then len - 1 else len in
    let got = if here then c ∷ [] else [] in
    let rest = read_block cs (suc read) position' len' in
    if len == 0
    then (false, record { position = position; left = len; bytes = [] })
    else (if suc read == block_data
        then (true, record { position = position'; left = len'; bytes = got })
        else (rest.0, record (rest.1) { bytes = got ++ rest.1.bytes }))

-- The loop over the blocks, and the test after it.
pub read_chain : Chain → ℕ → ℕ → Bool × Reading
read_chain [] position len = (true, record { position = position; left = len; bytes = [] })
read_chain (b ∷ bs) position len =
    let block = read_block b 0 position len in
    let rest = read_chain bs block.1.position block.1.left in
    if block.0
    then (rest.0, record (rest.1) { bytes = block.1.bytes ++ rest.1.bytes })
    else (length b == 0, block.1)

-- The bytes that are written to the buffer, from its start.
pub tfsys_read : File → Chain → ℕ → File × List ℕ
tfsys_read file chain len =
    let end = (file.position + len) % 2 ^ 32 in
    let file1 = if leb file.file_length end then record file { eof = 1 } else file in
    let r = read_chain chain file.position len in
    let file2 = record file1 { position = r.1.position } in
    if ltb file.file_length end
    then (file1, [])
    else (if r.0 then record file2 { eof = 1 } else file2, r.1.bytes)

pub tfsys_close : File → File
tfsys_close file = record file { flags = fs_invalid }
