-- ===== src/Tmpfs/Write.antt =====
-- What a write leaves in the chain.
use mathlib.Core.List.{append_assoc, append-nil}
use osdev_graphical.Base.{
  ℕ, ◌+◌, ◌%◌, ◌^◌, ◌<◌, ◌≡◌, refl, arith, ◌∙◌, sym, ap, Bool-cases, inl, inr, true, false, List,
  [], ◌∷◌, ◌++◌, length, length-append, if◌then◌else◌, ◌==◌, ==_iff,
}
use osdev_graphical.Vfs.{File}
use osdev_graphical.Tmpfs.{
  Chain, block_data, reset_file, extend_file, write_bytes, write_from, append_bytes, tfsys_write,
}

-- The bytes of a file.
abbrev pub contents : Chain → List ℕ
contents [] = []
contents (b ∷ bs) = b ++ contents bs

-- There is a block, all blocks but the last are full, and the last is not.
abbrev pub IsPacked : Chain → Type 0
IsPacked [] = 0 < 0
IsPacked (b ∷ []) = length b < block_data
IsPacked (b ∷ c ∷ bs) = (length b ≡ block_data) × IsPacked (c ∷ bs)

IsPacked-cons : (b : List ℕ) (bs : Chain) → length b ≡ block_data → IsPacked bs → IsPacked (b ∷ bs)
IsPacked-cons b [] h w = absurd (omega (arith, w))
IsPacked-cons b (c ∷ bs) h w = (h, w)

-- The law of a write of `buffer` to a chain with the bytes `old`.
abbrev pub Written : List ℕ → List ℕ → Chain → Type 0
Written old buffer chain = (contents chain ≡ old ++ buffer) × IsPacked chain

write_bytes_lem :
    (buffer meta : List ℕ)
    → length meta < block_data
    → Written meta buffer (write_bytes buffer meta [])
unfolding write_bytes extend_file
write_bytes_lem [] meta h = (refl, h)
write_bytes_lem (c ∷ buffer) meta h =
    let meta' = meta ++ (c ∷ []) in
    let joined : meta' ++ buffer ≡ meta ++ (c ∷ buffer) = append_assoc meta (c ∷ []) buffer in
    let len : length meta' ≡ length meta + 1 = length-append meta (c ∷ []) in
    elim (Bool-cases (length meta' == block_data)) [
      | inl e ↦
          let ih = write_bytes_lem buffer [] (omega arith) in
          rw e (
            ap (λ (t : List ℕ). meta' ++ t) ih.0 ∙ joined,
            IsPacked-cons meta' (write_bytes buffer [] []) ((==_iff (length meta') block_data).0 e)
                ih.1,
          )
      | inr e ↦
          let ih = write_bytes_lem buffer meta' (ground (arith, len)) in rw e (ih.0 ∙ joined, ih.1)
    ]

write_from_lem :
    (buffer meta : List ℕ) (bs : Chain)
    → IsPacked (meta ∷ bs)
    → Written (contents (meta ∷ bs)) buffer (write_from buffer meta bs)
unfolding write_from
write_from_lem buffer meta [] w =
    let room : (length meta == block_data) ≡ false = ground (arith, w) in
    let all = write_bytes_lem buffer meta w in
    rw room (all.0 ∙ ap (λ (t : List ℕ). t ++ buffer) (sym (append-nil meta)), all.1)
write_from_lem buffer meta (b ∷ bs) (h, w) =
    let full : (length meta == block_data) ≡ true = ground (arith, h) in
    let ih = write_from_lem buffer b bs w in
    rw full (
      ap (λ (t : List ℕ). meta ++ t) ih.0 ∙ sym (append_assoc meta (contents (b ∷ bs)) buffer),
      IsPacked-cons meta (write_from buffer b bs) h ih.1,
    )

-- On a chain whose blocks are full but for the last, `tfsys_write` at position 0 leaves the bytes of
-- the buffer as the file's, and at any other position puts them behind the bytes that the file has,
-- wherever the position is; the position moves by as many, the length in the handle stays, and again
-- only the last block is not full.
pub tfsys_write-Written :
    (file : File) (chain : Chain) (buffer : List ℕ)
    → IsPacked chain
    → let out = tfsys_write file chain buffer in
      Written (if file.position == 0 then [] else contents chain) buffer out.1
      × (out.0 ≡ record file { position = (file.position + length buffer) % 2 ^ 32 })
unfolding tfsys_write append_bytes reset_file
tfsys_write-Written file [] buffer w = absurd (omega (arith, w))
tfsys_write-Written file (b ∷ bs) buffer w = elim (Bool-cases (file.position == 0)) [
  | inl e ↦ rw (tfsys_write, e) (write_from_lem buffer [] [] (omega arith), refl)
  | inr e ↦ rw (tfsys_write, e) (write_from_lem buffer b bs w, refl)
]
