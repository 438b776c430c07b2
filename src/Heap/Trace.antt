-- ===== src/Heap/Trace.antt =====
-- Every history of `kmalloc`, `kfree` and writes by the owners, from the empty heap.
use osdev_graphical.Base.{
  ℕ, ◌+◌, ◌%◌, ◌^◌, ◌≤◌, ◌<◌, ◌≡◌, inl, inr, refl, ap, sym, arith, ◌∙◌, List, [], ◌∷◌, ◌++◌,
}
use mathlib.Core.Path.{subst}
use osdev_graphical.Memory.{Words, put}
use osdev_graphical.Memory.Laws.{put_ne}
use osdev_graphical.Bits.{bit_at-zero}
use osdev_graphical.Bitmap.Count.{occupied-empty}
use osdev_graphical.Heap.{Heap, max_blocks, heap_block_size, kmalloc, kfree}
use osdev_graphical.Heap.Live.{
  Live, Apart, Each-pick, Each-drop, Each-join, Each-zip, AllApart-pick,
}
use osdev_graphical.Heap.Valid.{pointer, end_address, IsOwned, IsHeap, IsPayload, IsOwned-keep}
use osdev_graphical.Heap.Malloc.{MallocLaw, kmalloc-MallocLaw}
use osdev_graphical.Heap.Free.{kfree-IsHeap}

-- One event. The allocation that a non-null result stands for is the one at that pointer with just
-- room for the request.
pub data Step (h : Heap) (l : List Live) (h' : Heap) (l' : List Live) : Type 0 where
  malloc :
      (size : ℕ) (x : Live)
      → size + 12 ≤ 2 ^ 32
      → (kmalloc h size).0 ≡ pointer x
      → pointer x + size ≤ end_address x
      → end_address x < pointer x + size + heap_block_size
      → h' ≡ (kmalloc h size).1
      → l' ≡ x ∷ l
      → Step h l h' l'
  refused :
      (size : ℕ)
      → size + 12 ≤ 2 ^ 32
      → (kmalloc h size).0 ≡ 0
      → h' ≡ (kmalloc h size).1
      → l' ≡ l
      → Step h l h' l'
  free :
      (pre post : List Live) (x : Live)
      → l ≡ pre ++ (x ∷ post)
      → h' ≡ kfree h (pointer x)
      → l' ≡ pre ++ post
      → Step h l h' l'
  write :
      (pre post : List Live) (x : Live) (i v : ℕ)
      → l ≡ pre ++ (x ∷ post)
      → IsPayload x i
      → h' ≡ record h { memory = put h.memory i v }
      → l' ≡ l
      → Step h l h' l'

pub data Reach (h : Heap) (l : List Live) : Heap → List Live → Type 0 where
  here : Reach h l h l
  next :
      {h' h'' : Heap} {l' l'' : List Live}
      → Reach h l h' l'
      → Step h' l' h'' l''
      → Reach h l h'' l''

same_live :
    (size : ℕ) (x y : Live)
    → pointer x ≡ pointer y
    → pointer x + size ≤ end_address x
    → end_address x < pointer x + size + heap_block_size
    → pointer y + size ≤ end_address y
    → end_address y < pointer y + size + heap_block_size
    → x ≡ y
same_live size x y p a b c d = λ i. record { start = starts i; blocks = amounts i }
  where
    starts : x.start ≡ y.start
    starts = omega arith

    amounts : x.blocks ≡ y.blocks
    amounts = omega arith

malloc-IsHeap :
    {h : Heap} {l : List Live} (size : ℕ) (x : Live)
    → (kmalloc h size).0 ≡ pointer x
    → pointer x + size ≤ end_address x
    → end_address x < pointer x + size + heap_block_size
    → MallocLaw h l size (kmalloc h size)
    → IsHeap (kmalloc h size).1 (x ∷ l)
malloc-IsHeap {h} size x p a b (inl (e, full)) =
    absurd (omega (arith, ap (λ (o : ℕ × Heap). o.0) e))
malloc-IsHeap {h} {l} size x p a b (inr (y, g)) =
    subst (λ (z : Live). IsHeap (kmalloc h size).1 (z ∷ l))
      (same_live size y x (sym g.address ∙ p) g.room g.snug a b) g.valid

refused-IsHeap :
    {h : Heap} {l : List Live} (size : ℕ)
    → (kmalloc h size).0 ≡ 0
    → IsHeap h l
    → MallocLaw h l size (kmalloc h size)
    → IsHeap (kmalloc h size).1 l
refused-IsHeap {h} {l} size z v (inl (e, full)) = subst (λ (o : ℕ × Heap). IsHeap o.1 l) (sym e) v
refused-IsHeap size z v (inr (y, g)) = absurd (omega (arith, g.address))

write-IsHeap :
    {h : Heap} (pre post : List Live) (x : Live) (i v : ℕ)
    → IsPayload x i
    → IsHeap h (pre ++ (x ∷ post))
    → IsHeap (record h { memory = put h.memory i v }) (pre ++ (x ∷ post))
write-IsHeap {h} pre post x i v own w = record {
  counted = w.counted;
  all_live = w.all_live;
  words = w.words;
  owned = Each-join x post Kept pre (own_kept (Each-pick x post Owned pre w.owned)) (
      Each-zip (Apart x) Owned Kept (pre ++ post) others_kept (AllApart-pick x post pre w.apart)
        (Each-drop x post Owned pre w.owned));
  apart = w.apart;
}
  where
    Owned : Live → Type 0
    Owned = IsOwned h.memory_map h.memory

    Kept : Live → Type 0
    Kept = IsOwned h.memory_map (put h.memory i v)

    own_kept : Owned x → Kept x
    own_kept o = IsOwned-keep x (λ k lo hi. refl) (put_ne h.memory i v _ (omega arith)) o

    others_kept : (y : Live) → Apart x y → Owned y → Kept y
    others_kept y a o =
        IsOwned-keep y (λ k lo hi. refl) (put_ne h.memory i v _ (omega (arith, o.some_blocks))) o

Step-IsHeap : {h h' : Heap} {l l' : List Live} → Step h l h' l' → IsHeap h l → IsHeap h' l'
Step-IsHeap {h} (malloc size x small p a b eh el) v =
    rw (eh, el) (malloc-IsHeap size x p a b (kmalloc-MallocLaw size v small))
Step-IsHeap (refused size small z eh el) v =
    rw (eh, el) (refused-IsHeap size z v (kmalloc-MallocLaw size v small))
Step-IsHeap {h} (free pre post x e eh el) v =
    rw (eh, el) ((kfree-IsHeap pre post x (subst (λ (k : List Live). IsHeap h k) e v)).0)
Step-IsHeap {h} (write pre post x i n e own eh el) v =
    rw (eh, el, e) (write-IsHeap pre post x i n own (subst (λ (k : List Live). IsHeap h k) e v))

-- The heap before its first use, whatever is in memory.
abbrev pub fresh : Words → Heap
fresh m = record { used_blocks = 0; memory_map = λ i. 0; memory = m }

fresh-IsHeap : (m : Words) → IsHeap (fresh m) []
fresh-IsHeap m = record {
  counted = sym (occupied-empty (λ i. 0) max_blocks (λ b l. bit_at-zero (b % 32)));
  all_live = refl;
  words = λ i. omega arith;
  owned = tt;
  apart = tt;
}

-- After any history of `kmalloc`s below 2^32 - 12 bytes, `kfree`s of live pointers and writes of
-- the owners into their own payload, from the empty heap, the heap is valid: the live allocations
-- are apart from one another and inside the heap, their blocks are exactly the taken ones and the
-- counter is their number, and each descriptor still holds its allocation's size.
pub Reach-IsHeap : {m : Words} {h : Heap} {l : List Live} → Reach (fresh m) [] h l → IsHeap h l
Reach-IsHeap {m} here = fresh-IsHeap m
Reach-IsHeap (next r s) = Step-IsHeap s (Reach-IsHeap r)
