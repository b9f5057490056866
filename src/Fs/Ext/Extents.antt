-- ===== src/Fs/Ext/Extents.antt =====
-- How much the extents of a file hold (src/fs/ext.cpp): the extent tree and the indirect blocks.
use reflash.Base.{
  ℕ, zero, suc, ◌+◌, ◌-◌, ◌*◌, ◌%◌, ◌^◌, ◌≤◌, ◌<◌, ◌≡◌, ◌≢◌, ◌⊎◌, inl, inr, refl, Bool, true, false,
  List, [], ◌==◌, min, arith, drop, r16, r32, u64_mod,
}
use reflash.BlockIo.{Read, got, failed}
use reflash.Fs.{
  FsFileExtent, extent, Disk, Run, returned, trapped, out_of_fuel, ◌>>=◌, push_all, sum_lengths,
}
use reflash.Fs.Extents.{total, total-push_le, total-push_all_le, sum_lengths-total}
use reflash.Fs.Ext.{
  ExtGeom, blk_off, read_block, append_block_extents, Parsed, parsed, not_parsed, leaf_blocks,
  leaf_entry, leaf_entries, index_next, index_entries, parse_extents_full,
}

total-append_block_extents :
    (exts : List FsFileExtent) (g : ExtGeom) (block bytes : ℕ)
    → total (append_block_extents exts g block bytes) ≤ total exts + bytes
unfolding append_block_extents
total-append_block_extents exts g block bytes =
    ground (arith, total-push_le exts (extent (blk_off g block) bytes))

total-leaf_blocks :
    (n : ℕ) (g : ExtGeom) (block left : ℕ) (exts : List FsFileExtent)
    → (leaf_blocks n g block left exts).0 + total (leaf_blocks n g block left exts).1
      ≤ left + total exts
unfolding leaf_blocks
total-leaf_blocks zero g block left exts = omega arith
total-leaf_blocks (suc n) g block zero exts = omega arith
total-leaf_blocks (suc n) g block (suc l) exts =
    let take : ℕ = min (suc l) g.block_size in
    let more : List FsFileExtent = append_block_extents exts g block take in
    omega (
      arith,
      total-leaf_blocks n g (block + 1) (suc l - take) more,
      total-append_block_extents exts g block take,
    )

total-leaf_entry :
    (g : ExtGeom) (p : List ℕ) (left : ℕ) (exts : List FsFileExtent)
    → (leaf_entry g p left exts).0 + total (leaf_entry g p left exts).1 ≤ left + total exts
unfolding leaf_entry
total-leaf_entry g p left exts =
    ground (arith, total-leaf_blocks (r16 p 4 % 0x8000) g (r32 p 8 + r16 p 6 * 2 ^ 32) left exts)

total-leaf_entries :
    (n : ℕ) (g : ExtGeom) (p : List ℕ) (left : ℕ) (exts : List FsFileExtent)
    → total (leaf_entries n g p left exts) ≤ left + total exts
unfolding leaf_entries
total-leaf_entries zero g p left exts = omega arith
total-leaf_entries (suc n) g p zero exts = omega arith
total-leaf_entries (suc n) g p (suc l) exts =
    let r : ℕ × List FsFileExtent = leaf_entry g p (suc l) exts in
    omega (arith, total-leaf_entries n g (drop 12 p) r.0 r.1, total-leaf_entry g p (suc l) exts)

-- The blocks that `n` entries of an index node point to satisfy `Q`, where they can be read.
unfoldable pub Listed : Disk → ExtGeom → (List ℕ → Type 0) → ℕ → List ℕ → Type 0
Listed dev g Q zero p = Unit
Listed dev g Q (suc n) p =
    ((blk : List ℕ) → read_block dev g (r32 p 4 + r16 p 8 * 2 ^ 32) ≡ got blk → Q blk)
    × Listed dev g Q n (drop 12 p)

-- The extent tree at a node has at most `depth` levels of index nodes.
unfoldable pub Deep : Disk → ExtGeom → ℕ → List ℕ → Type 0
Deep dev g zero eh = r16 eh 6 ≡ 0
Deep dev g (suc depth) eh = (r16 eh 6 ≡ 0) ⊎ Listed dev g (Deep dev g depth) (r16 eh 2) (drop 12 eh)

-- The code returns, with extents of at most `size` bytes or with an error.
pub AtMost : ℕ → Run Parsed → Type 0
AtMost size (returned (parsed exts)) = total exts ≤ size
AtMost size (returned (not_parsed err)) = Unit
AtMost size trapped = ⊥
AtMost size out_of_fuel = ⊥

-- One entry of an index node, after its block is parsed.
AtMost-index_next :
    (rest : ℕ → List FsFileExtent → Run Parsed) (size : ℕ) (exts : List FsFileExtent)
    (r : Run Parsed)
    → ((left : ℕ) (more : List FsFileExtent) → total more ≤ size → AtMost size (rest left more))
    → total exts ≤ size
    → AtMost (size - total exts) r
    → AtMost size (r >>= index_next rest size exts)
unfolding AtMost index_next
AtMost-index_next rest size exts (returned (parsed part)) go h at_most =
    go _ (push_all exts part) (omega (arith, total-push_all_le exts part))
AtMost-index_next rest size exts (returned (not_parsed err)) go h at_most = tt
AtMost-index_next rest size exts trapped go h at_most = at_most
AtMost-index_next rest size exts out_of_fuel go h at_most = at_most

module _ (dev : Disk) (g : ExtGeom) (Q : List ℕ → Type 0) (go : List ℕ → ℕ → Run Parsed)
    (go_AtMost : (blk : List ℕ) (size : ℕ) → size < u64_mod → Q blk → AtMost size (go blk size))
    (size : ℕ) (word : size < u64_mod) where
  left_of :
      (exts : List FsFileExtent)
      → total exts ≤ size
      → (size + u64_mod - sum_lengths exts 0) % u64_mod ≡ size - total exts
  left_of exts h = omega (arith, sum_lengths-total exts 0 (omega arith))

  AtMost-index_entries :
      (n : ℕ) (p : List ℕ) (left : ℕ) (exts : List FsFileExtent)
      → total exts ≤ size
      → Listed dev g Q n p
      → AtMost size (index_entries go dev g size n p left exts)
  unfolding index_entries AtMost Listed
  AtMost-index_entries zero p left exts h listed = h
  AtMost-index_entries (suc n) p zero exts h listed = h
  AtMost-index_entries (suc n) p (suc l) exts h listed =
      let here : Read = read_block dev g (r32 p 4 + r16 p 8 * 2 ^ 32) in
      elim here
          as (λ r.
            here ≡ r
            → AtMost size (elim r as (λ x. Run Parsed) [
              | failed err ↦ returned (not_parsed err)
              | got blk ↦
                  go blk ((size + u64_mod - sum_lengths exts 0) % u64_mod)
                  >>= index_next (index_entries go dev g size n (drop 12 p)) size exts
            ])) [
              | failed err ↦ λ e. tt
              | got blk ↦ λ e. rw (left_of exts h) (
                  AtMost-index_next (index_entries go dev g size n (drop 12 p)) size exts
                    (go blk (size - total exts))
                    (λ left1 more h1. AtMost-index_entries n (drop 12 p) left1 more h1 listed.1) h
                    (go_AtMost blk (size - total exts) (omega arith) (listed.0 blk e)))
            ]
        refl

  -- A node, by what its first and its depth field are.
  AtMost-node :
      (eh : List ℕ) (magic leaf : Bool)
      → (leaf ≡ false → Listed dev g Q (r16 eh 2) (drop 12 eh))
      → AtMost size (elim magic as (λ x. Run Parsed) [
        | false ↦ returned (not_parsed [])
        | true ↦ elim leaf as (λ x. Run Parsed) [
          | true ↦ returned (parsed (leaf_entries (r16 eh 2) g (drop 12 eh) size []))
          | false ↦ index_entries go dev g size (r16 eh 2) (drop 12 eh) size []
        ]
      ])
  unfolding AtMost
  AtMost-node eh false leaf listed = tt
  AtMost-node eh true true listed =
      omega (arith, total-leaf_entries (r16 eh 2) g (drop 12 eh) size [])
  AtMost-node eh true false listed =
      AtMost-index_entries (r16 eh 2) (drop 12 eh) size [] (omega arith) (listed refl)

not_leaf : (n : ℕ) → n ≡ 0 → (n == 0) ≢ false
not_leaf n h e = ground arith

-- Where the extent tree of a file has at most `depth` levels of index nodes, reading it ends, with an
-- error or with extents that together hold no more bytes than the file, whatever the entries say.
pub parse_extents_full-AtMost :
    (dev : Disk) (g : ExtGeom) (depth : ℕ) (eh : List ℕ) (size : ℕ)
    → size < u64_mod
    → Deep dev g depth eh
    → AtMost size (parse_extents_full (suc depth) dev g eh size)
unfolding parse_extents_full Deep
parse_extents_full-AtMost dev g zero eh size word deep =
    AtMost-node dev g (λ blk. ⊥) _ (λ blk size1 word1 none. absurd none) size word eh _ _
      (λ e. absurd (not_leaf _ deep e))
parse_extents_full-AtMost dev g (suc depth) eh size word deep =
    AtMost-node dev g (Deep dev g depth) _
      (λ blk size1 word1 deep1. parse_extents_full-AtMost dev g depth blk size1 word1 deep1) size
      word eh _ _ (λ e. elim deep [ inl leaf ↦ absurd (not_leaf _ leaf e) | inr listed ↦ listed ])
