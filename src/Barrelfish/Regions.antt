-- ===== src/Barrelfish/Regions.antt =====
-- src/platform/barrelfish.c: alloc_vregion, which hands out the regions of blocks that each core
-- allocates for itself.
pub mod Ordered
pub mod Apart
mod Tests
use vmopsbench.Common.{
  ℕ, zero, suc, ◌+◌, Bool, if◌then◌else◌, ◌==◌, Option, some, none, List, [], ◌∷◌,
}

-- NUM_VREGION_BUF
abbrev pub num_vregion_buf : ℕ
num_vregion_buf = 2000

-- struct vregion_memobj, as the block of malloc that it lies in, with its place there.
pub record Region : Type 0 where
  pub block : ℕ
  pub index : ℕ

-- vregion_free_list[cid] and vregion_buf[cid]: `buf` is NULL or points at a place of a block, and
-- `end` is the end of the same block.
pub record Pool : Type 0 where
  pub free_list : List Region
  pub buf : Option Region

-- The pools of all cores, and how many blocks were asked for.
pub record Pools : Type 0 where
  pub pool : (cid : ℕ) → Pool
  pub asked : ℕ

abbrev pub put : (cid : ℕ) → Pool → ((cid : ℕ) → Pool) → (c : ℕ) → Pool
put cid p pool c = if cid == c then p else pool c

-- buf += 1; if (buf == end) { buf = NULL; end = NULL; }
abbrev pub advance : Region → Option Region
advance r = if r.index + 1 == num_vregion_buf then none else some (record r { index = r.index + 1 })

-- The first region of a buffer that is not NULL.
abbrev pub take_first : (cid : ℕ) → Region → Pools → Option Region × Pools
take_first cid r s =
    (some r, record s { pool = put cid (record { free_list = []; buf = advance r }) s.pool })

-- malloc(NUM_VREGION_BUF * sizeof(struct vregion_memobj)), whose answer is none for NULL
abbrev pub with_block : (cid : ℕ) → Option ℕ → Pools → Option Region × Pools
with_block cid none s = (none, s)
with_block cid (some b) s = take_first cid (record { block = b; index = 0 }) s

abbrev pub from_buf :
    (malloc : ℕ → Option ℕ) (cid : ℕ) → Option Region → Pools → Option Region × Pools
from_buf malloc cid none s = with_block cid (malloc s.asked) (record s { asked = s.asked + 1 })
from_buf malloc cid (some r) s = take_first cid r s

-- A region from the free list, if there is one.
abbrev pub from_list :
    (malloc : ℕ → Option ℕ) (cid : ℕ) (p : Pool) → List Region → Pools → Option Region × Pools
from_list malloc cid p [] s = from_buf malloc cid p.buf s
from_list malloc cid p (r ∷ rest) s =
    (some r, record s { pool = put cid (record p { free_list = rest }) s.pool })

-- alloc_vregion on the core `cid`: the region, none for the result -1. `malloc i` is the answer to
-- the i-th request of a block.
unfoldable pub alloc_vregion : (malloc : ℕ → Option ℕ) (cid : ℕ) → Pools → Option Region × Pools
alloc_vregion malloc cid s = from_list malloc cid (s.pool cid) (s.pool cid).free_list s

-- Both arrays are zero at first.
abbrev pub no_regions : Pools
no_regions = record { pool = λ cid. record { free_list = []; buf = none }; asked = 0 }

abbrev pub push : Option Region → List Region → List Region
push none h = h
push (some r) h = r ∷ h

-- The regions that are handed out, the latest first, when the cores ask in this order.
unfoldable pub alloc_all :
    (malloc : ℕ → Option ℕ) → List ℕ → Pools → List Region → List Region × Pools
unfolding alloc_vregion
alloc_all malloc [] s h = (h, s)
alloc_all malloc (cid ∷ cids) s h =
    let (r, s') = alloc_vregion malloc cid s in alloc_all malloc cids s' (push r h)
