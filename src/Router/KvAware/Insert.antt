-- ===== src/Router/KvAware/Insert.antt =====
-- Insertion with full flush: what the trie holds afterwards, and its counter.
use riftgate.Base.{
  ℕ, suc, ◌+◌, ◌<◌, ◌≤◌, ◌≡◌, max, Bool, true, false, none, some, List, [], ◌∷◌, leb, if◌then◌else◌,
  arith,
}
use riftgate.Core.Router.{BackendId}
use riftgate.Router.KvAware.{
  TrieNode, node, Children, leaf, child, PrefixTrie, get_child, or_default, put_child, insert_at,
  at_path, is_none, insert, flushed,
}
use riftgate.Router.KvAware.Trie.{hashes_eq, at_path-insert_at, at_path-empty}

-- The nodes that bear a backend.
unfoldable mutual
  pub size : TrieNode → ℕ
  size (node none c) = size_children c
  size (node (some b) c) = suc (size_children c)

  pub size_children : Children → ℕ
  size_children leaf = 0
  size_children (child h n rest) = size n + size_children rest

abbrev one_if : Bool → ℕ
one_if true = 1
one_if false = 0

size_children-put_child :
    (h : ℕ) (n : TrieNode) (c : Children)
    → size_children (put_child h n c) + size (or_default (get_child h c)) ≡ size_children c + size n
unfolding put_child get_child size size_children
size_children-put_child h n leaf = omega arith
size_children-put_child h n (child k m rest) = ground (arith, size_children-put_child h n rest)

size-insert_at :
    (hs : List ℕ) (b : BackendId) (n : TrieNode)
    → size (insert_at hs b n) ≡ size n + one_if (is_none (at_path hs n))
unfolding insert_at at_path size
size-insert_at [] b (node none c) = omega arith
size-insert_at [] b (node (some a) c) = omega arith
size-insert_at (h ∷ hs) b (node none c) = omega (
  arith,
  size-insert_at hs b (or_default (get_child h c)),
  size_children-put_child h (insert_at hs b (or_default (get_child h c))) c,
)
size-insert_at (h ∷ hs) b (node (some a) c) = omega (
  arith,
  size-insert_at hs b (or_default (get_child h c)),
  size_children-put_child h (insert_at hs b (or_default (get_child h c))) c,
)

-- The counter is the number of entries, and does not pass the cap, or 1 if the cap is 0.
pub record IsTrie (t : PrefixTrie) : Type 0 where
  pub counted : t.count ≡ size t.root
  pub capped : t.count ≤ max t.cap 1

flushed-IsTrie :
    (t : PrefixTrie) → IsTrie t → IsTrie (flushed t) × ((flushed t).count < max t.cap 1)
unfolding size size_children
flushed-IsTrie t v = ground arith

-- What a path bears after an insertion: the path inserted its backend; any other path what it bore
-- before, or nothing if the trie was full and the insertion flushed it. The insertion keeps the
-- counter exact and within the cap, or 1 if the cap is 0.
pub insert-at_path :
    (t : PrefixTrie) (h : ℕ) (hs ks : List ℕ) (b : BackendId)
    → IsTrie t
    → (at_path ks (insert t (h ∷ hs) b).root ≡ (
        if hashes_eq (h ∷ hs) ks
        then some b
        else if leb t.cap t.count
        then none
        else at_path ks t.root))
      × IsTrie (insert t (h ∷ hs) b)
unfolding insert
insert-at_path t h hs ks b v = (
  ground (arith, at_path-insert_at (h ∷ hs) ks b (flushed t).root, at_path-empty ks),
  ground (
    arith,
    (flushed-IsTrie t v).0.counted,
    (flushed-IsTrie t v).1,
    size-insert_at (h ∷ hs) b (flushed t).root,
  ),
)
