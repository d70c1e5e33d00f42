-- ===== src/Router/KvAware/Trie.antt =====
-- The prefix trie is a map from hash lists to backends, and finds the longest prefix in it.
use riftgate.Base.{
  ℕ, ◌≡◌, refl, Bool, true, false, ◌&&◌, Option, none, some, List, [], ◌∷◌, ◌==◌, ==_iff,
  if◌then◌else◌, arith, ap, ◌∙◌, sym, Bool-cases, inl, inr, fun_ext,
}
use riftgate.Core.Router.{BackendId}
use riftgate.Router.KvAware.{
  TrieNode, node, Children, leaf, child, empty_node, children_of, PrefixTrie, get_child, or_default,
  put_child, insert_at, at_path, or_best, longest_from, longest_match,
}

unfoldable pub hashes_eq : List ℕ → List ℕ → Bool
hashes_eq [] [] = true
hashes_eq [] (y ∷ ys) = false
hashes_eq (x ∷ xs) [] = false
hashes_eq (x ∷ xs) (y ∷ ys) = (x == y) && hashes_eq xs ys

get_child-put_child :
    (h k : ℕ) (n : TrieNode) (c : Children)
    → get_child k (put_child h n c) ≡ (if h == k then some n else get_child k c)
unfolding get_child put_child
get_child-put_child h k n leaf = refl
get_child-put_child h k n (child j m rest) =
    ground (arith, ==_iff j h, ==_iff j k, ==_iff h k, get_child-put_child h k n rest)

pub at_path-empty : (ks : List ℕ) → at_path ks empty_node ≡ none
unfolding at_path
at_path-empty [] = refl
at_path-empty (k ∷ ks) = at_path-empty ks

-- After an insertion the path inserted bears the backend, and every other path what it bore.
pub at_path-insert_at :
    (hs ks : List ℕ) (b : BackendId) (n : TrieNode)
    → at_path ks (insert_at hs b n) ≡ (if hashes_eq hs ks then some b else at_path ks n)
unfolding at_path insert_at hashes_eq
at_path-insert_at [] [] b (node old c) = refl
at_path-insert_at [] (k ∷ ks) b (node old c) = refl
at_path-insert_at (h ∷ hs) [] b (node old c) = refl
at_path-insert_at (h ∷ hs) (k ∷ ks) b (node old c) =
    let below = at_path-insert_at hs ks b (or_default (get_child h c)) in
    elim (Bool-cases (h == k)) [
      | inl e ↦
          rw (get_child-put_child h k (insert_at hs b (or_default (get_child h c))) c, e)
            (rw (← (==_iff h k).0 e) below)
      | inr e ↦ rw (get_child-put_child h k (insert_at hs b (or_default (get_child h c))) c, e)
    ]

-- Of a map from hash lists: the value at the longest non-empty prefix that has one.
unfoldable pub longest_prefix : (List ℕ → Option BackendId) → List ℕ → Option BackendId
longest_prefix f [] = none
longest_prefix f (h ∷ hs) = or_best (longest_prefix (λ ks. f (h ∷ ks)) hs) (f (h ∷ []))

longest_prefix-none :
    (f : List ℕ → Option BackendId) (hs : List ℕ)
    → ((ks : List ℕ) → f ks ≡ none)
    → longest_prefix f hs ≡ none
unfolding longest_prefix
longest_prefix-none f [] h = refl
longest_prefix-none f (x ∷ hs) h =
    rw (longest_prefix-none (λ ks. f (x ∷ ks)) hs (λ ks. h (x ∷ ks))) (h (x ∷ []))

or_best_assoc : (a b c : Option BackendId) → or_best a (or_best b c) ≡ or_best (or_best a b) c
or_best_assoc none b c = refl
or_best_assoc (some x) b c = refl

paths-missing :
    (h : ℕ) (c : Children)
    → get_child h c ≡ none
    → (ks : List ℕ) → at_path (h ∷ ks) (node none c) ≡ none
unfolding at_path
paths-missing h c e ks = rw e (at_path-empty ks)

paths-child :
    (h : ℕ) (c : Children) (b : Option BackendId) (d : Children)
    → get_child h c ≡ some (node b d)
    → (ks : List ℕ) → at_path (h ∷ ks) (node none c) ≡ at_path ks (node b d)
unfolding at_path
paths-child h c b d e ks = rw e

paths-below :
    (b : Option BackendId) (d : Children) (hs : List ℕ)
    → longest_prefix (λ ks. at_path ks (node b d)) hs
      ≡ longest_prefix (λ ks. at_path ks (node none d)) hs
unfolding longest_prefix at_path
paths-below b d [] = refl
paths-below b d (h ∷ hs) = refl

at_path-nil :
    (b : Option BackendId) (d : Children) (hs : List ℕ) (best : Option BackendId)
    → or_best (or_best (longest_prefix (λ ks. at_path ks (node b d)) hs) b) best
      ≡ or_best
          (or_best (longest_prefix (λ ks. at_path ks (node b d)) hs) (at_path [] (node b d)))
          best
unfolding at_path
at_path-nil b d hs best = refl

abbrev Finds : List ℕ → Children → Option BackendId → Type 0
Finds hs c best =
    longest_from hs c best ≡ or_best (longest_prefix (λ ks. at_path ks (node none c)) hs) best

longest_from-missing :
    (h : ℕ) (hs : List ℕ) (c : Children) (best : Option BackendId)
    → get_child h c ≡ none
    → Finds (h ∷ hs) c best
unfolding longest_from longest_prefix
longest_from-missing h hs c best e = rw (
  longest_prefix-none (λ ks. at_path (h ∷ ks) (node none c)) hs (paths-missing h c e),
  paths-missing h c e [],
  e,
  longest_from,
)

longest_from-child :
    (h : ℕ) (hs : List ℕ) (c : Children) (best b : Option BackendId) (d : Children)
    → get_child h c ≡ some (node b d)
    → Finds hs d (or_best b best)
    → Finds (h ∷ hs) c best
unfolding longest_from longest_prefix
longest_from-child h hs c best b d e below =
    let on =
      ap (λ (f : List ℕ → Option BackendId). or_best (or_best (longest_prefix f hs) (f [])) best)
        (fun_ext (paths-child h c b d e)) in
    rw (e, longest_from) below
    ∙ or_best_assoc (longest_prefix (λ ks. at_path ks (node none d)) hs) b best
    ∙ ap (λ (o : Option BackendId). or_best (or_best o b) best) (sym (paths-below b d hs))
    ∙ at_path-nil b d hs best
    ∙ sym on

longest_from-step :
    (h : ℕ) (hs : List ℕ) (c : Children) (best : Option BackendId) (o : Option TrieNode)
    → ((d : Children) (best' : Option BackendId) → Finds hs d best')
    → get_child h c ≡ o
    → Finds (h ∷ hs) c best
longest_from-step h hs c best none below e = longest_from-missing h hs c best e
longest_from-step h hs c best (some (node b d)) below e =
    longest_from-child h hs c best b d e (below d (or_best b best))

longest_from-longest_prefix :
    (hs : List ℕ) (c : Children) (best : Option BackendId) → Finds hs c best
unfolding longest_from longest_prefix
longest_from-longest_prefix [] c best = refl
longest_from-longest_prefix (h ∷ hs) c best =
    longest_from-step h hs c best (get_child h c) (longest_from-longest_prefix hs) refl

or_best-none : (a : Option BackendId) → or_best a none ≡ a
or_best-none none = refl
or_best-none (some x) = refl

longest_match-node :
    (n : TrieNode) (hashes : List ℕ)
    → longest_from hashes (children_of n) none ≡ longest_prefix (λ ks. at_path ks n) hashes
longest_match-node (node b c) hashes =
    longest_from-longest_prefix hashes c none ∙ or_best-none _ ∙ sym (paths-below b c hashes)

-- `longest_match` finds, in the trie read as a map from hash lists to backends, the backend of the
-- longest non-empty prefix that bears one.
pub longest_match-longest_prefix :
    (t : PrefixTrie) (hashes : List ℕ)
    → longest_match t hashes ≡ longest_prefix (λ ks. at_path ks t.root) hashes
unfolding longest_match
longest_match-longest_prefix t hashes = longest_match-node t.root hashes
