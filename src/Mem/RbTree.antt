-- ===== src/Mem/RbTree.antt =====
-- The red-black tree of the crate intrusive_collections, which src/mem/vpa.rs uses: what the code
-- relies on. Two nodes with the same range are interchangeable, so a node is its range.
use wasm_kernel.Base.{
  ℕ, ◌+◌, ◌≤◌, ◌<◌, ◌≡◌, Bool, true, false, ◌&&◌, Option, none, some, List, [], ◌∷◌, ltb, leb, ◌==◌,
}
use wasm_kernel.Mem.Range.{AddressRange, contains}

pub data Bound : Type 0 where
  included : ℕ → Bound
  excluded : ℕ → Bound

-- The key lies above the bound.
abbrev pub above : Bound → ℕ → Bool
above (included k) key = leb k key
above (excluded k) key = ltb k key

-- A tree over the key of its adapter. `lower_bound` is a cursor's `get`, and `remove` takes the node
-- out that a cursor points to.
pub record RbTree (key : AddressRange → ℕ) : Type 1 where
  pub Tree : Type 0
  pub default : Tree
  pub iter : Tree → List AddressRange
  pub insert : AddressRange → Tree → Tree
  pub lower_bound : Bound → Tree → Option AddressRange
  pub remove : AddressRange → Tree → Tree

-- The sum of a weight over the nodes. A list is known as a multiset by the sums of all weights.
unfoldable pub total : (AddressRange → ℕ) → List AddressRange → ℕ
total w [] = 0
total w (r ∷ rs) = w r + total w rs

abbrev pub bit : Bool → ℕ
bit true = 1
bit false = 0

abbrev pub is_same : AddressRange → AddressRange → Bool
is_same r s = r.start == s.start && r.end == s.end

-- How often the list has the node, and how many of its nodes hold the frame.
abbrev pub count : AddressRange → List AddressRange → ℕ
count s rs = total (λ r. bit (is_same r s)) rs

abbrev pub cover : ℕ → List AddressRange → ℕ
cover n rs = total (λ r. bit (contains r n)) rs

-- The documented behaviour.
pub record RbTreeLaws {key : AddressRange → ℕ} (trees : RbTree key) : Type 1 where
  pub iter_default : trees.iter trees.default ≡ []
  pub insert_total :
      (w : AddressRange → ℕ) (r : AddressRange) (t : trees.Tree)
      → total w (trees.iter (trees.insert r t)) ≡ total w (trees.iter t) + w r
  pub remove_total :
      (w : AddressRange → ℕ) (r : AddressRange) (t : trees.Tree)
      → 0 < count r (trees.iter t)
      → total w (trees.iter (trees.remove r t)) + w r ≡ total w (trees.iter t)
  pub lower_bound_none :
      (b : Bound) (t : trees.Tree)
      → trees.lower_bound b t ≡ none
      → (s : AddressRange) → 0 < count s (trees.iter t)
      → above b (key s) ≡ false
  pub lower_bound_some :
      (b : Bound) (t : trees.Tree) (r : AddressRange)
      → trees.lower_bound b t ≡ some r
      → (0 < count r (trees.iter t)) × (above b (key r) ≡ true)
  pub lower_bound_least :
      (b : Bound) (t : trees.Tree) (r : AddressRange)
      → trees.lower_bound b t ≡ some r
      → (s : AddressRange) → 0 < count s (trees.iter t)
      → above b (key s) ≡ true
      → key r ≤ key s
