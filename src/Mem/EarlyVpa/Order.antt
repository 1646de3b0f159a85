-- ===== src/Mem/EarlyVpa/Order.antt =====
-- src/mem/vpa.rs: the order that the free list of `EarlyAllocator` keeps, and the frames in it.
use wasm_kernel.Base.{
  ℕ, ◌^◌, ◌≤◌, ◌<◌, ◌≡◌, refl, Bool, true, false, ◌||◌, List, [], ◌∷◌, ◌++◌, arith,
}
use wasm_kernel.Mem.Range.{AddressRange, contains}
use wasm_kernel.Mem.EarlyVpa.{is_sorted, starts}

-- Frame numbers of 64-bit addresses lie below this.
abbrev pub frame_limit : ℕ
frame_limit = 2 ^ 52

-- The ranges stand in order from `lo` on, none overlaps another, and all are frames.
abbrev pub IsOrdered : ℕ → List AddressRange → Type 0
IsOrdered lo [] = Unit
IsOrdered lo (r ∷ rs) =
    (lo ≤ r.start) × (r.start ≤ r.end) × (r.end < frame_limit) × IsOrdered r.end rs

-- Some range of the list holds the frame.
unfoldable pub is_free : List AddressRange → ℕ → Bool
unfolding contains
is_free [] x = false
is_free (r ∷ rs) x = contains r x || is_free rs x

pub IsOrdered-mono :
    (rs : List AddressRange) (lo lo' : ℕ) → lo' ≤ lo → IsOrdered lo rs → IsOrdered lo' rs
IsOrdered-mono [] lo lo' h o = tt
IsOrdered-mono (r ∷ rs) lo lo' h o = (omega arith, o.1, o.2, o.3)

-- One range gives way to some others that fit where it stood.
pub IsOrdered-replace :
    (pre : List AddressRange) (lo : ℕ) (x : AddressRange) (post ys : List AddressRange)
    → ((l : ℕ) → IsOrdered l (x ∷ post) → IsOrdered l (ys ++ post))
    → IsOrdered lo (pre ++ x ∷ post)
    → IsOrdered lo (pre ++ (ys ++ post))
IsOrdered-replace [] lo x post ys f o = f lo o
IsOrdered-replace (p ∷ pre) lo x post ys f o =
    (o.0, o.1, o.2, IsOrdered-replace pre p.end x post ys f o.3)

-- The range in the middle, with what follows it.
pub IsOrdered-from :
    (pre : List AddressRange) (lo : ℕ) (x : AddressRange) (post : List AddressRange)
    → IsOrdered lo (pre ++ x ∷ post)
    → (x.start ≤ x.end) × (x.end < frame_limit) × IsOrdered x.end post
IsOrdered-from [] lo x post o = (o.1, o.2, o.3)
IsOrdered-from (p ∷ pre) lo x post o = IsOrdered-from pre p.end x post o.3

pub is_free-append :
    (xs ys : List AddressRange) (n : ℕ) → is_free (xs ++ ys) n ≡ (is_free xs n || is_free ys n)
unfolding is_free
is_free-append [] ys n = refl
is_free-append (x ∷ xs) ys n = ground (arith, is_free-append xs ys n)

-- A frame that an ordered list holds lies at or above its lower bound.
pub is_free-ge :
    (rs : List AddressRange) (lo n : ℕ) → IsOrdered lo rs → n < lo → is_free rs n ≡ false
unfolding is_free
is_free-ge [] lo n o h = refl
is_free-ge (r ∷ rs) lo n o h = ground (arith, is_free-ge rs r.end n o.3)

-- The frames before the range in the middle are not in it, nor behind it.
pub is_free-before :
    (pre : List AddressRange) (lo : ℕ) (x : AddressRange) (post : List AddressRange) (n : ℕ)
    → IsOrdered lo (pre ++ x ∷ post)
    → x.start ≤ n
    → is_free pre n ≡ false
unfolding is_free
is_free-before [] lo x post n o h = refl
is_free-before (p ∷ pre) lo x post n o h =
    ground (arith, is_free-before pre p.end x post n o.3 h, end-le pre p.end x post o.3)
  where
    end-le :
        (pre : List AddressRange) (lo : ℕ) (x : AddressRange) (post : List AddressRange)
        → IsOrdered lo (pre ++ x ∷ post)
        → lo ≤ x.start
    end-le [] lo x post o = o.0
    end-le (p ∷ pre) lo x post o = omega (arith, end-le pre p.end x post o.3)

pub IsOrdered-is_sorted :
    (rs : List AddressRange) (lo : ℕ) → IsOrdered lo rs → is_sorted (starts rs) ≡ true
unfolding is_sorted
IsOrdered-is_sorted [] lo o = refl
IsOrdered-is_sorted (r ∷ []) lo o = refl
IsOrdered-is_sorted (r ∷ s ∷ rs) lo o = ground (arith, IsOrdered-is_sorted (s ∷ rs) r.end o.3)
