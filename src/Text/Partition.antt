-- ===== src/Text/Partition.antt =====
-- Where `partition` splits at the separators of the program.
use iterative_context.Prelude.{◌≡◌, refl, false, none, some, [], ◌∷◌, ◌++◌, arith}
use iterative_context.Text.{Str, codes, starts_with, drop_prefix, contains, partition}

-- A text with no "::" in it, also not across its end and a following ":", is what stands before
-- the first "::".
pub partition_colons :
    (r n : Str)
    → contains (codes "::") (r ++ codes ":") ≡ false
    → partition (codes "::") (r ++ (codes "::" ++ n)) ≡ (r, some n)
unfolding partition contains starts_with drop_prefix
partition_colons [] n h = refl
partition_colons (c ∷ []) n h = ground arith
partition_colons (c ∷ d ∷ r) n h = ground (arith, partition_colons (d ∷ r) n)

pub partition_at :
    (s r : Str)
    → contains (codes "@") s ≡ false
    → partition (codes "@") (s ++ (codes "@" ++ r)) ≡ (s, some r)
unfolding partition contains starts_with drop_prefix
partition_at [] r h = refl
partition_at (c ∷ s) r h = ground (arith, partition_at s r)

-- with no separator the whole text stands before it
pub partition-none : (sep s : Str) → contains sep s ≡ false → partition sep s ≡ (s, none)
unfolding partition contains
partition-none sep [] h = ground arith
partition-none sep (c ∷ s) h = ground (arith, partition-none sep s)
